-- ===== src/Core/Selection.antt =====
-- core/rule.go: what `Active` decides over time.
use runtime_pulse.Prelude.{ℕ, ◌≤◌, ◌≡◌, true, arith}
use runtime_pulse.Core.{Rule, active}

-- A rule that is inactive stays inactive: what is active later was active before.
pub active_earlier :
    (r : Rule) (now later : ℕ) → now ≤ later → active r later ≡ true → active r now ≡ true
unfolding active
active_earlier r now later h k = ground arith
