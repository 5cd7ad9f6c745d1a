-- ===== src/Watch.antt =====
-- internal/watch/watch.go: what a watch is. A time.Duration is a number of nanoseconds.
pub mod Poller
pub mod Manager
pub mod Docker
pub mod File
pub mod Git
use runtime_pulse.Prelude.{ℕ, ℤ, zero, suc, pos, negsuc, String, Bool, List, [], ◌∷◌, any, ◌==◌}

pub record Config : Type 0 where
  pub interval : ℤ
  pub stability_threshold : ℤ

-- Config.WithDefaults: an interval of 0 or less is two seconds.
abbrev pub positive_or : ℕ → ℤ → ℕ
positive_or d (pos zero) = d
positive_or d (pos (suc n)) = suc n
positive_or d (negsuc n) = d

unfoldable pub with_defaults : Config → Config
with_defaults c = record c { interval = pos (positive_or 2000000000 c.interval) }

pub record Watch : Type 0 where
  pub id : String
  pub type : String
  pub target : String
  pub config : Config
  pub created_at : ℕ

abbrev pub valid_types : List String
valid_types = "http" ∷ "tcp" ∷ "file" ∷ "process" ∷ "docker" ∷ "git" ∷ []

-- ValidateType; `true` is Go's nil error.
unfoldable pub validate_type : String → Bool
validate_type t = any (λ v. v == t) valid_types
