-- ===== src/Store/Tables/Rows.antt =====
-- store/rules.go: a rule as AddRule writes it and scanRule reads it.
use runtime_pulse.Prelude.{◌≡◌, false, arith}
use runtime_pulse.Core.{Rule}
use runtime_pulse.Store.Tables.{rule_row, scan_rule}

-- A rule that is stored and read back is the rule, not consumed.
scan-rule_row : (r : Rule) → scan_rule (rule_row r) ≡ record r { consumed = false }
unfolding rule_row scan_rule
scan-rule_row r = ground arith
