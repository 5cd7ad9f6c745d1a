-- ===== src/Daemon/Checks.antt =====
-- ruleAdd of internal/daemon/rpc.go: the checks of a request of rule.add.
use runtime_pulse.Prelude.{
  ℕ, String, ◌⊎◌, ◌≡◌, refl, false, ◌||◌, Option, none, ok, err, Result-cases, Option-cases, ◌==◌,
  inl, inr, Bool-cases, str_append,
}
use runtime_pulse.Core.{validate_prompt_template}
use runtime_pulse.Daemon.{Daemon, Outside}
use runtime_pulse.Daemon.Rules.{RuleParams, parse_expiry, add_checked, rule_add}

-- A request of rule.add that passes the checks that stand before its side effects.
abbrev pub IsSound : Outside → RuleParams → Type 0
IsSound o p =
    ((p.type == "" || (p.session_id == "" || p.prompt == "")) ≡ false)
    × (validate_prompt_template o.draw.templates p.prompt ≡ none)
    × ((expires : Option ℕ) × (parse_expiry o p.expires_at ≡ ok expires))

-- Either the request passes the checks, or it is refused and the daemon stays exactly as it was:
-- no session is registered for it, and no statement is run.
pub rule_add-IsSound :
    (o : Outside) (p : RuleParams) (d : Daemon)
    → IsSound o p ⊎ ((e : String) × (rule_add o p d ≡ (err e, d)))
unfolding rule_add add_checked
rule_add-IsSound o p d =
    elim (Bool-cases (p.type == "" || (p.session_id == "" || p.prompt == ""))) [
      | inl missing ↦ inr ("rule.add: type, sessionId and prompt are required", rw missing refl)
      | inr given ↦ elim (Option-cases (validate_prompt_template o.draw.templates p.prompt)) [
        | inr (x, bad) ↦ inr (str_append "rule.add: bad prompt template: " x, rw (given, bad) refl)
        | inl parsed ↦ elim (Result-cases (parse_expiry o p.expires_at)) [
          | inl (x, bad) ↦ inr (x, rw (given, parsed, bad) refl)
          | inr (t, good) ↦ inl (given, parsed, (t, good))
        ]
      ]
    ]
