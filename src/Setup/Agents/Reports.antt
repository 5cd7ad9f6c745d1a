-- ===== src/Setup/Agents/Reports.antt =====
-- internal/setup/setup.go: what a run reports, and what it registers.
use runtime_pulse.Prelude.{
  String, ◌≡◌, ◌⊎◌, refl, sym, ap, ◌∙◌, true, false, none, some, List, [], ◌∷◌, map, filter, All,
  In, Result, ok, err, inl, inr, Bool-cases,
}
use runtime_pulse.Setup.{Disk}
use runtime_pulse.Setup.Config.Entries.{ReadsBack, merge_registers}
use runtime_pulse.Setup.Agents.{
  Scope, user, Agent, Host, cursor_path, open_code_path, cursor_agent, open_code_agent, Outcome,
  outcome_of, run_one, named_in, run_setup,
}

-- Either the agent is registered, now or before, or there is an error.
abbrev pub IsReported : Outcome → Type 0
IsReported r =
    ((r.done ≡ true) × (r.error ≡ none))
    ⊎ ((r.done ≡ false) × (r.skipped ≡ false) × ((e : String) × (r.error ≡ some e)))

outcome_of-IsReported :
    (name note : String) (out : Result (Unit {0}) × Disk)
    → IsReported (outcome_of name note out).0 × ((outcome_of name note out).0.agent ≡ name)
outcome_of-IsReported name note (ok _, d) = (inl (refl, refl), refl)
outcome_of-IsReported name note (err e, d) = (inr (refl, refl, (e, refl)), refl)

run_one-IsReported :
    (bin : String) (scope : Scope) (a : Agent) (d : Disk)
    → IsReported (run_one bin scope a d).0 × ((run_one bin scope a d).0.agent ≡ a.name)
unfolding run_one
run_one-IsReported bin scope a d = elim (Bool-cases (a.status scope d).installed) [
  | inr out ↦ rw out (inr (refl, refl, (_, refl)), refl)
  | inl there ↦ elim (Bool-cases (a.status scope d).registered) [
    | inl before ↦ rw (there, before) (inl (refl, refl), refl)
    | inr new ↦ elim (Bool-cases (a.supports_scope scope)) [
      | inl fits ↦ rw (there, new, fits) (outcome_of-IsReported a.name "" (a.register bin scope d))
      | inr other ↦ rw (there, new, other) (outcome_of-IsReported a.name _ (a.register bin user d))
    ]
  ]
]

-- A run reports each selected agent once, in the order of the agents, whatever happens to the others:
-- as registered, now or before, and without an error, or as not registered and with one.
run_reports :
    (names : List String) (bin : String) (scope : Scope) (agents : List Agent) (d : Disk)
    → All IsReported (run_setup names bin scope agents d).0
      × (map (λ r. r.agent) (run_setup names bin scope agents d).0
          ≡ filter (named_in names) (map (λ a. a.name) agents))
unfolding run_setup
run_reports names bin scope [] d = (tt, refl)
run_reports names bin scope (a ∷ agents) d = elim (Bool-cases (named_in names a.name)) [
  | inl chosen ↦
      let (one, name) = run_one-IsReported bin scope a d in
      let (rest, same) = run_reports names bin scope agents (run_one bin scope a d).1 in
      rw chosen ((one, rest), rw (name, same) refl)
  | inr left ↦ rw left (run_reports names bin scope agents d)
]

-- Cursor or OpenCode, on a machine with its directories.
abbrev pub file_agents : Host → String → String → List Agent
file_agents h home cwd = cursor_agent h home cwd ∷ open_code_agent h home cwd ∷ []

-- What Register does to the configuration of Cursor or of OpenCode, Status sees: after a registration
-- without an error, in either scope, the agent is found registered there. This supposes that what
-- encoding/json encodes is read back to an object with the same leaves.
pub register-status :
    (h : Host) (home cwd : String) (a : Agent) (bin : String) (scope : Scope) (d d' : Disk)
    → ReadsBack h.codec
    → In a (file_agents h home cwd)
    → a.register bin scope d ≡ (ok tt, d')
    → (a.status scope d').registered ≡ true
unfolding cursor_agent open_code_agent
register-status h home cwd a bin scope d d' faithful (inl is) e =
    ap (λ x. (x.status scope d').registered) is
    ∙ (merge_registers h.codec (cursor_path h home cwd scope) "mcpServers" "runtimepulse" _ faithful
        d d' (ap (λ x. x.register bin scope d) (sym is) ∙ e)).0
register-status h home cwd a bin scope d d' faithful (inr (inl is)) e =
    ap (λ x. (x.status scope d').registered) is
    ∙ (merge_registers h.codec (open_code_path h home cwd scope) "mcp" "runtimepulse" _ faithful d
        d' (ap (λ x. x.register bin scope d) (sym is) ∙ e)).0
register-status h home cwd a bin scope d d' faithful (inr (inr is)) e = absurd is
