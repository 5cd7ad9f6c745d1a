-- ===== src/Client/Apply/Undo.antt =====
-- cmd/runtimepulse/cmd_apply.go: what is left of the rules when a step fails.
use runtime_pulse.Prelude.{
  ℕ, suc, String, ◌≡◌, refl, sym, ap, subst, ◌∙◌, ◌⊎◌, not, Option, none, some, List, [], ◌∷◌, ◌++◌,
  filter, append_nil, Result, ok, err, ◌==◌, inl, inr, Bool-cases, if◌then◌else◌,
}
use runtime_pulse.Core.{Rule, Session}
use runtime_pulse.Store.Tables.{Db, RuleRow, rule_row}
use runtime_pulse.Store.Sql.{exec}
use runtime_pulse.Store.Rules.{prepared, remove_rule, delete_rule}
use runtime_pulse.Daemon.{Daemon, Outside, Reply, rule_reply}
use runtime_pulse.Daemon.Methods.{dispatch, rule_add_request, rule_remove}
use runtime_pulse.Workflow.{Workflow, Reader, rules}
use runtime_pulse.Client.{delivered, lost, handle_request, call}
use runtime_pulse.Client.Apply.{
  Trip, add_params, noted, rollback, step_failure, add_rules, Shell, apply, compiled, located,
  dialled, read_workflow,
}
use runtime_pulse.Daemon.Added.{over, with_sessions, with_rules, asked_rule, added-Settled}
use runtime_pulse.Client.Apply.Rows.{without, Undoable, undone, Undoable-snoc}

abbrev pub Delivered : (ℕ → Trip) → Type 0
Delivered trips = (n : ℕ) → (trips n).transport ≡ delivered

removal :
    (o : Outside) (id : String) (d : Daemon) (db : Db)
    → (call delivered o (rule_remove id) (over d db)).1
      ≡ over d (with_rules db (filter (λ r. not (r.id == id)) db.rules))
unfolding call handle_request dispatch remove_rule delete_rule exec
removal o id d db = refl

rollback_removes :
    (undos : ℕ → Trip) (created : List String) (d : Daemon) (db : Db)
    → Delivered undos
    → rollback undos created (over d db) ≡ over d (with_rules db (without created db.rules))
unfolding rollback
rollback_removes undos [] d db h = refl
rollback_removes undos (id ∷ created) d db h =
    rw (h 0, removal (undos 0).outside id d db)
      (rollback_removes (λ n. undos (suc n)) created d
        (with_rules db (filter (λ r. not (r.id == id)) db.rules)) (λ n. h (suc n)))

-- Each call reaches the daemon and is answered, or does not reach it.
abbrev pub Answered : (ℕ → Trip) → Type 0
Answered trips =
    (n : ℕ) → ((trips n).transport ≡ delivered) ⊎ ((e : String) × ((trips n).transport ≡ lost e))

-- An error leaves the rules of before.
abbrev Undone : List RuleRow → Daemon → Db → Result (Unit {0}) × Daemon → Type 0
Undone base d db (r, d') =
    (e : String)
    → r ≡ err e
    → (sessions : List Session) × (d' ≡ over d (with_rules (with_sessions db sessions) base))

module _ (w : Workflow) (path : String) where
  module _ (adds undos : ℕ → Trip) (created : List String) (r : Rule) (rs : List Rule)
      (d : Daemon) where
    abbrev after : Result (Option Reply) × Daemon → Result (Unit {0}) × Daemon
    after out = elim out.0 [
      | ok reply ↦ add_rules w path (λ n. adds (suc n)) undos (noted created reply) rs out.1
      | err e ↦ (err (step_failure (adds 0).outside r e created), rollback undos created out.1)
    ]

    pub add_next :
        (reply : Option Reply) (d' : Daemon)
        → call (adds 0).transport (adds 0).outside (rule_add_request (add_params w path r)) d
          ≡ (ok reply, d')
        → add_rules w path adds undos created (r ∷ rs) d
          ≡ add_rules w path (λ n. adds (suc n)) undos (noted created reply) rs d'
    unfolding add_rules
    add_next reply d' h = ap after h

    add_failed :
        (e : String) (d' : Daemon)
        → call (adds 0).transport (adds 0).outside (rule_add_request (add_params w path r)) d
          ≡ (err e, d')
        → add_rules w path adds undos created (r ∷ rs) d
          ≡ (err (step_failure (adds 0).outside r e created), rollback undos created d')
    unfolding add_rules
    add_failed e d' h = ap after h

module _ (w : Workflow) (path : String) (base : List RuleRow) where
  failed-Undone :
      (undos : ℕ → Trip) (created : List String) (d : Daemon) (db : Db) (sessions : List Session)
      (text : String)
      → Delivered undos
      → Undoable base created db.rules
      → Undone base d db (err text, rollback undos created (over d (with_sessions db sessions)))
  failed-Undone undos created d db sessions text h u e q = (
    sessions,
    rollback_removes undos created d (with_sessions db sessions) h
        ∙ ap (λ l. over d (with_rules (with_sessions db sessions) l))
            (undone base db.rules created u),
  )

  add_rules-Undone :
      (adds undos : ℕ → Trip) (created : List String) (rs : List Rule) (d : Daemon) (db : Db)
      → Answered adds
      → Delivered undos
      → Undoable base created db.rules
      → Undone base d db (add_rules w path adds undos created rs (over d db))
  unfolding add_rules rule_row prepared
  add_rules-Undone adds undos created [] d db ha hu u = λ e q. absurd (cc q)
  add_rules-Undone adds undos created (r ∷ rs) d db ha hu u = elim (ha 0) [
    | inr (x, q) ↦
        subst (Undone base d db)
          (sym (
            add_failed w path adds undos created r rs (over d db) x (over d db)
              (unfold call in rw q refl)))
          (failed-Undone undos created d db db.sessions _ hu u)
    | inl q ↦
        let o = (adds 0).outside in
        let p = add_params w path r in
        let (sessions, out) = added-Settled o p d db in
        elim out [
          | inl (x, h) ↦ elim (Bool-cases (x == "")) [
            | inl blank ↦
                subst (Undone base d db)
                  (sym (
                    add_next w path adds undos created r rs (over d db) none
                      (over d (with_sessions db sessions))
                      (unfold call handle_request dispatch in rw (q, h, blank) refl)))
                  (add_rules-Undone (λ n. adds (suc n)) undos created rs d
                    (with_sessions db sessions) (λ n. ha (suc n)) hu u)
            | inr text ↦
                subst (Undone base d db)
                  (sym (
                    add_failed w path adds undos created r rs (over d db) x
                      (over d (with_sessions db sessions))
                      (unfold call handle_request dispatch in rw (q, h, text) refl)))
                  (failed-Undone undos created d db sessions _ hu u)
          ]
          | inr (expires, new, h) ↦
              let row = rule_row (asked_rule o p expires) in
              let db' : Db = with_rules (with_sessions db sessions) (db.rules ++ row ∷ []) in
              subst (Undone base d db)
                (sym (
                  add_next w path adds undos created r rs (over d db)
                    (some (rule_reply (asked_rule o p expires))) (over d db')
                    (unfold call handle_request dispatch in rw (q, h) refl)))
                (add_rules-Undone (λ n. adds (suc n)) undos (created ++ row.id ∷ []) rs d db'
                  (λ n. ha (suc n)) hu (Undoable-snoc base db.rules created row new u))
        ]
  ]

-- A command that fails leaves the rules, and all tables but the sessions, exactly as they were, the
-- bus and the watches too: the rules that were added before the failing step are removed again. This
-- supposes a healthy connection, that each call of rule.add is answered or does not reach the daemon,
-- and that the calls of rule.remove are answered.
pub apply_all_or_nothing :
    (m : Shell) (r : Reader) (adds undos : ℕ → Trip) (path : String) (d : Daemon) (db : Db)
    (e : String)
    → Answered adds
    → Delivered undos
    → (apply m r adds undos path (over d db)).0 ≡ err e
    → (sessions : List Session) × ((apply m r adds undos path (over d db)).1
        ≡ over d (with_sessions db sessions))
unfolding apply
apply_all_or_nothing m r adds undos path d db e ha hu h =
    compiled-undone (read_workflow r (m.read_file path)) h
  where
    Unchanged : Result (Unit {0}) × Daemon → Type 0
    Unchanged out =
        out.0 ≡ err e → (sessions : List Session) × (out.1 ≡ over d (with_sessions db sessions))

    dialled-undone :
        (dial : Option String) (w : Workflow) (abs : Result String)
        → Unchanged (dialled dial adds undos w abs (over d db))
    dialled-undone none w (ok abs) h =
        add_rules-Undone w abs db.rules adds undos [] (rules w) d db ha hu
          (record { more = []; split = sym (append_nil db.rules); covered = tt; foreign = tt }) e h
    dialled-undone (some x) w (ok abs) h = (db.sessions, refl)
    dialled-undone none w (err x) h = (db.sessions, refl)
    dialled-undone (some y) w (err x) h = (db.sessions, refl)

    located-undone :
        (w : Workflow) (repo : Result String) → Unchanged (located m adds undos w repo (over d db))
    located-undone w (ok repo) h = dialled-undone m.dial w (m.abs repo) h
    located-undone w (err x) h = (db.sessions, refl)

    compiled-undone : (w : Result Workflow) → Unchanged (compiled m adds undos w (over d db))
    compiled-undone (ok w) h = located-undone w (if w.repo == "" then m.getwd else ok w.repo) h
    compiled-undone (err x) h = (db.sessions, refl)
