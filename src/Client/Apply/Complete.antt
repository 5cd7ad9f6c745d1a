-- ===== src/Client/Apply/Complete.antt =====
-- cmd/runtimepulse/cmd_apply.go: a workflow that Parse accepts, on a daemon that answers.
use runtime_pulse.Prelude.{
  ℕ, suc, String, ◌≡◌, refl, ap, ◌∙◌, true, false, ◌||◌, none, some, List, [], ◌∷◌, ◌++◌, map, any,
  any-append, All, append_nil, append_assoc, ok, ltb, length, ◌==◌, eq_iff, arith, if◌then◌else◌,
}
use runtime_pulse.Core.{Rule, Session, TemplateEngine}
use runtime_pulse.Store.Tables.{Db, RuleRow, bool_int, rule_row}
use runtime_pulse.Store.Rules.{prepared}
use runtime_pulse.Workflow.{Step, Workflow, Reader, parse, step_rule, rules}
use runtime_pulse.Workflow.Compiled.{IsComplete, parse-IsComplete}
use runtime_pulse.Daemon.{Daemon, Outside, rule_reply}
use runtime_pulse.Daemon.Methods.{dispatch}
use runtime_pulse.Daemon.Added.{over, with_sessions, with_rules, asked_rule, added_ok}
use runtime_pulse.Client.{handle_request, call}
use runtime_pulse.Client.Apply.{Trip, Shell, add_params, add_rules, apply}
use runtime_pulse.Client.Apply.Undo.{Delivered, add_next}

-- The rows that rules become.
unfoldable asked_rows : (ℕ → Trip) → Workflow → String → List Rule → List RuleRow
asked_rows adds w abs [] = []
asked_rows adds w abs (r ∷ rs) =
    rule_row (asked_rule (adds 0).outside (add_params w abs r) none)
    ∷ asked_rows (λ n. adds (suc n)) w abs rs

-- The ids that the daemon draws are new to its rules, and distinct.
pub record NewIds (adds : ℕ → Trip) (l : List RuleRow) : Type 0 where
  pub absent : (n : ℕ) → any (λ r. r.id == (adds n).outside.new_id) l ≡ false
  pub distinct : (m n : ℕ) → (adds m).outside.new_id ≡ (adds n).outside.new_id → m ≡ n

NewIds-next :
    (adds : ℕ → Trip) (l : List RuleRow) (row : RuleRow)
    → row.id ≡ (adds 0).outside.new_id
    → NewIds adds l
    → NewIds (λ n. adds (suc n)) (l ++ row ∷ [])
NewIds-next adds l row e h = record {
  absent = λ n.
      let apart : (0 ≡ suc n) → ⊥ = λ q. omega (arith, q) in
      rw (any-append (λ r. r.id == (adds (suc n)).outside.new_id) l (row ∷ [])) (
        ground (
          arith,
          h.absent (suc n),
          eq_iff row.id (adds (suc n)).outside.new_id,
          h.distinct 0 (suc n),
          e,
        ));
  distinct = λ m n q. omega (arith, h.distinct (suc m) (suc n) q);
}

module _ (w : Workflow) (path : String) (undos : ℕ → Trip) (t : TemplateEngine)
    (agent : (w.agent == "") ≡ false) (session : (w.session == "") ≡ false)
    (dir : (path == "") ≡ false) where
  add_rules_arms :
      (adds : ℕ → Trip) (created : List String) (rs : List Rule) (d : Daemon) (db : Db)
      → Delivered adds
      → ((n : ℕ) → (adds n).outside.draw.templates ≡ t)
      → All (IsComplete t w.session) rs
      → NewIds adds db.rules
      → (any (λ s. s.session_id == w.session) db.sessions || ltb 0 (length rs)) ≡ true
      → (sessions : List Session) × (any (λ s. s.session_id == w.session) sessions ≡ true)
        × (add_rules w path adds undos created rs (over d db) ≡ (
          ok tt,
          over d (with_rules (with_sessions db sessions) (db.rules ++ asked_rows adds w path rs)),
        ))
  unfolding add_rules rule_row asked_rows
  add_rules_arms adds created [] d db ha ht hc new there =
      (db.sessions, ground arith, rw (append_nil db.rules) refl)
  add_rules_arms adds created (r ∷ rs) d db ha ht hc new there =
      let c = hc.0 in
      let o = (adds 0).outside in
      let p = add_params w path r in
      let row = rule_row (asked_rule o p none) in
      let (sessions, known, h) =
        added_ok o p d db c.type (rw c.session_id session) c.prompt (rw (ht 0) c.template) refl
          agent dir (unfold prepared in new.absent 0) in
      let db' : Db = with_rules (with_sessions db sessions) (db.rules ++ row ∷ []) in
      let (after, there', done) =
        add_rules_arms (λ n. adds (suc n)) (created ++ row.id ∷ []) rs d db' (λ n. ha (suc n))
          (λ n. ht (suc n)) hc.1
          (NewIds-next adds db.rules row (unfold rule_row prepared in refl) new)
          (ground (arith, rw c.session_id at known)) in
      (
        after,
        there',
        add_next w path adds undos created r rs (over d db)
              (some (rule_reply (asked_rule o p none))) (over d db')
              (unfold call handle_request dispatch in rw (ha 0, h) refl)
            ∙ done
            ∙ ap (λ l. (ok tt, over d (with_rules (with_sessions db after) l)))
                (append_assoc db.rules (row ∷ []) (asked_rows (λ n. adds (suc n)) w path rs)),
      )

-- The rows that the steps of a workflow become: one-shot rules of its session, under the ids and at
-- the times of the calls.
abbrev pub step_row : Outside → Workflow → Step → RuleRow
step_row o w s = record {
  id = o.new_id;
  event_type = s.on.type;
  event_source = s.on.source;
  action_kind = "continue_session";
  session_id = w.session;
  prompt_template = s.prompt;
  label = s.label;
  one_shot = 1;
  consumed = 0;
  expires_at = none;
  created_at = o.draw.now;
}

abbrev pub step_rows : (ℕ → Trip) → Workflow → List Step → List RuleRow
step_rows adds w [] = []
step_rows adds w (s ∷ l) = step_row (adds 0).outside w s ∷ step_rows (λ n. adds (suc n)) w l

asked-step :
    (adds : ℕ → Trip) (w : Workflow) (path : String) (l : List Step)
    → asked_rows adds w path (map (step_rule w) l) ≡ step_rows adds w l
unfolding asked_rows rule_row prepared bool_int
asked-step adds w path [] = refl
asked-step adds w path (s ∷ l) =
    ap (λ k. step_row (adds 0).outside w s ∷ k) (asked-step (λ n. adds (suc n)) w path l)

-- A workflow file that Parse accepts is applied completely: the command succeeds, the rules of the
-- steps follow those of before in their order, and the workflow's session is registered; events,
-- continuations, watches and the bus stay. This supposes a healthy connection, that each call of
-- rule.add is answered, that the daemon has the templates that Parse had, that the ids that it draws
-- are distinct and new to its rules, and that the files and directories can be read.
pub apply_arms_workflow :
    (m : Shell) (r : Reader) (adds undos : ℕ → Trip) (path text repo abs : String) (w : Workflow)
    (d : Daemon) (db : Db)
    → m.read_file path ≡ ok text
    → parse r text ≡ ok w
    → (if w.repo == "" then m.getwd else ok w.repo) ≡ ok repo
    → m.abs repo ≡ ok abs
    → (abs == "") ≡ false
    → m.dial ≡ none
    → Delivered adds
    → ((n : ℕ) → (adds n).outside.draw.templates ≡ r.templates)
    → NewIds adds db.rules
    → (sessions : List Session) × (any (λ s. s.session_id == w.session) sessions ≡ true)
      × (apply m r adds undos path (over d db) ≡ (
        ok tt,
        over d (with_rules (with_sessions db sessions) (db.rules ++ step_rows adds w w.steps)),
      ))
unfolding apply rules
apply_arms_workflow m r adds undos path text repo abs w d db hf hp hr ha dir hd live ht new =
    let (complete, unique, some_step, session, agent) = parse-IsComplete r text w hp in
    let (sessions, known, done) =
      add_rules_arms w abs undos r.templates agent session dir adds [] (rules w) d db live ht
        complete new (ground (arith, some_step)) in
    (
      sessions,
      known,
      rw (hf, hp, hr, ha, hd) done
          ∙ ap (λ l. (ok tt, over d (with_rules (with_sessions db sessions) (db.rules ++ l))))
              (asked-step adds w abs w.steps),
    )
