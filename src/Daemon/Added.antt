-- ===== src/Daemon/Added.antt =====
-- ruleAdd of internal/daemon/rpc.go: the rows that a request leaves.
use runtime_pulse.Prelude.{
  ℕ, String, ◌≡◌, refl, ◌∙◌, ◌⊎◌, true, false, not, ◌&&◌, ◌||◌, Option, none, List, [], ◌∷◌, ◌++◌,
  map, any, any-append, Result, ok, err, ◌==◌, eq_refl, arith, inl, inr, Bool-cases, Option-cases,
  Result-cases, str_append,
}
use runtime_pulse.Core.{Rule, Session, validate_prompt_template}
use runtime_pulse.Store.Tables.{Db, RuleRow, rule_row}
use runtime_pulse.Store.Sql.{healthy, exec}
use runtime_pulse.Store.Sessions.{
  find_session, get_session, register_session, upsert_session, refresh_row, with_default_state,
}
use runtime_pulse.Store.Rules.{prepared, add_rule, insert_rule}
use runtime_pulse.Store.Continuations.{constraint_failed}
use runtime_pulse.Daemon.{Daemon, Outside, Reply, rule_reply}
use runtime_pulse.Daemon.Rules.{
  RuleParams, self_registered, ensure_session, rule_of, add_checked, parse_expiry, rule_add,
}

-- The daemon over other tables.
abbrev pub over : Daemon → Db → Daemon
over d db = record d { engine = record d.engine { conn = healthy db } }

abbrev pub with_sessions : Db → List Session → Db
with_sessions db sessions = record db { sessions = sessions }

abbrev pub with_rules : Db → List RuleRow → Db
with_rules db rules = record db { rules = rules }

any-refreshed :
    (id : String) (new : Session) (now : ℕ) (l : List Session)
    → any (λ s. s.session_id == id) (map (refresh_row new now) l) ≡ any (λ s. s.session_id == id) l
any-refreshed id new now [] = refl
any-refreshed id new now (s ∷ l) = ground (arith, any-refreshed id new now l)

registers :
    (o : Outside) (p : RuleParams) (db : Db)
    → (sessions : List Session) × (s : Session) × (register_session
          (self_registered p)
          o.draw.now
          (healthy db)
        ≡ (ok s, healthy (with_sessions db sessions)))
      × (any (λ s. s.session_id == p.session_id) sessions ≡ true)
unfolding register_session upsert_session get_session exec
registers o p db = (
  _,
  _,
  refl,
  elim (Bool-cases (any (λ s. s.session_id == p.session_id) db.sessions)) [
    | inl e ↦ rw e (
        any-refreshed p.session_id (with_default_state (self_registered p)) o.draw.now db.sessions
        ∙ e)
    | inr e ↦ rw e (
        any-append (λ s. s.session_id == p.session_id) db.sessions _
        ∙ ground (arith, eq_refl p.session_id))
  ],
)

pub ensured :
    (o : Outside) (p : RuleParams) (d : Daemon) (db : Db)
    → (sessions : List Session) × ((ensure_session o p (over d db)
          ≡ (ok tt, over d (with_sessions db sessions)))
        ⊎ ((e : String) × (ensure_session o p (over d db)
              ≡ (err e, over d (with_sessions db sessions)))))
unfolding ensure_session get_session exec
ensured o p d db = elim (Bool-cases (not (p.agent == "") && not (p.repo_path == ""))) [
  | inl e ↦ let (sessions, s, r, there) = registers o p db in (sessions, inl (rw (e, r) refl))
  | inr e ↦ elim (Option-cases (find_session p.session_id db.sessions)) [
    | inl n ↦ (
      db.sessions,
      inr (
        str_append "rule.add: unknown session "
            (str_append (o.quote p.session_id) " (register it or pass agent+repoPath)"),
        rw (e, n) refl,
      ),
    )
    | inr (s, f) ↦ (db.sessions, inl (rw (e, f) refl))
  ]
]

-- The rule that the request asks for, as it is stored.
abbrev pub asked_rule : Outside → RuleParams → Option ℕ → Rule
asked_rule o p expires = prepared (rule_of p expires) o.draw.now o.new_id

-- A rule.add on a healthy connection adds the row of its rule, or no row.
abbrev pub Settled : Outside → RuleParams → Daemon → Db → Result Reply × Daemon → Type 0
Settled o p d db out =
    (sessions : List Session) × (((e : String) × (out
          ≡ (err e, over d (with_sessions db sessions))))
      ⊎ ((expires : Option ℕ) × (any (λ r. r.id == (asked_rule o p expires).id) db.rules ≡ false)
          × (out ≡ (
            ok (rule_reply (asked_rule o p expires)),
            over d (
                with_rules (with_sessions db sessions)
                  (db.rules ++ rule_row (asked_rule o p expires) ∷ [])),
          ))))

checked-Settled :
    (o : Outside) (p : RuleParams) (d : Daemon) (db : Db) (expires : Option ℕ)
    → Settled o p d db (add_checked o p (ok expires) (over d db))
unfolding add_checked add_rule insert_rule exec
checked-Settled o p d db expires =
    let (sessions, made) = ensured o p d db in
    elim made [
      | inr (e, h) ↦ (sessions, inl (e, rw h refl))
      | inl h ↦ elim (Bool-cases (any (λ r. r.id == (asked_rule o p expires).id) db.rules)) [
        | inl clash ↦ (sessions, inl (constraint_failed, unfold rule_row in rw (h, clash) refl))
        | inr new ↦ (sessions, inr (expires, new, unfold rule_row in rw (h, new) refl))
      ]
    ]

pub added-Settled :
    (o : Outside) (p : RuleParams) (d : Daemon) (db : Db)
    → Settled o p d db (rule_add o p (over d db))
unfolding rule_add
added-Settled o p d db =
    elim (Bool-cases (p.type == "" || (p.session_id == "" || p.prompt == ""))) [
      | inl missing ↦
          (db.sessions, inl ("rule.add: type, sessionId and prompt are required", rw missing refl))
      | inr given ↦ elim (Option-cases (validate_prompt_template o.draw.templates p.prompt)) [
        | inr (x, bad) ↦ (
          db.sessions,
          inl (str_append "rule.add: bad prompt template: " x, rw (given, bad) refl),
        )
        | inl parsed ↦ elim (Result-cases (parse_expiry o p.expires_at)) [
          | inl (x, bad) ↦
              (db.sessions, inl (x, unfold add_checked in rw (given, parsed, bad) refl))
          | inr (t, good) ↦ rw (given, parsed, good) (checked-Settled o p d db t)
        ]
      ]
    ]

-- A request whose parts are all there, of an id that no rule has, adds its row and registers its
-- session.
pub added_ok :
    (o : Outside) (p : RuleParams) (d : Daemon) (db : Db)
    → (p.type == "") ≡ false
    → (p.session_id == "") ≡ false
    → (p.prompt == "") ≡ false
    → validate_prompt_template o.draw.templates p.prompt ≡ none
    → (p.expires_at == "") ≡ true
    → (p.agent == "") ≡ false
    → (p.repo_path == "") ≡ false
    → any (λ r. r.id == (asked_rule o p none).id) db.rules ≡ false
    → (sessions : List Session) × (any (λ s. s.session_id == p.session_id) sessions ≡ true)
      × (rule_add o p (over d db) ≡ (
        ok (rule_reply (asked_rule o p none)),
        over d (
            with_rules
              (with_sessions db sessions)
              (db.rules ++ rule_row (asked_rule o p none) ∷ [])),
      ))
unfolding rule_add parse_expiry add_checked ensure_session add_rule insert_rule exec rule_row
added_ok o p d db ht hs hp template he ha hr new =
    let (sessions, s, r, there) = registers o p db in
    (sessions, there, rw (ht, hs, hp, template, he, ha, hr, r, new) refl)
