-- ===== src/Store/Retention/Sweep.antt =====
-- store/retention.go: the rows that a sweep removes, and those that stay.
use runtime_pulse.Prelude.{
  ℕ, ◌+◌, ◌-◌, ◌≤◌, String, ◌≡◌, ◌↔◌, ◌⊎◌, refl, Bool, true, false, not, ◌&&◌, List, length, filter,
  In, All, All-In, In-filter, any-In, In-of_any, length-filter-not, ok, along_ok, ltb, ◌==◌, eq_iff,
  arith, inl, inr, Bool-cases,
}
use runtime_pulse.Core.{Session, Continuation, session_running, active}
use runtime_pulse.Store.Tables.{Db, RuleRow, EventRow, scan_rule}
use runtime_pulse.Store.Sql.{exec, transaction, finish, run}
use runtime_pulse.Store.Sql.Faults.{IsAtomic, transaction-IsAtomic, agrees_rules}
use runtime_pulse.Store.Ingest.{unexpired}
use runtime_pulse.Store.Ingest.Selection.{IsFlagged}
use runtime_pulse.Store.Events.{delete_old_events}
use runtime_pulse.Store.Rules.{armed}
use runtime_pulse.Store.Retention.{
  RetentionPolicy, SweepResult, referenced, session_expired, delete_idle_sessions, is_terminal,
  continuation_expired, delete_old_continuations, sweep,
}

-- The SQL's idea of an armed rule is that of Rule.Active.
armed-active : (now : ℕ) (r : RuleRow) → IsFlagged r → armed now r ≡ active (scan_rule r) now
unfolding armed unexpired active scan_rule
armed-active now r f = ground arith

-- A session that is armed: an active rule of the table names it.
abbrev pub IsArmed : ℕ → List RuleRow → String → Type 0
IsArmed now rules id =
    (row : RuleRow) × In row rules × (active (scan_rule row) now ≡ true) × (row.session_id ≡ id)

referenced_iff :
    (now : ℕ) (rules : List RuleRow) (id : String)
    → All IsFlagged rules
    → (referenced now rules id ≡ true) ↔ IsArmed now rules id
unfolding referenced
referenced_iff now rules id f = (
  λ h.
      let (row, i, e) = In-of_any (λ r. armed now r && r.session_id == id) rules h in
      (
        row,
        i,
        ground (arith, armed-active now row (All-In IsFlagged row rules f i)),
        ground (arith, eq_iff row.session_id id),
      ),
  λ (row, i, a, e).
      any-In (λ r. armed now r && r.session_id == id) row rules i
        (ground
          (arith, armed-active now row (All-In IsFlagged row rules f i), eq_iff row.session_id id)),
)

-- Why a session stays.
abbrev pub SessionStays : ℕ → RetentionPolicy → List RuleRow → Session → Type 0
SessionStays now p rules s =
    (now - p.session_idle ≤ s.updated_at)
    ⊎ ((s.state ≡ session_running) ⊎ IsArmed now rules s.session_id)

SessionStays-iff :
    (now : ℕ) (p : RetentionPolicy) (rules : List RuleRow) (s : Session)
    → All IsFlagged rules
    → (not (session_expired now (now - p.session_idle) rules s) ≡ true) ↔ SessionStays now p rules s
unfolding session_expired
SessionStays-iff now p rules s f = (
  λ h. elim (Bool-cases (ltb s.updated_at (now - p.session_idle))) [
    | inr recent ↦ inl (ground arith)
    | inl idle ↦ elim (Bool-cases (s.state == session_running)) [
      | inl busy ↦ inr (inl ((eq_iff s.state session_running).0 busy))
      | inr resting ↦ inr (inr ((referenced_iff now rules s.session_id f).0 (ground arith)))
    ]
  ],
  λ h. elim h [
    | inl recent ↦ ground arith
    | inr (inl busy) ↦ ground (arith, eq_iff s.state session_running)
    | inr (inr a) ↦ let named = (referenced_iff now rules s.session_id f).1 a in ground arith
  ],
)

-- Why a continuation stays: it is unfinished, or recent.
abbrev pub ContinuationStays : ℕ → RetentionPolicy → Continuation → Type 0
ContinuationStays now p c =
    (is_terminal c.state ≡ false) ⊎ (now - p.continuation_age ≤ c.updated_at)

ContinuationStays-iff :
    (before : ℕ) (c : Continuation)
    → (not (continuation_expired before c) ≡ true)
      ↔ ((is_terminal c.state ≡ false) ⊎ (before ≤ c.updated_at))
ContinuationStays-iff before c = (
  λ h. elim (Bool-cases (is_terminal c.state)) [
    | inr live ↦ inl live
    | inl over ↦ inr (ground arith)
  ],
  λ h. elim h [ inl live ↦ ground arith | inr recent ↦ ground arith ],
)

event_stays_iff :
    (before : ℕ) (e : EventRow) → (not (ltb e.created_at before) ≡ true) ↔ (before ≤ e.created_at)
event_stays_iff before e = ground arith

-- The contract of a sweep that reports `res` and leaves `db'`.
pub record Swept (now : ℕ) (p : RetentionPolicy) (db : Db) (res : SweepResult) (db' : Db)
    : Type 0 where
  pub sessions :
      (s : Session) → In s db'.sessions ↔ (In s db.sessions × SessionStays now p db.rules s)
  pub continuations :
      (c : Continuation)
      → In c db'.continuations ↔ (In c db.continuations × ContinuationStays now p c)
  pub events :
      (e : EventRow) → In e db'.events ↔ (In e db.events × (now - p.event_age ≤ e.created_at))
  pub rules : db'.rules ≡ db.rules
  pub watches : db'.watches ≡ db.watches
  pub counted :
      (res.sessions + length db'.sessions ≡ length db.sessions)
      × (res.continuations + length db'.continuations ≡ length db.continuations)
      × (res.events + length db'.events ≡ length db.events)

filter_stays :
    {A : Type 0} (p : A → Bool) (P : A → Type 0) (a : A) (l : List A)
    → (p a ≡ true) ↔ P a
    → In a (filter p l) ↔ (In a l × P a)
filter_stays p P a l e =
    (λ h. let k = (In-filter p a l).0 h in (k.0, e.0 k.1), λ h. (In-filter p a l).1 (h.0, e.1 h.1))

module _ (now : ℕ) (p : RetentionPolicy) where
  abbrev pub swept : Db → Db
  swept db = record db {
    sessions =
        filter (λ s. not (session_expired now (now - p.session_idle) db.rules s)) db.sessions;
    continuations =
        filter (λ c. not (continuation_expired (now - p.continuation_age) c)) db.continuations;
    events = filter (λ e. not (ltb e.created_at (now - p.event_age))) db.events;
  }

  abbrev pub removed : Db → SweepResult
  removed db = record {
    sessions = length (filter (session_expired now (now - p.session_idle) db.rules) db.sessions);
    continuations =
        length (filter (continuation_expired (now - p.continuation_age)) db.continuations);
    events = length (filter (λ e. ltb e.created_at (now - p.event_age)) db.events);
  }

  swept-Swept : (db : Db) → All IsFlagged db.rules → Swept now p db (removed db) (swept db)
  swept-Swept db f = record {
    sessions = λ s.
        filter_stays _ (SessionStays now p db.rules) s db.sessions
          (SessionStays-iff now p db.rules s f);
    continuations = λ c.
        filter_stays _ (ContinuationStays now p) c db.continuations (ContinuationStays-iff _ c);
    events = λ e.
        filter_stays _ (λ e. now - p.event_age ≤ e.created_at) e db.events (event_stays_iff _ e);
    rules = refl;
    watches = refl;
    counted = (
      length-filter-not _ db.sessions,
      length-filter-not _ db.continuations,
      length-filter-not _ db.events,
    );
  }

  pub run-sweep : (db : Db) → run (sweep now p) db ≡ ok (removed db, swept db)
  unfolding sweep transaction exec finish delete_idle_sessions delete_old_continuations
      delete_old_events
  run-sweep db = refl

  -- A sweep removes exactly the sessions that are idle past the window, are not running and are
  -- named by no active rule; the completed and failed continuations past theirs; and the events
  -- past theirs. Pending and running continuations, rules and watches stay, and the counts are
  -- those of the rows that went. The flags of the rules are supposed to be 0 or 1.
  pub sweep-Swept :
      (db db' : Db) (res : SweepResult)
      → All IsFlagged db.rules
      → run (sweep now p) db ≡ ok (res, db')
      → Swept now p db res db'
  sweep-Swept db db' res f h = along_ok (Swept now p db) (rw (run-sweep db) at h) (swept-Swept db f)

  -- Whatever statements fail, a sweep either returns an error and leaves every table as it was, or
  -- returns what it would return, and leaves what it would leave, if none had failed.
  pub sweep-IsAtomic : IsAtomic (sweep now p)
  unfolding sweep
  sweep-IsAtomic = transaction-IsAtomic _ (search agrees_rules)
