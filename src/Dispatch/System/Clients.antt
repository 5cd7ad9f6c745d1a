-- ===== src/Dispatch/System/Clients.antt =====
-- What the clients of the store do to the continuations.
use runtime_pulse.Prelude.{
  ℕ, suc, ◌-◌, String, ◌≡◌, refl, true, false, not, List, [], ◌∷◌, ◌++◌, any, filter, ◌==◌, All,
  All-In, All-append, In, In-append, In-append_left, In-filter, ok, along_ok, arith, inl, inr,
  Bool-cases, Result-cases,
}
use runtime_pulse.Core.{Event, Rule, Continuation, TemplateEngine, render_prompt}
use runtime_pulse.Store.Tables.{Db, PayloadCodec}
use runtime_pulse.Store.Sql.{exec, run}
use runtime_pulse.Store.Ingest.{IngestResult, ingest, new_continuation, fill_prompt, clashes}
use runtime_pulse.Store.Ingest.Run.{after_rule, loop_made, ingest_ok, matched, loop_start}
use runtime_pulse.Store.Ingest.Outbox.{ingest_appends}
use runtime_pulse.Store.Continuations.{
  is_running, manual_continuation, add_continuation, insert_manual_continuation,
}
use runtime_pulse.Store.Rules.{add_rule, insert_rule, prepared, remove_rule, delete_rule}
use runtime_pulse.Store.Tables.{rule_row}
use runtime_pulse.Store.Sessions.{upsert_session, set_session_state, set_state}
use runtime_pulse.Store.Watches.{insert_watch, remove_watch, delete_watch}
use runtime_pulse.Store.Retention.{is_terminal, continuation_expired}
use runtime_pulse.Store.Retention.Sweep.{run-sweep}
use runtime_pulse.Store.OneShot.History.{
  Step, ingested, claimed, finished, recovered, asked, armed, disarmed, swept_by, registered,
  marked, watched, unwatched,
}
use runtime_pulse.Dispatch.System.{by_client}

-- Unfinished rows stay, and no row that runs is new.
pub record Tended (l l' : List Continuation) : Type 0 where
  pub kept : (c : Continuation) → In c l → is_terminal c.state ≡ false → In c l'
  pub old : (c : Continuation) → In c l' → is_running c.state ≡ true → In c l

Tended-same : (l l' : List Continuation) → l' ≡ l → Tended l l'
Tended-same l l' e = record { kept = λ c i t. rw e i; old = λ c i r. rw e at i }

Tended-append :
    (l more : List Continuation) → All (λ c. is_running c.state ≡ false) more → Tended l (l ++ more)
Tended-append l more h = record {
  kept = λ c i t. In-append_left c l more i;
  old = λ c i r. elim (In-append c l more i) [
    | inl j ↦ j
    | inr j ↦ absurd (cc (All-In (λ c. is_running c.state ≡ false) c more h j, r))
  ];
}

Tended-filter :
    (before : ℕ) (l : List Continuation)
    → Tended l (filter (λ c. not (continuation_expired before c)) l)
Tended-filter before l = record {
  kept = λ c i t. (In-filter (λ c. not (continuation_expired before c)) c l).1 (i, ground arith);
  old = λ c i r. ((In-filter (λ c. not (continuation_expired before c)) c l).0 i).0;
}

module _ (t : TemplateEngine) (ev : Event) (now : ℕ) where
  new_continuation-idle :
      (id : String) (r : Rule) → is_running (new_continuation t ev now id r).state ≡ false
  unfolding new_continuation fill_prompt
  new_continuation-idle id r = elim (Result-cases (render_prompt t r ev)) [
    | inl (e, q) ↦ rw q
    | inr (x, q) ↦ rw q
  ]

  loop_made-idle :
      (ids : ℕ → String) (rs : List Rule) (db : Db)
      → All (λ c. is_running c.state ≡ false) (loop_made t ev now ids rs db)
  unfolding loop_made
  loop_made-idle ids [] db = tt
  loop_made-idle ids (r ∷ rs) db =
      let c = new_continuation t ev now (ids 0) r in
      All-append (λ c. is_running c.state ≡ false) _ _
        (elim (Bool-cases (any (clashes c) db.continuations)) [
          | inl e ↦ rw e tt
          | inr e ↦ rw e (new_continuation-idle (ids 0) r, tt)
        ])
        (loop_made-idle (λ n. ids (suc n)) rs (after_rule r c db))

ingested-Tended :
    (t : TemplateEngine) (codec : PayloadCodec) (ev : Event) (now : ℕ) (ids : ℕ → String)
    (res : IngestResult) (db db' : Db)
    → run (ingest t codec ev now ids) db ≡ ok (res, db')
    → Tended db.continuations db'.continuations
ingested-Tended t codec ev now ids res db db' h =
    let (payload, has_id, encoded, er, ed) = ingest_ok t codec ev now ids db res db' h in
    let (added, same) = ingest_appends t codec ev now ids db res db' h in
    let start = loop_start t codec ev now ids payload db in
    rw (added, er)
      (Tended-append db.continuations _ (loop_made-idle t ev now ids (matched ev now db) start))

asked-Tended :
    (db db' : Db) (session_id prompt : String) (now : ℕ) (id rule_id event_id : String)
    (c : Continuation)
    → run (insert_manual_continuation session_id prompt now id rule_id event_id) db ≡ ok (c, db')
    → Tended db.continuations db'.continuations
unfolding insert_manual_continuation add_continuation exec
asked-Tended db db' session_id prompt now id rule_id event_id c h =
    let new = manual_continuation session_id prompt now id rule_id event_id in
    elim (Bool-cases (any (clashes new) db.continuations)) [
      | inl e ↦ absurd (cc (rw e at h))
      | inr e ↦
          along_ok (λ _ d. Tended db.continuations d.continuations) (rw e at h)
            (Tended-append db.continuations (new ∷ []) (refl, tt))
    ]

armed-Tended :
    (db db' : Db) (r : Rule) (now : ℕ) (new_id : String) (made : Rule)
    → run (add_rule r now new_id) db ≡ ok (made, db')
    → Tended db.continuations db'.continuations
unfolding add_rule insert_rule exec rule_row prepared
armed-Tended db db' r now new_id made h =
    elim (Bool-cases (any (λ s. s.id == (prepared r now new_id).id) db.rules)) [
      | inl e ↦ absurd (cc (rw e at h))
      | inr e ↦
          along_ok (λ _ d. Tended db.continuations d.continuations) (rw e at h)
            (Tended-same _ _ refl)
    ]

pub Step-Tended :
    {db db' : Db} (s : Step db db') → by_client s ≡ true → Tended db.continuations db'.continuations
unfolding by_client exec set_session_state set_state upsert_session insert_watch remove_watch
    delete_watch remove_rule delete_rule
Step-Tended {db} {db'} (ingested t codec ev now ids (res, h)) b =
    ingested-Tended t codec ev now ids res db db' h
Step-Tended (claimed id now l) b = absurd (cc b)
Step-Tended (finished id v now l) b = absurd (cc b)
Step-Tended (recovered now l) b = absurd (cc b)
Step-Tended {db} {db'} (asked session_id prompt now id rule_id event_id ruleless (c, h)) b =
    asked-Tended db db' session_id prompt now id rule_id event_id c h
Step-Tended {db} {db'} (armed r now new_id unused (made, h)) b =
    armed-Tended db db' r now new_id made h
Step-Tended {db} (disarmed id (u, h)) b =
    along_ok (λ _ d. Tended db.continuations d.continuations) h (Tended-same _ _ refl)
Step-Tended {db} (swept_by now p (res, h)) b =
    along_ok (λ _ d. Tended db.continuations d.continuations) (rw (run-sweep now p db) at h)
      (Tended-filter (now - p.continuation_age) db.continuations)
Step-Tended {db} (registered s now (u, h)) b =
    along_ok (λ _ d. Tended db.continuations d.continuations) h (Tended-same _ _ refl)
Step-Tended {db} (marked id st now (u, h)) b =
    along_ok (λ _ d. Tended db.continuations d.continuations) h (Tended-same _ _ refl)
Step-Tended {db} (watched w (u, h)) b =
    along_ok (λ _ d. Tended db.continuations d.continuations) h (Tended-same _ _ (ground arith))
Step-Tended {db} (unwatched id (u, h)) b =
    along_ok (λ _ d. Tended db.continuations d.continuations) h (Tended-same _ _ refl)
