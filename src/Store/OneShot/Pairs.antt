-- ===== src/Store/OneShot/Pairs.antt =====
-- The UNIQUE constraint on the rule and the event of a continuation, over a history.
use runtime_pulse.Prelude.{
  ℕ, ◌≤◌, String, ◌≡◌, refl, ◌⊎◌, Bool, true, false, ◌&&◌, ◌++◌, [], ◌∷◌, List, any, any-append,
  map, length, filter, ok, along_ok, ◌==◌, eq_iff, arith, inl, inr, Bool-cases,
}
use runtime_pulse.Core.{Event, Rule, Continuation, TemplateEngine}
use runtime_pulse.Store.Tables.{Db, PayloadCodec, rule_row}
use runtime_pulse.Store.Sql.{exec, run}
use runtime_pulse.Store.Ingest.{IngestResult, ingest, clashes}
use runtime_pulse.Store.Ingest.Loop.{of_pair, any-clashes}
use runtime_pulse.Store.Ingest.Outbox.{ingest_appends}
use runtime_pulse.Store.Continuations.{
  claim_row, claim_rows, claim_continuation, result_row, set_result, update_continuation_result,
  reset_row, reset_rows, reset_running_continuations, manual_continuation, add_continuation,
  insert_manual_continuation,
}
use runtime_pulse.Store.Sessions.{upsert_session, set_state, set_session_state}
use runtime_pulse.Store.Rules.{prepared, insert_rule, add_rule, delete_rule, remove_rule}
use runtime_pulse.Store.Watches.{insert_watch, delete_watch, remove_watch}
use runtime_pulse.Store.OneShot.{NoClash, filter_none}
use runtime_pulse.Store.OneShot.Rows.{KeepsNames}
use runtime_pulse.Store.OneShot.History.{
  Step, ingested, claimed, finished, recovered, asked, armed, disarmed, swept_by, registered,
  marked, watched, unwatched, History, next, History-WellFormed,
}

-- The continuation of an id is of the pair.
abbrev pub is_row : String → String → String → Continuation → Bool
is_row id rule_id event_id c = c.id == id && of_pair rule_id event_id c

unfoldable pub is_sweep : {db db' : Db} → Step db db' → Bool
is_sweep (swept_by now p l) = true
is_sweep _ = false

module _ (id rule_id event_id : String) where
  abbrev pub HasRow : Db → Type 0
  HasRow db = any (is_row id rule_id event_id) db.continuations ≡ true

  -- What may follow: any operations that succeed, but for a sweep that deletes the continuation.
  pub data Later (db : Db) : Db → Type 0 where
    still : Later db db
    later :
        {t u : Db} (l : Later db t) (s : Step t u) → (is_sweep s ≡ false) ⊎ HasRow u → Later db u

  append-HasRow :
      (l more : List Continuation)
      → any (is_row id rule_id event_id) l ≡ true
      → any (is_row id rule_id event_id) (l ++ more) ≡ true
  append-HasRow l more h = rw (any-append (is_row id rule_id event_id) l more, h) refl

  map-HasRow :
      (f : Continuation → Continuation) (l : List Continuation)
      → KeepsNames f
      → any (is_row id rule_id event_id) l ≡ true
      → any (is_row id rule_id event_id) (map f l) ≡ true
  map-HasRow f [] k h = h
  map-HasRow f (c ∷ l) k h = ground (arith, map-HasRow f l k, k c)

  ingested-HasRow :
      (t : TemplateEngine) (codec : PayloadCodec) (ev : Event) (now : ℕ) (ids : ℕ → String)
      (res : IngestResult) (db db' : Db)
      → run (ingest t codec ev now ids) db ≡ ok (res, db')
      → HasRow db
      → HasRow db'
  ingested-HasRow t codec ev now ids res db db' h had =
      rw (ingest_appends t codec ev now ids db res db' h).0
        (append-HasRow db.continuations res.continuations had)

  asked-HasRow :
      (db db' : Db) (session_id prompt : String) (now : ℕ) (new_id new_rule new_event : String)
      (c : Continuation)
      → run (insert_manual_continuation session_id prompt now new_id new_rule new_event) db
        ≡ ok (c, db')
      → HasRow db
      → HasRow db'
  unfolding insert_manual_continuation add_continuation exec
  asked-HasRow db db' session_id prompt now new_id new_rule new_event c h had =
      let new = manual_continuation session_id prompt now new_id new_rule new_event in
      elim (Bool-cases (any (clashes new) db.continuations)) [
        | inl e ↦ absurd (cc (rw e at h))
        | inr e ↦
            along_ok (λ _ d. HasRow d) (rw e at h) (append-HasRow db.continuations (new ∷ []) had)
      ]

  armed-HasRow :
      (db db' : Db) (r : Rule) (now : ℕ) (new_id : String) (made : Rule)
      → run (add_rule r now new_id) db ≡ ok (made, db')
      → HasRow db
      → HasRow db'
  unfolding add_rule insert_rule exec rule_row
  armed-HasRow db db' r now new_id made h had =
      elim (Bool-cases (any (λ s. s.id == (prepared r now new_id).id) db.rules)) [
        | inl e ↦ absurd (cc (rw e at h))
        | inr e ↦ along_ok (λ _ d. HasRow d) (rw e at h) had
      ]

  Step-HasRow : {db db' : Db} (s : Step db db') → is_sweep s ≡ false → HasRow db → HasRow db'
  unfolding is_sweep claim_continuation claim_rows update_continuation_result set_result
      reset_running_continuations reset_rows exec set_session_state set_state upsert_session
      insert_watch remove_watch delete_watch remove_rule delete_rule
  Step-HasRow {db} {db'} (ingested t codec ev now ids (res, h)) kept had =
      ingested-HasRow t codec ev now ids res db db' h had
  Step-HasRow {db} (claimed c now (b, h)) kept had =
      along_ok (λ _ d. HasRow d) h
        (map-HasRow (claim_row c now) db.continuations (λ c. ground arith) had)
  Step-HasRow {db} (finished c v now (b, h)) kept had =
      along_ok (λ _ d. HasRow d) h
        (map-HasRow (result_row c v now) db.continuations (λ c. ground arith) had)
  Step-HasRow {db} (recovered now (n, h)) kept had =
      along_ok (λ _ d. HasRow d) h
        (map-HasRow (reset_row now) db.continuations (λ c. ground arith) had)
  Step-HasRow {db} {db'} (asked session_id prompt now new_id new_rule new_event ruleless (c, h))
        kept had =
      asked-HasRow db db' session_id prompt now new_id new_rule new_event c h had
  Step-HasRow {db} {db'} (armed r now new_id unused (made, h)) kept had =
      armed-HasRow db db' r now new_id made h had
  Step-HasRow (disarmed c (u, h)) kept had = along_ok (λ _ d. HasRow d) h had
  Step-HasRow (swept_by now p l) kept had = absurd (cc kept)
  Step-HasRow (registered s now (u, h)) kept had = along_ok (λ _ d. HasRow d) h had
  Step-HasRow (marked c st now (u, h)) kept had = along_ok (λ _ d. HasRow d) h had
  Step-HasRow {db} (watched x (u, h)) kept had = along_ok (λ _ d. HasRow d) h (ground arith)
  Step-HasRow (unwatched c (u, h)) kept had = along_ok (λ _ d. HasRow d) h had

  Later-HasRow : {db db' : Db} → Later db db' → HasRow db → HasRow db'
  Later-HasRow still h = h
  Later-HasRow (later l s (inl kept)) h = Step-HasRow s kept (Later-HasRow l h)
  Later-HasRow (later l s (inr spared)) h = spared

  Later-History : {db db' : Db} → Later db db' → History db → History db'
  Later-History still h = h
  Later-History (later l s k) h = next (Later-History l h) s

pair_once :
    (rule_id event_id : String) (l : List Continuation)
    → NoClash l
    → length (filter (of_pair rule_id event_id) l) ≤ 1
unfolding clashes
pair_once rule_id event_id [] n = omega arith
pair_once rule_id event_id (c ∷ l) n = elim (Bool-cases (of_pair rule_id event_id c)) [
  | inl e ↦ rw e (
      omega (
        arith,
        filter_none (of_pair rule_id event_id) l (
            ground
              (arith, any-clashes c l, n.0, eq_iff c.rule_id rule_id, eq_iff c.event_id event_id)),
      ))
  | inr e ↦ rw e (pair_once rule_id event_id l n.1)
]

pair_there :
    (id rule_id event_id : String) (l : List Continuation)
    → any (is_row id rule_id event_id) l ≡ true
    → 1 ≤ length (filter (of_pair rule_id event_id) l)
pair_there id rule_id event_id [] h = absurd (cc h)
pair_there id rule_id event_id (c ∷ l) h = ground (arith, pair_there id rule_id event_id l)

-- Once an event has given a rule a continuation, it gives the rule no second one for as long as the
-- first is in the table: after whatever operations succeed from then on in a history of the tables,
-- the event again and sweeps that do not delete the continuation among them, it is there, under its
-- id, and no other continuation is of this rule and this event. The ids drawn for new rules and
-- manual continuations are supposed to be new.
pub pair_fires_once :
    (id rule_id event_id : String) (db db' : Db)
    → History db
    → HasRow id rule_id event_id db
    → Later id rule_id event_id db db'
    → HasRow id rule_id event_id db'
      × (length (filter (of_pair rule_id event_id) db'.continuations) ≡ 1)
pair_fires_once id rule_id event_id db db' h first l =
    let kept = Later-HasRow id rule_id event_id l first in
    let w = History-WellFormed (Later-History id rule_id event_id l h) in
    let most = pair_once rule_id event_id db'.continuations w.rows in
    let least = pair_there id rule_id event_id db'.continuations kept in
    (kept, omega (arith, most, least))
