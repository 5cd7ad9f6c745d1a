-- ===== src/Store/Continuations.antt =====
-- store/continuations.go, and ListContinuations of store/ingest.go.
pub mod Claim
pub mod Fifo
pub mod Recovery
use runtime_pulse.Prelude.{
  ℕ, ℤ, String, Bool, true, false, ◌&&◌, Option, none, List, [], ◌∷◌, ◌++◌, map, not, any, ok, err,
  ltb, nat_eq, length, filter, head?, ◌==◌, if◌then◌else◌,
}
use runtime_pulse.Prelude.Order.{str_leb, sort_by}
use runtime_pulse.Core.{Continuation, ContinuationState, pending, running, state_text}
use runtime_pulse.Store.Tables.{Statement}
use runtime_pulse.Store.Sql.{Sql, exec, ◌>>=◌, ◌>>◌, pure}
use runtime_pulse.Store.Ingest.{clashes}

-- What the SQL driver says of a row that a UNIQUE constraint refuses.
abbrev pub constraint_failed : String
constraint_failed = "constraint failed"

abbrev pub is_pending : ContinuationState → Bool
is_pending pending = true
is_pending _ = false

abbrev pub is_running : ContinuationState → Bool
is_running running = true
is_running _ = false

-- WHERE id = ? AND state = 'pending'
abbrev pub claimable : String → Continuation → Bool
claimable id c = c.id == id && is_pending c.state

abbrev pub claim_row : String → ℕ → Continuation → Continuation
claim_row id now c = if claimable id c then record c { state = running; updated_at = now } else c

unfoldable pub claim_rows : String → ℕ → Statement ℕ
claim_rows id now db = ok (
  length (filter (claimable id) db.continuations),
  record db { continuations = map (claim_row id now) db.continuations },
)

-- ClaimContinuation
unfoldable pub claim_continuation : String → ℕ → Sql Bool
claim_continuation id now = do n ← exec (claim_rows id now); pure (nat_eq n 1)

-- A finished run, as UpdateContinuationResult records it.
pub record Verdict : Type 0 where
  pub state : ContinuationState
  pub command : String
  pub exit_code : Option ℤ
  pub output_summary : String

abbrev pub result_row : String → Verdict → ℕ → Continuation → Continuation
result_row id v now c =
    if c.id == id
    then record c {
      state = v.state;
      command = v.command;
      exit_code = v.exit_code;
      output_summary = v.output_summary;
      updated_at = now;
    }
    else c

unfoldable pub set_result : String → Verdict → ℕ → Statement (Unit {0})
set_result id v now db =
    ok (tt, record db { continuations = map (result_row id v now) db.continuations })

-- UpdateContinuationResult
unfoldable pub update_continuation_result : String → Verdict → ℕ → Sql (Unit {0})
update_continuation_result id v now = exec (set_result id v now)

abbrev pub reset_row : ℕ → Continuation → Continuation
reset_row now c = if is_running c.state then record c { state = pending; updated_at = now } else c

unfoldable pub reset_rows : ℕ → Statement ℕ
reset_rows now db = ok (
  length (filter (λ c. is_running c.state) db.continuations),
  record db { continuations = map (reset_row now) db.continuations },
)

-- ResetRunningContinuations
unfoldable pub reset_running_continuations : ℕ → Sql ℕ
reset_running_continuations now = exec (reset_rows now)

-- SELECT DISTINCT
unfoldable pub distinct : List String → List String
distinct [] = []
distinct (s ∷ l) = s ∷ filter (λ t. not (t == s)) (distinct l)

unfoldable pub sessions_with_work : List Continuation → List String
unfolding distinct
sessions_with_work l =
    sort_by str_leb (distinct (map (λ c. c.session_id) (filter (λ c. is_pending c.state) l)))

-- PendingSessions
unfoldable pub pending_sessions : Sql (List String)
pending_sessions = exec (λ db. ok (sessions_with_work db.continuations, db))

-- ORDER BY created_at, id
unfoldable pub fifo_leb : Continuation → Continuation → Bool
fifo_leb a b =
    if ltb a.created_at b.created_at
    then true
    else if ltb b.created_at a.created_at
    then false
    else str_leb a.id b.id

-- WHERE session_id = ? AND state = 'pending'
abbrev pub waits_in : String → Continuation → Bool
waits_in session_id c = c.session_id == session_id && is_pending c.state

unfoldable pub oldest_pending : String → List Continuation → Option Continuation
oldest_pending session_id l = head? (sort_by fifo_leb (filter (waits_in session_id) l))

-- NextPendingForSession; sql.ErrNoRows is `none`.
unfoldable pub next_pending_for_session : String → Sql (Option Continuation)
next_pending_for_session session_id =
    exec (λ db. ok (oldest_pending session_id db.continuations, db))

-- The continuation of InsertManualContinuation, with the three ids that core.NewID returns.
abbrev pub manual_continuation : String → String → ℕ → String → String → String → Continuation
manual_continuation session_id prompt now id rule_id event_id = record {
  id = id;
  rule_id = rule_id;
  event_id = event_id;
  session_id = session_id;
  prompt = prompt;
  label = "manual";
  state = pending;
  command = "";
  exit_code = none;
  output_summary = "";
  created_at = now;
  updated_at = now;
}

-- INSERT INTO continuations
unfoldable pub add_continuation : Continuation → Statement (Unit {0})
add_continuation c db =
    if any (clashes c) db.continuations
    then err constraint_failed
    else ok (tt, record db { continuations = db.continuations ++ c ∷ [] })

-- InsertManualContinuation
unfoldable pub insert_manual_continuation :
    String → String → ℕ → String → String → String → Sql Continuation
insert_manual_continuation session_id prompt now id rule_id event_id = do
  let c = manual_continuation session_id prompt now id rule_id event_id
  exec (add_continuation c)
  pure c

-- ListContinuations; the empty text asks for all states.
unfoldable pub list_continuations : String → Sql (List Continuation)
list_continuations state = exec (λ db. ok (
  sort_by fifo_leb
      (filter (λ c. if state == "" then true else state_text c.state == state) db.continuations),
  db,
))
