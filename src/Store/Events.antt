-- ===== src/Store/Events.antt =====
-- store/events.go: reading and pruning the event log. The insertion is in Store/Ingest.
use runtime_pulse.Prelude.{
  ℕ, ℤ, pos, negsuc, zero, suc, String, Bool, true, false, List, [], ◌∷◌, not, Result, ok, err, ltb,
  length, take, filter, ◌==◌, if◌then◌else◌,
}
use runtime_pulse.Prelude.Order.{str_leb, sort_by}
use runtime_pulse.Core.{Event}
use runtime_pulse.Store.Tables.{EventRow, PayloadCodec, Statement}
use runtime_pulse.Store.Sql.{Sql, exec, lift, ◌>>=◌}

-- A limit of 0 or less means 100.
abbrev pub effective_limit : ℤ → ℕ
effective_limit (pos zero) = 100
effective_limit (pos (suc n)) = suc n
effective_limit (negsuc n) = 100

-- ORDER BY created_at DESC, id DESC
unfoldable pub newest_first : EventRow → EventRow → Bool
newest_first a b =
    if ltb b.created_at a.created_at
    then true
    else if ltb a.created_at b.created_at
    then false
    else str_leb b.id a.id

unfoldable pub latest_events : String → ℤ → List EventRow → List EventRow
latest_events type limit l =
    take (effective_limit limit)
      (sort_by newest_first (filter (λ r. if type == "" then true else r.type == type) l))

abbrev pub decoded :
    EventRow → Result (List (String × String)) → Result (List Event) → Result (List Event)
decoded r (ok payload) (ok rest) = ok (
    record {
      id = r.id;
      type = r.type;
      source = r.source;
      payload = payload;
      timestamp = r.created_at;
    }
    ∷ rest)
decoded r (ok payload) (err e) = err e
decoded r (err e) rest = err e

-- The rows.Next loop: the first payload that does not decode ends it.
unfoldable pub decode_events : PayloadCodec → List EventRow → Result (List Event)
decode_events codec [] = ok []
decode_events codec (r ∷ rs) =
    let rest = decode_events codec rs in decoded r (codec.unmarshal r.payload) rest

-- ListEvents
unfoldable pub list_events : PayloadCodec → String → ℤ → Sql (List Event)
list_events codec type limit = do
  rows ← exec (λ db. ok (latest_events type limit db.events, db))
  lift (decode_events codec rows)

-- DELETE FROM events WHERE created_at < ?
unfoldable pub delete_old_events : ℕ → Statement ℕ
delete_old_events before db = ok (
  length (filter (λ r. ltb r.created_at before) db.events),
  record db { events = filter (λ r. not (ltb r.created_at before)) db.events },
)

-- PruneEvents
unfoldable pub prune_events : ℕ → Sql ℕ
prune_events before = exec (delete_old_events before)
