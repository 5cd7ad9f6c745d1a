-- ===== src/Store/Watches.antt =====
-- store/watches.go: the persisted watches.
use runtime_pulse.Prelude.{
  ℕ, String, Bool, true, false, ◌&&◌, ◌||◌, Option, none, some, List, [], ◌∷◌, ◌++◌, not, Result,
  ok, err, ltb, any, filter, head?, ◌==◌, if◌then◌else◌,
}
use runtime_pulse.Prelude.Order.{str_leb, sort_by}
use runtime_pulse.Watch.{Config, Watch}
use runtime_pulse.Store.Tables.{WatchRow, Statement}
use runtime_pulse.Store.Sql.{Sql, exec, lift, ◌>>=◌, ◌>>◌}

-- encoding/json on a watch.Config.
pub record ConfigCodec : Type 0 where
  pub marshal : Config → Result String
  pub unmarshal : String → Result Config

abbrev pub same_watch : String → String → WatchRow → Bool
same_watch type target r = r.type == type && r.target == target

-- INSERT OR IGNORE INTO watches
unfoldable pub insert_watch : WatchRow → Statement (Unit {0})
insert_watch w db = ok (
  tt,
  if any (λ r. r.id == w.id || same_watch w.type w.target r) db.watches
      then db
      else record db { watches = db.watches ++ w ∷ [] },
)

abbrev pub watch_of : WatchRow → Result Config → Result Watch
watch_of r (ok config) = ok (record {
  id = r.id;
  type = r.type;
  target = r.target;
  config = config;
  created_at = r.created_at;
})
watch_of r (err e) = err e

-- scanWatch, on the row that a query found, if any.
unfoldable pub scan_watch : ConfigCodec → Option WatchRow → Result Watch
scan_watch codec none = err "sql: no rows in result set"
scan_watch codec (some r) = watch_of r (codec.unmarshal r.config)

unfoldable pub find_watch : String → String → List WatchRow → Option WatchRow
find_watch type target l = head? (filter (same_watch type target) l)

-- AddWatch; `new_id` is what core.NewID("watch") returns.
unfoldable pub add_watch : ConfigCodec → Watch → ℕ → String → Sql Watch
add_watch codec w now new_id = do
  config ← lift (codec.marshal w.config)
  exec (
      insert_watch (record {
        id = if w.id == "" then new_id else w.id;
        type = w.type;
        target = w.target;
        config = config;
        created_at = now;
      }))
  row ← exec (λ db. ok (find_watch w.type w.target db.watches, db))
  lift (scan_watch codec row)

-- ORDER BY created_at, id
unfoldable pub watch_leb : WatchRow → WatchRow → Bool
watch_leb a b =
    if ltb a.created_at b.created_at
    then true
    else if ltb b.created_at a.created_at
    then false
    else str_leb a.id b.id

abbrev pub cons_watch : Result Watch → Result (List Watch) → Result (List Watch)
cons_watch (ok w) (ok ws) = ok (w ∷ ws)
cons_watch (ok w) (err e) = err e
cons_watch (err e) ws = err e

-- The rows.Next loop: the first row that does not scan ends it.
unfoldable pub scan_watches : ConfigCodec → List WatchRow → Result (List Watch)
scan_watches codec [] = ok []
scan_watches codec (r ∷ rs) =
    let rest = scan_watches codec rs in cons_watch (scan_watch codec (some r)) rest

-- ListWatches
unfoldable pub list_watches : ConfigCodec → Sql (List Watch)
list_watches codec = do
  rows ← exec (λ db. ok (sort_by watch_leb db.watches, db))
  lift (scan_watches codec rows)

unfoldable pub delete_watch : String → Statement (Unit {0})
delete_watch id db = ok (tt, record db { watches = filter (λ r. not (r.id == id)) db.watches })

-- RemoveWatch
unfoldable pub remove_watch : String → Sql (Unit {0})
remove_watch id = exec (delete_watch id)
