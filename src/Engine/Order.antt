-- ===== src/Engine/Order.antt =====
-- internal/engine/engine.go: the transaction, the bus and the wake signal of an ingestion.
use runtime_pulse.Prelude.{
  String, [], ◌++◌, append_nil, Result-cases, inl, inr, ◌≡◌, refl, ap, Bool, true, false, ◌||◌, any,
  List, Result, ok, err, ◌==◌, arith,
}
use runtime_pulse.Core.{Event, Continuation}
use runtime_pulse.Bus.{Bus, publish}
use runtime_pulse.Store.Tables.{Db}
use runtime_pulse.Store.Sql.{Conn, run, outcome, healthy}
use runtime_pulse.Store.Ingest.{IngestResult, ingest}
use runtime_pulse.Store.Ingest.Run.{produced, ingested, ingest_run}
use runtime_pulse.Store.Ingest.Outbox.{ingest_records, ingest_appends}
use runtime_pulse.Store.Ingest.Atomic.{ingest-IsAtomic}
use runtime_pulse.Engine.{Engine, Draw, normalized, notify, has_work, engine_ingest}

-- What the engine leaves when its transaction returned `r`.
notify-ok :
    (e e' : Engine) (r : Result IngestResult) (c : Conn) (res : IngestResult)
    → notify e (r, c) ≡ (ok res, e')
    → (outcome (r, c) ≡ ok (res, e'.conn.db))
      × (e'.bus ≡ publish e.bus res.event)
      × (e'.awake ≡ (e.awake || has_work res.continuations))
unfolding notify
notify-ok e e' (ok res') c res h = ground arith
notify-ok e e' (err x) c res h = cc

notify-err :
    (e e' : Engine) (r : Result IngestResult) (c : Conn) (x : String)
    → notify e (r, c) ≡ (err x, e')
    → (r ≡ err x) × (e'.conn ≡ c) × (e'.bus ≡ e.bus) × (e'.awake ≡ e.awake)
unfolding notify
notify-err e e' (ok res) c x h = cc
notify-err e e' (err y) c x h = ground arith

-- An ingestion that succeeds has committed the event before anything else hears of it: the event
-- that the bus publishes is in the table, the tables are those of a transaction in which no
-- statement failed, each subscriber is offered the event once, and the dispatcher is woken exactly
-- if there are continuations, or was awake already.
pub durable_first :
    (d : Draw) (ev : Event) (e e' : Engine) (res : IngestResult)
    → engine_ingest d ev e ≡ (ok res, e')
    → (run (ingest d.templates d.codec (normalized d ev) d.now d.ids) e.conn.db
        ≡ ok (res, e'.conn.db))
      × (any (λ row. row.id == res.event.id) e'.conn.db.events ≡ true)
      × (e'.bus ≡ publish e.bus res.event)
      × (e'.awake ≡ (e.awake || has_work res.continuations))
unfolding engine_ingest
durable_first d ev e e' res h =
    let start = ingest d.templates d.codec (normalized d ev) d.now d.ids e.conn in
    let (left, bus, awake) = notify-ok e e' start.0 start.1 res h in
    let settled =
      (ingest-IsAtomic d.templates d.codec (normalized d ev) d.now d.ids).agrees.at e.conn res
        e'.conn.db left in
    let ran : run (ingest d.templates d.codec (normalized d ev) d.now d.ids) e.conn.db
        ≡ ok (res, e'.conn.db) =
      ap outcome settled in
    let (same, there) =
      ingest_records d.templates d.codec (normalized d ev) d.now d.ids e.conn.db res e'.conn.db
        ran in
    (ran, rw same there, bus, awake)

-- An ingestion that fails leaves the tables, the bus and the wake signal as they were.
pub failure_is_silent :
    (d : Draw) (ev : Event) (e e' : Engine) (x : String)
    → engine_ingest d ev e ≡ (err x, e')
    → (e'.conn.db ≡ e.conn.db) × (e'.bus ≡ e.bus) × (e'.awake ≡ e.awake)
unfolding engine_ingest
failure_is_silent d ev e e' x h =
    let start = ingest d.templates d.codec (normalized d ev) d.now d.ids e.conn in
    let (failed, conn, bus, awake) = notify-err e e' start.0 start.1 x h in
    (
      rw conn (
          (ingest-IsAtomic d.templates d.codec (normalized d ev) d.now d.ids).unchanged e.conn x
            failed),
      bus,
      awake,
    )

module _ (d : Draw) (ev : Event) (e : Engine) where
  -- Whatever the engine makes of an event, rows are only added to the continuations, and the
  -- sessions stay.
  pub engine_appends :
      let e' = (engine_ingest d ev e).1 in
      (more : List Continuation) × (e'.conn.db.continuations ≡ e.conn.db.continuations ++ more)
      × (e'.conn.db.sessions ≡ e.conn.db.sessions)
  engine_appends =
      let e' = (engine_ingest d ev e).1 in
      elim (Result-cases (engine_ingest d ev e).0) [
        | inl (x, h) ↦
            let same = (failure_is_silent d ev e e' x (ap (λ r. (r, e')) h)).0 in
            ([], rw (same, append_nil e.conn.db.continuations) refl, rw same refl)
        | inr (res, h) ↦
            let ran = (durable_first d ev e e' res (ap (λ r. (r, e')) h)).0 in
            let (added, sessions) =
              ingest_appends d.templates d.codec (normalized d ev) d.now d.ids e.conn.db res
                e'.conn.db ran in
            (res.continuations, added, sessions)
      ]

pub notified :
    (d : Draw) (ev : Event) (e : Engine) (r : Result IngestResult) (c : Conn)
    → ingest d.templates d.codec (normalized d ev) d.now d.ids e.conn ≡ (r, c)
    → engine_ingest d ev e ≡ notify e (r, c)
unfolding engine_ingest
notified d ev e r c h = ap (notify e) h

-- On a healthy connection an event with an id, or one that is given one, and with a payload that
-- can be encoded is recorded and published.
pub engine_delivers :
    (d : Draw) (ev : Event) (db : Db) (bus : Bus) (awake : Bool) (payload : String)
    → ((normalized d ev).id == "") ≡ false
    → d.codec.marshal (normalized d ev).payload ≡ ok payload
    → let e' = (engine_ingest d ev (record { conn = healthy db; bus = bus; awake = awake })).1 in
      (e'.bus ≡ publish bus (normalized d ev))
      × (any (λ row. row.id == (normalized d ev).id) e'.conn.db.events ≡ true)
engine_delivers d ev db bus awake payload has_id encoded =
    let e : Engine = record { conn = healthy db; bus = bus; awake = awake } in
    let n = normalized d ev in
    let res = produced d.templates d.codec n d.now d.ids payload db in
    let db' = ingested d.templates d.codec n d.now d.ids payload db in
    let ran = ingest_run d.templates d.codec n d.now d.ids payload db has_id encoded in
    let left = notified d ev e (ok res) (healthy db') ran in
    let (same, there) =
      ingest_records d.templates d.codec n d.now d.ids db res db' (ap outcome ran) in
    unfold notify in rw left (refl, there)
