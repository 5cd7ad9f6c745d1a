-- ===== src/Engine/Budget.antt =====
-- internal/engine/engine.go: an ingestion on a healthy connection, and the work that it leaves.
use runtime_pulse.Prelude.{◌≤◌, ◌≡◌, ap, Bool, All, arith, inl, inr}
use runtime_pulse.Core.{Event}
use runtime_pulse.Bus.{Bus}
use runtime_pulse.Store.Tables.{Db}
use runtime_pulse.Store.Sql.{Conn, healthy}
use runtime_pulse.Store.Ingest.Run.{ingest_cases, ingested}
use runtime_pulse.Store.Ingest.Budget.{work, IsOneShot, ingested-work}
use runtime_pulse.Engine.{Engine, Draw, normalized, notify, engine_ingest}
use runtime_pulse.Engine.Order.{notified}

-- A healthy connection whose tables hold no more work than before, if rules fire once each.
abbrev pub Thrifty : Db → Conn → Type 0
Thrifty db conn =
    (db' : Db) × (conn ≡ healthy db')
    × (All IsOneShot db.rules → (work db' ≤ work db) × All IsOneShot db'.rules)

pub engine-Thrifty :
    (d : Draw) (ev : Event) (db : Db) (bus : Bus) (awake : Bool)
    → Thrifty db
        (engine_ingest d ev (record { conn = healthy db; bus = bus; awake = awake })).1.conn
engine-Thrifty d ev db bus awake =
    let e : Engine = record { conn = healthy db; bus = bus; awake = awake } in
    let n = normalized d ev in
    elim (ingest_cases d.templates d.codec n d.now d.ids db) [
      | inl (payload, ran) ↦ (
        ingested d.templates d.codec n d.now d.ids payload db,
        unfold notify in ap (λ r. r.1.conn) (notified d ev e _ _ ran),
        ingested-work d.templates d.codec n d.now d.ids payload db,
      )
      | inr (x, ran) ↦ (
        db,
        unfold notify in ap (λ r. r.1.conn) (notified d ev e _ _ ran),
        λ ones. (omega arith, ones),
      )
    ]
