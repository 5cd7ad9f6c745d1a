-- ===== src/Engine.antt =====
-- internal/engine: the outbox transaction, then the live bus, then the dispatcher's wake signal.
pub mod Order
pub mod Budget
use runtime_pulse.Prelude.{
  ℕ, String, Bool, true, false, List, [], ◌∷◌, Result, ok, err, nat_eq, ◌==◌, if◌then◌else◌,
}
use runtime_pulse.Core.{Event, Continuation, TemplateEngine}
use runtime_pulse.Bus.{Bus, publish}
use runtime_pulse.Store.Tables.{PayloadCodec}
use runtime_pulse.Store.Sql.{Conn}
use runtime_pulse.Store.Ingest.{IngestResult, ingest}

-- The engine's store and bus, and whether the wake channel (of capacity 1) holds a signal.
pub record Engine : Type 0 where
  pub conn : Conn
  pub bus : Bus
  pub awake : Bool

-- What an ingestion takes from outside: the libraries, the time, and the ids that core.NewID draws
-- for the event and for its continuations.
pub record Draw : Type 0 where
  pub templates : TemplateEngine
  pub codec : PayloadCodec
  pub now : ℕ
  pub event_id : String
  pub ids : ℕ → String

-- An event that comes without id or time is given one.
unfoldable pub normalized : Draw → Event → Event
normalized d ev = record ev {
  id = if ev.id == "" then d.event_id else ev.id;
  timestamp = if nat_eq ev.timestamp 0 then d.now else ev.timestamp;
}

abbrev pub has_work : List Continuation → Bool
has_work [] = false
has_work (c ∷ cs) = true

-- After the transaction. `Notify` is the dispatcher's Wake, as the daemon sets it.
unfoldable pub notify : Engine → Result IngestResult × Conn → Result IngestResult × Engine
notify e (err x, c) = (err x, record e { conn = c })
notify e (ok res, c) = (
  ok res,
  record {
    conn = c;
    bus = publish e.bus res.event;
    awake = if has_work res.continuations then true else e.awake;
  },
)

-- Engine.Ingest
unfoldable pub engine_ingest : Draw → Event → Engine → Result IngestResult × Engine
unfolding notify normalized
engine_ingest d ev e = notify e (ingest d.templates d.codec (normalized d ev) d.now d.ids e.conn)
