-- ===== src/Examples/Live.antt =====
-- The bus and the engine on the small world.
use runtime_pulse.Prelude.{
  ◌≡◌, ◌||◌, refl, pos, true, false, some, [], ◌∷◌, any, All, In, inl, ok, err, ◌==◌, arith,
}
use runtime_pulse.Core.{render_prompt}
use runtime_pulse.Bus.{Channel, Bus, new_bus, subscribe, publish}
use runtime_pulse.Bus.Delivery.{filled, publish_all, publish_all_delivers}
use runtime_pulse.Bus.Subscribers.{
  IsSound, UniqueKeys, opened, after, subscribed, published, BusHistory-IsOpen,
}
use runtime_pulse.Store.Tables.{scan_rule}
use runtime_pulse.Store.Sql.{healthy, run, exec, transaction, finish}
use runtime_pulse.Store.Ingest.{
  ingest, insert_event, insert_event_row, match_rules, ingest_rules, ingest_rule, new_continuation,
  insert_continuation, inserted, consume_rule,
}
use runtime_pulse.Engine.{Engine, Draw, normalized, notify, has_work, engine_ingest}
use runtime_pulse.Engine.Order.{durable_first, failure_is_silent}
use runtime_pulse.Examples.{plain, json, healthy_event, world, drawn}
use runtime_pulse.Examples.Outbox.{result, delivered}

-- A channel with room for one more event.
abbrev listener : Channel
listener = record { key = 0; capacity = 2; queue = healthy_event ∷ [] }

abbrev pub heard : Bus
heard = record { subs = listener ∷ []; next = 1 }

publish_all_delivers_example :
    In
      (filled listener (healthy_event ∷ healthy_event ∷ []))
      (publish_all heard (healthy_event ∷ healthy_event ∷ [])).subs
publish_all_delivers_example =
    publish_all_delivers heard (healthy_event ∷ healthy_event ∷ []) listener (inl refl)
      (omega arith)

abbrev subscribed_bus : Bus
subscribed_bus = publish (subscribe new_bus (pos 0)).0 healthy_event

BusHistory-IsOpen_example :
    All (IsSound subscribed_bus.next) subscribed_bus.subs × UniqueKeys subscribed_bus.subs
BusHistory-IsOpen_example =
    BusHistory-IsOpen subscribed_bus
      (after (after opened (subscribed (pos 0))) (published healthy_event))

abbrev pub draws : Draw
draws = record { templates = plain; codec = json; now = 5; event_id = "evt-2"; ids = drawn }

abbrev engine : Engine
engine = record { conn = healthy world; bus = heard; awake = false }

abbrev notified : Engine
notified = record { conn = healthy delivered; bus = publish heard healthy_event; awake = true }

engine_ingest-world : engine_ingest draws healthy_event engine ≡ (ok result, notified)
unfolding engine_ingest notify normalized ingest exec transaction finish insert_event
    insert_event_row match_rules scan_rule ingest_rules ingest_rule new_continuation render_prompt
    insert_continuation inserted consume_rule
engine_ingest-world = refl

durable_first_example :
    (run (ingest plain json (normalized draws healthy_event) 5 drawn) world
      ≡ ok (result, delivered))
    × (any (λ row. row.id == "evt-1") delivered.events ≡ true)
    × (notified.bus ≡ publish heard healthy_event)
    × (true ≡ (false || has_work result.continuations))
durable_first_example = durable_first draws healthy_event engine notified result engine_ingest-world

abbrev busy : Engine
busy = record engine { conn = record { db = world; faults = some "database is locked" ∷ [] } }

engine_ingest-busy : engine_ingest draws healthy_event busy ≡ (err "database is locked", engine)
unfolding engine_ingest notify ingest exec transaction
engine_ingest-busy = refl

failure_is_silent_example :
    (engine.conn.db ≡ busy.conn.db) × (engine.bus ≡ busy.bus) × (engine.awake ≡ busy.awake)
failure_is_silent_example =
    failure_is_silent draws healthy_event busy engine "database is locked" engine_ingest-busy
