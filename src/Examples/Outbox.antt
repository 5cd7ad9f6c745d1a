-- ===== src/Examples/Outbox.antt =====
-- The outbox transaction on the small world.
use runtime_pulse.Prelude.{◌≡◌, refl, ◌&&◌, [], ◌∷◌, ok, arith}
use runtime_pulse.Core.{matches, active, render_prompt}
use runtime_pulse.Store.Tables.{Db, scan_rule}
use runtime_pulse.Store.Sql.{run, exec, transaction, finish}
use runtime_pulse.Store.Sql.Faults.{IsAtomic}
use runtime_pulse.Store.Ingest.{
  IngestResult, ingest, selects, insert_event, insert_event_row, match_rules, ingest_rules,
  ingest_rule, new_continuation, insert_continuation, inserted, consume_rule,
}
use runtime_pulse.Store.Ingest.Loop.{Fresh}
use runtime_pulse.Store.Ingest.Selection.{selects-matches}
use runtime_pulse.Store.Ingest.Atomic.{ingest-IsAtomic}
use runtime_pulse.Store.Ingest.Outbox.{Delivered, ingest-Delivered, ingest_again}
use runtime_pulse.Examples.{
  plain, json, healthy_event, once_row, world, drawn, drawn_distinct, woken,
}

abbrev pub result : IngestResult
result = record { event = healthy_event; continuations = woken ∷ [] }

abbrev pub delivered : Db
delivered = record world {
  events =
      record {
        id = "evt-1";
        type = "http.healthy";
        source = "http://localhost:3000";
        payload = "{}";
        created_at = 4;
      }
      ∷ [];
  rules = record once_row { consumed = 1 } ∷ [];
  continuations = woken ∷ [];
}

pub run-ingest : run (ingest plain json healthy_event 5 drawn) world ≡ ok (result, delivered)
unfolding ingest exec transaction finish insert_event insert_event_row match_rules scan_rule
    ingest_rules ingest_rule new_continuation render_prompt insert_continuation inserted
    consume_rule
run-ingest = refl

drawn-Fresh : Fresh drawn world
drawn-Fresh = record { absent = λ n. refl; distinct = drawn_distinct }

ingest-IsAtomic_example : IsAtomic (ingest plain json healthy_event 5 drawn)
ingest-IsAtomic_example = ingest-IsAtomic plain json healthy_event 5 drawn

selects-matches_example :
    selects healthy_event 5 once_row
    ≡ (matches (scan_rule once_row).selector healthy_event && active (scan_rule once_row) 5)
selects-matches_example = selects-matches healthy_event 5 once_row (omega arith)

ingest-Delivered_example : Delivered healthy_event 5 world result delivered
ingest-Delivered_example =
    ingest-Delivered plain json healthy_event 5 drawn world result delivered drawn-Fresh
      (omega arith, tt) run-ingest

ingest_again_example :
    run (ingest plain json healthy_event 9 drawn) delivered
    ≡ ok (record { event = healthy_event; continuations = [] }, delivered)
ingest_again_example =
    ingest_again plain json healthy_event 5 drawn world result delivered 9 drawn drawn-Fresh
      (omega arith) run-ingest
