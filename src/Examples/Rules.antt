-- ===== src/Examples/Rules.antt =====
-- A history: a session registers, a one-shot rule is armed, and its event comes.
use runtime_pulse.Prelude.{
  map, some, ok, ◌≡◌, ◌≤◌, refl, false, ◌&&◌, [], ◌∷◌, any, filter, length, inl, inr,
}
use runtime_pulse.Core.{Session}
use runtime_pulse.Store.Tables.{Db, empty_db, scan_rule, rule_row}
use runtime_pulse.Store.Sql.{exec, run}
use runtime_pulse.Store.Sessions.{
  upsert_session, find_session, register_session, refresh_row, with_default_state,
}
use runtime_pulse.Store.Sessions.Registry.{register_session-keeps}
use runtime_pulse.Store.Rules.{armed as is_armed, prepared, add_rule, insert_rule}
use runtime_pulse.Store.Ingest.{selects}
use runtime_pulse.Store.Ingest.Loop.{of_pair}
use runtime_pulse.Store.OneShot.{of_rule}
use runtime_pulse.Store.OneShot.History.{
  Step, History, fresh, next, ingested, armed, registered, swept_by, one_shot_fires_once,
}
use runtime_pulse.Store.OneShot.Pairs.{is_sweep, HasRow, Later, still, later, pair_fires_once}
use runtime_pulse.Store.Sql.{transaction, finish}
use runtime_pulse.Store.Retention.{
  RetentionPolicy, sweep, session_expired, referenced, delete_idle_sessions,
  delete_old_continuations,
}
use runtime_pulse.Store.Ingest.{
  ingest, insert_event, insert_event_row, match_rules, ingest_rules, unexpired,
}
use runtime_pulse.Store.Events.{delete_old_events}
use runtime_pulse.Examples.{plain, json, healthy_event, once_row, world, claude, drawn}
use runtime_pulse.Examples.Outbox.{result, delivered, run-ingest}

abbrev with_session : Db
with_session = record empty_db { sessions = claude ∷ [] }

session_registered : Step empty_db with_session
unfolding exec upsert_session
session_registered = registered claude 1 (tt, refl)

rule_armed : Step with_session world
unfolding exec prepared add_rule insert_rule rule_row scan_rule
rule_armed = armed (scan_rule once_row) 1 "unused" refl (scan_rule once_row, refl)

pub history : History delivered
history =
    next (next (next fresh session_registered) rule_armed)
      (ingested plain json healthy_event 5 drawn (result, run-ingest))

one_shot_fires_once_example :
    (length (filter (of_rule "rule-1") delivered.continuations) ≤ 1)
    × ((any (of_rule "rule-1") delivered.continuations
          && selects healthy_event 9 (record once_row { consumed = 1 }))
        ≡ false)
one_shot_fires_once_example =
    one_shot_fires_once delivered (record once_row { consumed = 1 }) healthy_event 9 history
      (inl refl) refl

-- The event comes again, and a sweep finds nothing to delete.
abbrev long_ages : RetentionPolicy
long_ages = record { session_idle = 100; continuation_age = 100; event_age = 100 }

nothing_swept :
    run (sweep 9 long_ages) delivered
    ≡ ok (record { sessions = 0; continuations = 0; events = 0 }, delivered)
unfolding sweep transaction exec finish delete_idle_sessions delete_old_continuations
    delete_old_events session_expired referenced is_armed unexpired
nothing_swept = refl

came_again :
    run (ingest plain json healthy_event 9 drawn) delivered
    ≡ ok (record { event = healthy_event; continuations = [] }, delivered)
unfolding ingest exec transaction finish insert_event insert_event_row match_rules scan_rule
    ingest_rules
came_again = refl

afterwards : Later "c" "rule-1" "evt-1" delivered delivered
unfolding is_sweep
afterwards =
    later (later still (ingested plain json healthy_event 9 drawn (_, came_again)) (inl refl))
      (swept_by 9 long_ages (_, nothing_swept)) (inr refl)

pair_fires_once_example :
    HasRow "c" "rule-1" "evt-1" delivered
    × (length (filter (of_pair "rule-1" "evt-1") delivered.continuations) ≡ 1)
pair_fires_once_example =
    pair_fires_once "c" "rule-1" "evt-1" delivered delivered history refl afterwards

claude_found : find_session "s1" world.sessions ≡ some claude
unfolding find_session
claude_found = refl

abbrev moved : Session
moved = record claude { agent = "codex"; repo_path = "/other"; state = "" }

register_session-keeps_example :
    run (register_session moved 7) world
    ≡ ok (
      record claude { agent = "codex"; repo_path = "/other"; updated_at = 7 },
      record world { sessions = map (refresh_row (with_default_state moved) 7) world.sessions },
    )
register_session-keeps_example = register_session-keeps moved 7 world claude claude_found
