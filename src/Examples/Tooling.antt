-- ===== src/Examples/Tooling.antt =====
-- An agent waits for an event.
use runtime_pulse.Prelude.{◌≡◌, false, pos, zero, some, ok}
use runtime_pulse.Client.Follow.{Stream, breaks, note, answered}
use runtime_pulse.Tools.{WaitForEventInput, wait_for_event}
use runtime_pulse.Tools.Waiting.{events_of, end_of, waiting_answers}
use runtime_pulse.Examples.{healthy_event}

abbrev awaits : WaitForEventInput
awaits = record { event_type = healthy_event.type; source = ""; timeout_seconds = pos zero }

abbrev stream : Stream
stream =
    note "event" (record healthy_event { type = "docker.starting" })
      (note "event" healthy_event (breaks false "EOF"))

waiting_answers_example :
    wait_for_event awaits (answered "" stream)
    ≡ ok (record { timed_out = false; event = some healthy_event })
unfolding events_of end_of
waiting_answers_example = waiting_answers awaits stream
