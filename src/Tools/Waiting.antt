-- ===== src/Tools/Waiting.antt =====
-- internal/mcpserver/tools.go: the event that is waited for.
use runtime_pulse.Prelude.{
  ◌≡◌, true, false, Option, none, some, List, [], ◌∷◌, filter, head?, Result, ok, err, ◌==◌, arith,
  inl, inr, Bool-cases, if◌then◌else◌,
}
use runtime_pulse.Core.{Event}
use runtime_pulse.Client.Follow.{Stream, breaks, note, answered, follow_loop, follow}
use runtime_pulse.Tools.{
  WaitForEventInput, WaitOutput, awaited, on_event, is_found, wait_output, wait_for_event,
}

-- The events of a stream, and what its end means for one who found nothing.
unfoldable pub events_of : Stream → List Event
events_of (breaks late e) = []
events_of (note method ev rest) = let l = events_of rest in if method == "event" then ev ∷ l else l

unfoldable pub end_of : Stream → Result WaitOutput
end_of (breaks late e) = if late then ok (record { timed_out = true; event = none }) else err e
end_of (note method ev rest) = end_of rest

abbrev pub first_or : Result WaitOutput → Option Event → Result WaitOutput
first_or r none = r
first_or r (some ev) = ok (record { timed_out = false; event = some ev })

-- Once an event is found, nothing changes it, and the end of the stream is no error.
found_stays :
    (i : WaitForEventInput) (ev : Event) (s : Stream)
    → wait_output (follow_loop (on_event i) is_found s (some ev)) ≡ first_or (err "") (some ev)
unfolding follow_loop
found_stays i ev (breaks late e) = ground arith
found_stays i ev (note method other rest) = elim (Bool-cases (method == "event")) [
  | inl h ↦ rw h (found_stays i ev rest)
  | inr h ↦ rw h (found_stays i ev rest)
]

loop_answers :
    (i : WaitForEventInput) (s : Stream)
    → wait_output (follow_loop (on_event i) is_found s none)
      ≡ first_or (end_of s) (head? (filter (awaited i) (events_of s)))
unfolding follow_loop end_of events_of
loop_answers i (breaks late e) = ground arith
loop_answers i (note method ev rest) = elim (Bool-cases (method == "event")) [
  | inr h ↦ rw h (loop_answers i rest)
  | inl h ↦ elim (Bool-cases (awaited i ev)) [
    | inl is ↦ rw (h, is) (found_stays i ev rest)
    | inr other ↦ rw (h, other) (loop_answers i rest)
  ]
]

-- On a connection that is accepted, wait_for_event answers with the first event of the stream that
-- has the type and, if one is given, the source, whatever happens to the connection afterwards. If
-- there is none, it answers that the time is over, if it was when the stream ended, and fails with
-- the error of the connection otherwise.
pub waiting_answers :
    (i : WaitForEventInput) (s : Stream)
    → wait_for_event i (answered "" s)
      ≡ first_or (end_of s) (head? (filter (awaited i) (events_of s)))
unfolding wait_for_event follow
waiting_answers i s = loop_answers i s
