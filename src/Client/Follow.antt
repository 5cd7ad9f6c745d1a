-- ===== src/Client/Follow.antt =====
-- Client.Follow of internal/client/client.go: the events of the daemon as they are published.
use runtime_pulse.Prelude.{String, Bool, Result, ok, err, ◌||◌, ◌==◌, if◌then◌else◌}
use runtime_pulse.Core.{Event}

-- What is read from the connection after the first response: notes, each with its method and an
-- event, until a read fails; `late` is whether the context was cancelled from outside by then.
pub data Stream : Type 0 where
  breaks : (late : Bool) → String → Stream
  note : String → Event → Stream → Stream

-- What comes of the connection: it is not made, the request cannot be sent, no response can be read,
-- or a response comes, with its error, and the stream.
pub data Line : Type 0 where
  unreachable unsent silent : String → Line
  answered : String → Stream → Line

module _ {S : Type 0} (on_event : Event → S → S) (stopped : S → Bool) where
  -- The loop. The state is that of the caller's function, which may cancel the context.
  unfoldable pub follow_loop : Stream → S → Result (Unit {0}) × S
  follow_loop (breaks late e) s = (if late || stopped s then ok tt else err e, s)
  follow_loop (note method ev rest) s =
      follow_loop rest (if method == "event" then on_event ev s else s)

  -- Follow
  unfoldable pub follow : Line → S → Result (Unit {0}) × S
  follow (unreachable e) s = (err e, s)
  follow (unsent e) s = (err e, s)
  follow (silent e) s = (err e, s)
  follow (answered e stream) s = if e == "" then follow_loop stream s else (err e, s)
