-- ===== src/Client.antt =====
-- Client.Call of internal/client/client.go, and how handleConn of internal/daemon/rpc.go answers it.
pub mod Follow
pub mod Apply
use runtime_pulse.Prelude.{ℕ, String, Option, none, some, Result, ok, err, ◌==◌, if◌then◌else◌}
use runtime_pulse.Daemon.{Daemon, Outside, Rpc, Reply}
use runtime_pulse.Daemon.Methods.{Request, dispatch}

-- An empty field is left out of the text of a response.
pub record Response : Type 0 where
  pub result : Option Reply
  pub error : String

abbrev pub response_of : Result Reply → Response
response_of (ok reply) = record { result = some reply; error = "" }
response_of (err e) = record { result = none; error = e }

-- A round of the loop of handleConn.
unfoldable pub handle_request : Outside → Request → Daemon → Response × Daemon
handle_request o req d = let (r, d') = dispatch o req d in (response_of r, d')

-- What the socket does with a call: the request does not arrive, or the response does not, each with
-- the text of the error, or both do.
pub data Transport : Type 0 where
  delivered : Transport
  lost : String → Transport
  unanswered : String → Transport

-- Call, after its response is decoded.
abbrev pub accepted : Response → Result (Option Reply)
accepted r = if r.error == "" then ok r.result else err r.error

unfoldable pub call : Transport → Outside → Request → Rpc (Option Reply)
call delivered o req d = let (r, d') = handle_request o req d in (accepted r, d')
call (lost e) o req d = (err e, d)
call (unanswered e) o req d = (err e, (handle_request o req d).1)
