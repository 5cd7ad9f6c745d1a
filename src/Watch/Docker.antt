-- ===== src/Watch/Docker.antt =====
-- internal/watch/docker.go: what the lines of the docker client mean.
pub mod Edges
use runtime_pulse.Prelude.{
  String, Bool, true, false, ◌&&◌, ◌||◌, Option, none, some, List, [], ◌∷◌, ◌==◌, if◌then◌else◌,
}
use runtime_pulse.Core.{Payload}

-- An event as encoding/json decodes it; a missing attribute is the empty text.
pub record DockerEvent : Type 0 where
  pub type : String
  pub action : String
  pub name : String

-- The type of the event for an action of a container.
unfoldable pub action_type : String → String
action_type action =
    if action == "start"
    then "docker.started"
    else if action == "die" || (action == "stop" || action == "kill")
    then "docker.stopped"
    else if action == "health_status: healthy"
    then "docker.healthy"
    else if action == "health_status: unhealthy"
    then "docker.unhealthy"
    else ""

abbrev pub mapped_event : DockerEvent → String × Payload
mapped_event ev =
    if action_type ev.action == ""
    then ("", [])
    else (action_type ev.action, ("container", ev.name) ∷ [])

-- MapDockerEvent on the line's decoding, which is `none` if it is no such object.
unfoldable pub map_docker_event : Option DockerEvent → String × Payload
unfolding action_type
map_docker_event none = ("", [])
map_docker_event (some ev) = if ev.type == "container" then mapped_event ev else ("", [])

-- The type of the event for a status and a health.
unfoldable pub state_type : String → String → String
state_type status health =
    if status == "running" && health == "healthy"
    then "docker.healthy"
    else if status == "running" && health == "unhealthy"
    then "docker.unhealthy"
    else if status == "running"
    then "docker.started"
    else "docker.stopped"

abbrev pub health_of : List String → String
health_of [] = ""
health_of (h ∷ l) = h

-- MapDockerInspect on the fields of the output.
unfoldable pub map_docker_inspect : List String → String
unfolding state_type
map_docker_inspect [] = ""
map_docker_inspect (status ∷ rest) = state_type status (health_of rest)

-- emitOnce: the last type, and what is emitted.
unfoldable pub emit_once : String → String × Payload → String × Option (String × Payload)
emit_once last (t, payload) = if t == "" || t == last then (last, none) else (t, some (t, payload))

abbrev pub emitted_docker :
    Option (String × Payload) → List (String × Payload) → List (String × Payload)
emitted_docker none l = l
emitted_docker (some e) l = e ∷ l

-- The observations of RunDockerWatch, inspections and lines alike, in their order.
unfoldable pub docker_watch : String → List (String × Payload) → List (String × Payload)
docker_watch last [] = []
docker_watch last (o ∷ rest) =
    emitted_docker (emit_once last o).1 (docker_watch (emit_once last o).0 rest)
