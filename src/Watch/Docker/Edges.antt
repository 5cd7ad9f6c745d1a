-- ===== src/Watch/Docker/Edges.antt =====
-- emitOnce of internal/watch/docker.go: the events of a docker watch.
use runtime_pulse.Prelude.{
  String, ◌≡◌, false, ◌||◌, List, [], ◌∷◌, ◌==◌, arith, inl, inr, Bool-cases,
}
use runtime_pulse.Core.{Payload}
use runtime_pulse.Watch.Docker.{emit_once, docker_watch}

-- Each type is none of the empty text and the type before.
abbrev pub Changes : String → List (String × Payload) → Type 0
Changes last [] = Unit
Changes last (e ∷ l) = ((e.0 == "") ≡ false) × ((e.0 == last) ≡ false) × Changes e.0 l

-- Whatever a docker watch observes, no event that it emits has an empty type or the type of the one
-- before.
pub docker_watch-Changes :
    (last : String) (seen : List (String × Payload)) → Changes last (docker_watch last seen)
unfolding docker_watch emit_once
docker_watch-Changes last [] = tt
docker_watch-Changes last ((t, payload) ∷ rest) = elim (Bool-cases (t == "" || t == last)) [
  | inl e ↦ rw e (docker_watch-Changes last rest)
  | inr e ↦ rw e (ground arith, ground arith, docker_watch-Changes t rest)
]
