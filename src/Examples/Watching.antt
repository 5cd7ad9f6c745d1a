-- ===== src/Examples/Watching.antt =====
-- A poller, and a watcher that is stopped and started again.
use runtime_pulse.Prelude.{ℕ, String, ◌≡◌, refl, pos, true, false, Bool, List, [], ◌∷◌, some}
use runtime_pulse.Watch.{Config, Watch}
use runtime_pulse.Watch.Poller.{Poller, run_poller, stable, tick}
use runtime_pulse.Watch.Poller.Stability.{
  Alternates, run_poller-Alternates, HeldSince, Polled, polling, ticked, emission_is_stable,
}
use runtime_pulse.Watch.Docker.{docker_watch}
use runtime_pulse.Watch.Docker.Edges.{Changes, docker_watch-Changes}
use runtime_pulse.Watch.Manager.{Manager, new_manager, start, stop}
use runtime_pulse.Watch.Manager.Handles.{IsManaged, made, after, readied, started, stopped}
use runtime_pulse.Watch.Manager.History.{ManagerHistory-IsManaged}

abbrev patient : Config
patient = record { interval = pos 2; stability_threshold = pos 5 }

run_poller-Alternates_example :
    (rest : List Bool) × (run_poller patient false ((true, 10) ∷ (true, 16) ∷ []) ≡ false ∷ rest)
    × Alternates false rest
run_poller-Alternates_example = run_poller-Alternates patient false ((true, 10) ∷ (true, 16) ∷ [])

abbrev flapping : Poller
flapping = record { current = false; pending = some (true, 10) }

flapping-Polled : Polled patient ((true, 10) ∷ []) flapping
unfolding tick
flapping-Polled = ticked true 10 (polling false)

tick-flapping : (tick patient flapping true 16).1 ≡ some true
unfolding tick
tick-flapping = refl

emission_is_stable_example :
    (since : ℕ) × HeldSince true since ((true, 16) ∷ (true, 10) ∷ [])
    × (stable patient since 16 ≡ true)
emission_is_stable_example =
    emission_is_stable patient ((true, 10) ∷ []) flapping true 16 true flapping-Polled tick-flapping

abbrev site : Watch
site = record {
  id = "w1";
  type = "http";
  target = "http://localhost";
  config = patient;
  created_at = 1;
}

abbrev name_of : String → String
name_of t = t

-- Stopped and started again before the first goroutine has ended.
abbrev restarted : Manager
restarted =
    (start name_of site (stop "w1" (start name_of site (record new_manager { ready = true })).1)).1

ManagerHistory-IsManaged_example : IsManaged restarted
ManagerHistory-IsManaged_example = ManagerHistory-IsManaged restarted (
    after (after (after (after made readied) (started name_of site)) (stopped "w1"))
      (started name_of site))

docker_watch-Changes_example : Changes "" (
    docker_watch "" (("docker.started", []) ∷ ("docker.started", []) ∷ ("docker.healthy", []) ∷ []))
docker_watch-Changes_example =
    docker_watch-Changes ""
      (("docker.started", []) ∷ ("docker.started", []) ∷ ("docker.healthy", []) ∷ [])
