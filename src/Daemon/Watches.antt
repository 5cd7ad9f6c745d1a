-- ===== src/Daemon/Watches.antt =====
-- watch.add and watch.remove of internal/daemon/rpc.go.
use runtime_pulse.Prelude.{
  ℤ, pos, String, not, Option, none, some, Result, ok, err, ◌==◌, if◌then◌else◌, str_append,
}
use runtime_pulse.Watch.{Config, Watch, validate_type}
use runtime_pulse.Watch.Manager.{start, stop}
use runtime_pulse.Store.Watches.{add_watch, remove_watch}
use runtime_pulse.Daemon.{Outside, Rpc, Reply, done, watch_reply, give, refuse, stored, ◌>>=◌, ◌>>◌}

pub record WatchParams : Type 0 where
  pub type : String
  pub target : String
  pub interval : String
  pub stability : String

-- The text of ValidateType's error.
unfoldable pub bad_type : Outside → String → String
bad_type o t =
    str_append "unknown watch type "
      (str_append (o.quote t) " (valid: http, tcp, file, process, docker, git)")

abbrev pub named_error : String → Result ℤ → Result ℤ
named_error name (ok d) = ok d
named_error name (err e) = err (str_append name e)

-- A duration that may be left out.
unfoldable pub duration : Outside → String → String → Result ℤ
duration o name s = if s == "" then ok (pos 0) else named_error name (o.parse_duration s)

abbrev pub both : Result ℤ → Result ℤ → Result Config
both (err e) r = err e
both (ok i) (err e) = err e
both (ok i) (ok s) = ok (record { interval = i; stability_threshold = s })

unfoldable pub config_of : Outside → WatchParams → Result Config
unfolding duration
config_of o p =
    both (duration o "watch.add: bad interval: " p.interval)
      (duration o "watch.add: bad stability: " p.stability)

-- Manager.Start as a method's step.
abbrev pub started_watch : Outside → Watch → Rpc (Unit {0})
started_watch o w d = let (r, m) = start (bad_type o) w d.watches in (r, record d { watches = m })

abbrev pub stopped_watch : String → Rpc (Unit {0})
stopped_watch id d = (ok tt, record d { watches = stop id d.watches })

abbrev pub new_watch : WatchParams → Config → Watch
new_watch p c = record { id = ""; type = p.type; target = p.target; config = c; created_at = 0 }

unfoldable pub add_configured : Outside → WatchParams → Result Config → Rpc Reply
add_configured o p (err e) = refuse e
add_configured o p (ok c) = do
  w ← stored (add_watch o.config (new_watch p c) o.draw.now o.new_id)
  started_watch o w
  give (watch_reply w)

abbrev pub docker_missing : Outside → String → Option String
docker_missing o type = if type == "docker" then o.docker_available else none

-- After the docker check.
abbrev pub add_available : Outside → WatchParams → Option String → Rpc Reply
add_available o p (some e) = refuse (str_append "watch.add: docker CLI not found: " e)
add_available o p none =
    if p.type == "git"
    then (if o.is_git_repository p.target
        then add_configured o p (config_of o p)
        else refuse (str_append "watch.add: " (str_append p.target " is not a git repository")))
    else add_configured o p (config_of o p)

unfoldable pub watch_add : Outside → WatchParams → Rpc Reply
unfolding bad_type
watch_add o p =
    if not (validate_type p.type)
    then refuse (bad_type o p.type)
    else if p.target == ""
    then refuse "watch.add: target is required"
    else add_available o p (docker_missing o p.type)

unfoldable pub watch_remove : String → Rpc Reply
watch_remove id = do stopped_watch id; stored (remove_watch id); give done
