-- ===== src/Daemon/Rules.antt =====
-- ruleAdd of internal/daemon/rpc.go.
use runtime_pulse.Prelude.{
  ℕ, String, Bool, false, not, ◌&&◌, ◌||◌, Option, none, some, Result, ok, err, ◌==◌, if◌then◌else◌,
  str_append,
}
use runtime_pulse.Core.{Rule, Session, validate_prompt_template, action_continue_session}
use runtime_pulse.Store.Sessions.{get_session, register_session}
use runtime_pulse.Store.Rules.{add_rule}
use runtime_pulse.Daemon.{Outside, Rpc, Reply, rule_reply, give, refuse, stored, ◌>>=◌, ◌>>◌}

pub record RuleParams : Type 0 where
  pub type : String
  pub source : String
  pub session_id : String
  pub agent : String
  pub repo_path : String
  pub prompt : String
  pub label : String
  pub one_shot : Bool
  pub expires_at : String

abbrev pub as_some : Result ℕ → Result (Option ℕ)
as_some (ok t) = ok (some t)
as_some (err e) = err (str_append "rule.add: bad expiresAt: " e)

-- expiresAt, if it is given.
unfoldable pub parse_expiry : Outside → String → Result (Option ℕ)
parse_expiry o s = if s == "" then ok none else as_some (o.parse_time s)

-- The session registers itself, or has to be there.
abbrev pub require_session : Outside → String → Option Session → Rpc (Unit {0})
require_session o id (some s) = give tt
require_session o id none = refuse (
    str_append "rule.add: unknown session "
      (str_append (o.quote id) " (register it or pass agent+repoPath)"))

abbrev pub self_registered : RuleParams → Session
self_registered p = record {
  session_id = p.session_id;
  agent = p.agent;
  repo_path = p.repo_path;
  state = "";
  created_at = 0;
  updated_at = 0;
}

unfoldable pub ensure_session : Outside → RuleParams → Rpc (Unit {0})
ensure_session o p =
    if not (p.agent == "") && not (p.repo_path == "")
    then (do stored (register_session (self_registered p) o.draw.now); give tt)
    else (do found ← stored (get_session p.session_id); require_session o p.session_id found)

abbrev pub rule_of : RuleParams → Option ℕ → Rule
rule_of p expires = record {
  id = "";
  selector = record { type = p.type; source = p.source };
  action_kind = action_continue_session;
  session_id = p.session_id;
  prompt_template = p.prompt;
  label = p.label;
  one_shot = p.one_shot;
  consumed = false;
  expires_at = expires;
  created_at = 0;
}

unfoldable pub add_checked : Outside → RuleParams → Result (Option ℕ) → Rpc Reply
add_checked o p (err e) = refuse e
add_checked o p (ok expires) = do
  ensure_session o p
  r ← stored (add_rule (rule_of p expires) o.draw.now o.new_id)
  give (rule_reply r)

abbrev pub add_parsed : Outside → RuleParams → Option String → Rpc Reply
add_parsed o p (some e) = refuse (str_append "rule.add: bad prompt template: " e)
add_parsed o p none = add_checked o p (parse_expiry o p.expires_at)

-- ruleAdd
unfoldable pub rule_add : Outside → RuleParams → Rpc Reply
rule_add o p =
    if p.type == "" || (p.session_id == "" || p.prompt == "")
    then refuse "rule.add: type, sessionId and prompt are required"
    else add_parsed o p (validate_prompt_template o.draw.templates p.prompt)
