-- ===== src/Examples.antt =====
-- A small world for the examples: one session, one one-shot rule, and an event that it waits for.
pub mod Outbox
mod Queue
mod Live
mod Runs
mod Watching
mod Requests
mod Rules
mod Lives
mod Applied
mod Setups
mod Tooling
use Prim.Native.String.{String, [], ◌∷◌}
use runtime_pulse.Prelude.{
  ℕ, zero, suc, ◌≡◌, refl, ap, none, some, List, [] as nil, ◌∷◌ as cons, ok, arith,
}
use runtime_pulse.Core.{
  Event, Session, Continuation, pending, TemplateEngine, session_waiting, action_continue_session,
}
use runtime_pulse.Store.Tables.{Db, RuleRow, PayloadCodec, empty_db}

-- Templates without actions, and a codec for empty payloads.
abbrev pub plain : TemplateEngine
plain = record { parse = λ s. none; execute = λ s ev. ok s }

abbrev pub json : PayloadCodec
json = record { marshal = λ p. ok "{}"; unmarshal = λ s. ok nil }

abbrev pub healthy_event : Event
healthy_event = record {
  id = "evt-1";
  type = "http.healthy";
  source = "http://localhost:3000";
  payload = nil;
  timestamp = 4;
}

abbrev pub once_row : RuleRow
once_row = record {
  id = "rule-1";
  event_type = "http.healthy";
  event_source = "";
  action_kind = action_continue_session;
  session_id = "s1";
  prompt_template = "go on";
  label = "deploy";
  one_shot = 1;
  consumed = 0;
  expires_at = some 90;
  created_at = 1;
}

abbrev pub claude : Session
claude = record {
  session_id = "s1";
  agent = "claude";
  repo_path = "/repo";
  state = session_waiting;
  created_at = 1;
  updated_at = 1;
}

abbrev pub world : Db
world = record empty_db { rules = cons once_row nil; sessions = cons claude nil }

-- Ids, drawn one after the other.
abbrev pub drawn : ℕ → String
drawn zero = "c"
drawn (suc n) = "0" ∷ drawn n

abbrev zeros : String → ℕ
zeros [] = 0
zeros (c ∷ s) = suc (zeros s)

zeros-drawn : (n : ℕ) → zeros (drawn n) ≡ suc n
zeros-drawn zero = refl
zeros-drawn (suc n) = ap suc (zeros-drawn n)

pub drawn_distinct : (m n : ℕ) → drawn m ≡ drawn n → m ≡ n
drawn_distinct m n e = omega (arith, zeros-drawn m, zeros-drawn n, ap zeros e)

-- What the event makes of the rule.
abbrev pub woken : Continuation
woken = record {
  id = "c";
  rule_id = "rule-1";
  event_id = "evt-1";
  session_id = "s1";
  prompt = "go on";
  label = "deploy";
  state = pending;
  command = "";
  exit_code = none;
  output_summary = "";
  created_at = 5;
  updated_at = 5;
}
