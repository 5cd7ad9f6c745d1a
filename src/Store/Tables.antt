-- ===== src/Store/Tables.antt =====
-- store/store.go, the schema, and the scan functions that read a row. A column of a timestamp
-- holds the instant itself: `ts` writes all of them in one fixed width, in UTC, so that SQLite
-- compares the texts as it would the instants. A table lists its rows in the order of insertion.
pub mod Rows
use runtime_pulse.Prelude.{
  ℕ, String, Bool, true, false, Option, none, some, List, [], Result, ok, nat_eq, if◌then◌else◌,
}
use runtime_pulse.Core.{Payload, Event, Rule, Session, Continuation}

pub record EventRow : Type 0 where
  pub id : String
  pub type : String
  pub source : String
  pub payload : String
  pub created_at : ℕ

pub record RuleRow : Type 0 where
  pub id : String
  pub event_type : String
  pub event_source : String
  pub action_kind : String
  pub session_id : String
  pub prompt_template : String
  pub label : String
  pub one_shot : ℕ
  pub consumed : ℕ
  pub expires_at : Option ℕ
  pub created_at : ℕ

pub record WatchRow : Type 0 where
  pub id : String
  pub type : String
  pub target : String
  pub config : String
  pub created_at : ℕ

pub record Db : Type 0 where
  pub events : List EventRow
  pub rules : List RuleRow
  pub sessions : List Session
  pub continuations : List Continuation
  pub watches : List WatchRow

-- A database that `migrate` has just made.
abbrev pub empty_db : Db
empty_db = record { events = []; rules = []; sessions = []; continuations = []; watches = [] }

-- encoding/json on a payload.
pub record PayloadCodec : Type 0 where
  pub marshal : Payload → Result String
  pub unmarshal : String → Result Payload

-- boolInt
unfoldable pub bool_int : Bool → ℕ
bool_int b = if b then 1 else 0

-- The row that AddRule writes; the column `consumed` is the literal 0 there.
unfoldable pub rule_row : Rule → RuleRow
unfolding bool_int
rule_row r = record {
  id = r.id;
  event_type = r.selector.type;
  event_source = r.selector.source;
  action_kind = r.action_kind;
  session_id = r.session_id;
  prompt_template = r.prompt_template;
  label = r.label;
  one_shot = bool_int r.one_shot;
  consumed = 0;
  expires_at = r.expires_at;
  created_at = r.created_at;
}

-- scanRule
unfoldable pub scan_rule : RuleRow → Rule
scan_rule r = record {
  id = r.id;
  selector = record { type = r.event_type; source = r.event_source };
  action_kind = r.action_kind;
  session_id = r.session_id;
  prompt_template = r.prompt_template;
  label = r.label;
  one_shot = nat_eq r.one_shot 1;
  consumed = nat_eq r.consumed 1;
  expires_at = r.expires_at;
  created_at = r.created_at;
}

-- A statement that fails changes nothing and has the text of its error.
abbrev pub Statement : Type 0 → Type 0
Statement A = Db → Result (A × Db)
