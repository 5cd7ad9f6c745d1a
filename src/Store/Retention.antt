-- ===== src/Store/Retention.antt =====
-- store/retention.go: the sweep, one transaction of three deletions.
pub mod Sweep
use runtime_pulse.Prelude.{
  ℕ, ◌-◌, String, Bool, true, false, ◌&&◌, List, not, ok, ltb, length, any, filter, ◌==◌,
}
use runtime_pulse.Core.{
  Session, Continuation, ContinuationState, completed, failed, session_running,
}
use runtime_pulse.Store.Tables.{RuleRow, Statement}
use runtime_pulse.Store.Sql.{Sql, exec, ◌>>=◌, pure, transaction}
use runtime_pulse.Store.Events.{delete_old_events}
use runtime_pulse.Store.Rules.{armed}

pub record RetentionPolicy : Type 0 where
  pub session_idle : ℕ
  pub continuation_age : ℕ
  pub event_age : ℕ

pub record SweepResult : Type 0 where
  pub sessions : ℕ
  pub continuations : ℕ
  pub events : ℕ

-- session_id IN (SELECT session_id FROM rules WHERE consumed = 0 AND …)
unfoldable pub referenced : ℕ → List RuleRow → String → Bool
referenced now rules id = any (λ r. armed now r && r.session_id == id) rules

unfoldable pub session_expired : ℕ → ℕ → List RuleRow → Session → Bool
session_expired now before rules s =
    ltb s.updated_at before
    && not (s.state == session_running)
    && not (referenced now rules s.session_id)

unfoldable pub delete_idle_sessions : ℕ → ℕ → Statement ℕ
delete_idle_sessions now before db = ok (
  length (filter (session_expired now before db.rules) db.sessions),
  record db { sessions = filter (λ s. not (session_expired now before db.rules s)) db.sessions },
)

-- state IN ('completed', 'failed')
abbrev pub is_terminal : ContinuationState → Bool
is_terminal completed = true
is_terminal failed = true
is_terminal _ = false

abbrev pub continuation_expired : ℕ → Continuation → Bool
continuation_expired before c = is_terminal c.state && ltb c.updated_at before

unfoldable pub delete_old_continuations : ℕ → Statement ℕ
delete_old_continuations before db = ok (
  length (filter (continuation_expired before) db.continuations),
  record db { continuations = filter (λ c. not (continuation_expired before c)) db.continuations },
)

-- Sweep. A cutoff before Go's zero time is that time here: no row is older.
unfoldable pub sweep : ℕ → RetentionPolicy → Sql SweepResult
sweep now p = transaction (do
  sessions ← exec (delete_idle_sessions now (now - p.session_idle))
  continuations ← exec (delete_old_continuations (now - p.continuation_age))
  events ← exec (delete_old_events (now - p.event_age))
  pure (record { sessions = sessions; continuations = continuations; events = events }))
