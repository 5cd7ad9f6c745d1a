-- ===== src/Store/Ingest/Selection.antt =====
-- The WHERE clause of the outbox transaction against core/rule.go.
use runtime_pulse.Prelude.{
  ℕ, suc, ◌⊎◌, ◌≤◌, String, ◌≡◌, true, ◌&&◌, List, [], ◌∷◌, map, All, arith, inl, inr,
}
use runtime_pulse.Core.{Event, Rule, Continuation, TemplateEngine, matches, active}
use runtime_pulse.Store.Tables.{Db, RuleRow, scan_rule}
use runtime_pulse.Store.Ingest.{new_continuation, selects, consume_row}
use runtime_pulse.Store.Ingest.Run.{after_rule, loop_db}

-- A flag column holds 0 or 1.
abbrev pub IsFlagged : RuleRow → Type 0
IsFlagged r = r.consumed ≤ 1

-- The SQL of the engine selects a row exactly if the rule that the row holds matches the event and
-- is active, as EventSelector.Matches and Rule.Active say, provided that its flag is 0 or 1.
pub selects-matches :
    (ev : Event) (now : ℕ) (r : RuleRow)
    → IsFlagged r
    → selects ev now r ≡ (matches (scan_rule r).selector ev && active (scan_rule r) now)
unfolding selects matches active scan_rule
selects-matches ev now r h = ground arith

-- A row that is selected later was selected before.
pub selects_earlier :
    (ev : Event) (now later : ℕ) (r : RuleRow)
    → now ≤ later
    → selects ev later r ≡ true
    → selects ev now r ≡ true
unfolding selects
selects_earlier ev now later r h k = ground arith

-- A consumed row is not selected.
pub selects-consume_row :
    (ev : Event) (now : ℕ) (id : String) (r : RuleRow)
    → selects ev now (consume_row id r) ≡ true
    → consume_row id r ≡ r
unfolding selects
selects-consume_row ev now id r h = ground arith

-- A round leaves the rules as they were, or consumes those with the id of its rule.
pub after_rule_rules_cases :
    (r : Rule) (c : Continuation) (db : Db)
    → ((after_rule r c db).rules ≡ db.rules)
      ⊎ ((after_rule r c db).rules ≡ map (consume_row r.id) db.rules)
unfolding after_rule
after_rule_rules_cases r c db = ground arith

module _ (P : RuleRow → Type 0)
    (keep : (id : String) (r : RuleRow) → P r → P (consume_row id r)) where
  All-consume : (id : String) (l : List RuleRow) → All P l → All P (map (consume_row id) l)
  All-consume id [] h = tt
  All-consume id (r ∷ l) h = (keep id r h.0, All-consume id l h.1)

  after_rule-rules :
      (r : Rule) (c : Continuation) (db : Db) → All P db.rules → All P (after_rule r c db).rules
  after_rule-rules r c db h = elim (after_rule_rules_cases r c db) [
    | inl e ↦ rw e h
    | inr e ↦ rw e (All-consume r.id db.rules h)
  ]

  -- What consuming keeps, the loop keeps.
  pub loop-rules :
      (t : TemplateEngine) (ev : Event) (now : ℕ) (ids : ℕ → String) (rs : List Rule) (db : Db)
      → All P db.rules
      → All P (loop_db t ev now ids rs db).rules
  unfolding loop_db
  loop-rules t ev now ids [] db h = h
  loop-rules t ev now ids (r ∷ rs) db h =
      let c = new_continuation t ev now (ids 0) r in
      loop-rules t ev now (λ n. ids (suc n)) rs (after_rule r c db) (after_rule-rules r c db h)
