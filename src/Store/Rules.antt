-- ===== src/Store/Rules.antt =====
-- store/rules.go: arming, listing and removing rules.
use runtime_pulse.Prelude.{
  ℕ, String, Bool, true, false, ◌&&◌, List, [], ◌∷◌, ◌++◌, map, not, ok, err, leb, nat_eq, any,
  filter, ◌==◌, if◌then◌else◌,
}
use runtime_pulse.Prelude.Order.{sort_by}
use runtime_pulse.Core.{Rule, action_continue_session}
use runtime_pulse.Store.Tables.{RuleRow, Statement, rule_row, scan_rule}
use runtime_pulse.Store.Sql.{Sql, exec, ◌>>◌, pure}
use runtime_pulse.Store.Ingest.{unexpired}
use runtime_pulse.Store.Continuations.{constraint_failed}

-- The fields that AddRule fills; `new_id` is what core.NewID("rule") returns.
unfoldable pub prepared : Rule → ℕ → String → Rule
prepared r now new_id = record r {
  id = if r.id == "" then new_id else r.id;
  action_kind = if r.action_kind == "" then action_continue_session else r.action_kind;
  consumed = false;
  created_at = now;
}

-- INSERT INTO rules
unfoldable pub insert_rule : RuleRow → Statement (Unit {0})
insert_rule row db =
    if any (λ r. r.id == row.id) db.rules
    then err constraint_failed
    else ok (tt, record db { rules = db.rules ++ row ∷ [] })

-- AddRule
unfoldable pub add_rule : Rule → ℕ → String → Sql Rule
add_rule r now new_id = do let p = prepared r now new_id; exec (insert_rule (rule_row p)); pure p

-- consumed = 0 AND (expires_at IS NULL OR expires_at > ?)
unfoldable pub armed : ℕ → RuleRow → Bool
armed now r = nat_eq r.consumed 0 && unexpired r.expires_at now

-- ListRules
unfoldable pub list_rules : Bool → ℕ → Sql (List Rule)
unfolding armed
list_rules include_inactive now = exec (λ db. ok (
  map scan_rule (
      sort_by (λ a b. leb a.created_at b.created_at)
        (filter (λ r. if include_inactive then true else armed now r) db.rules)),
  db,
))

unfoldable pub delete_rule : String → Statement (Unit {0})
delete_rule id db = ok (tt, record db { rules = filter (λ r. not (r.id == id)) db.rules })

-- RemoveRule
unfoldable pub remove_rule : String → Sql (Unit {0})
remove_rule id = exec (delete_rule id)
