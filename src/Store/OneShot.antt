-- ===== src/Store/OneShot.antt =====
-- One-shot rules and the UNIQUE constraints, as an invariant of the tables.
pub mod Ingestion
pub mod Rows
pub mod History
pub mod Pairs
use runtime_pulse.Prelude.{
  ℕ, ◌+◌, ◌≤◌, String, ◌≡◌, refl, Bool, true, false, not, ◌&&◌, ◌||◌, List, [], ◌∷◌, ◌++◌, map, any,
  All, length, filter, nat_eq, any-append, filter-append, length-append, ◌==◌, eq_iff, arith,
}
use runtime_pulse.Core.{Continuation}
use runtime_pulse.Store.Tables.{Db, RuleRow}
use runtime_pulse.Store.Ingest.{clashes}
use runtime_pulse.Store.Ingest.Loop.{of_pair}
use runtime_pulse.Store.Ingest.Selection.{IsFlagged}

abbrev pub of_rule : String → Continuation → Bool
of_rule rule_id c = c.rule_id == rule_id

-- A continuation of the rule for another event.
abbrev pub stray : String → String → Continuation → Bool
stray rule_id event_id c = c.rule_id == rule_id && not (c.event_id == event_id)

-- No two rows clash: PRIMARY KEY (id) and UNIQUE (rule_id, event_id).
abbrev pub NoClash : List Continuation → Type 0
NoClash [] = Unit
NoClash (c ∷ l) = (any (clashes c) l ≡ false) × NoClash l

abbrev pub UniqueRules : List RuleRow → Type 0
UniqueRules [] = Unit
UniqueRules (r ∷ l) = (any (λ s. s.id == r.id) l ≡ false) × UniqueRules l

-- A one-shot rule that has a continuation is consumed, and it has one at most.
abbrev pub FiresOnce : List Continuation → RuleRow → Type 0
FiresOnce l r =
    r.one_shot ≡ 1
    → (any (of_rule r.id) l ≡ true → r.consumed ≡ 1) × (length (filter (of_rule r.id) l) ≤ 1)

pub record WellFormed (db : Db) : Type 0 where
  pub flags : All IsFlagged db.rules
  pub rule_ids : UniqueRules db.rules
  pub rows : NoClash db.continuations
  pub one_shots : All (FiresOnce db.continuations) db.rules

pub filter_none :
    {A : Type 0} (p : A → Bool) (l : List A) → any p l ≡ false → length (filter p l) ≡ 0
filter_none p [] h = refl
filter_none p (x ∷ l) h = ground (arith, filter_none p l)

pub any-of_rule :
    (rule_id event_id : String) (l : List Continuation)
    → any (of_rule rule_id) l ≡ (any (of_pair rule_id event_id) l || any (stray rule_id event_id) l)
any-of_rule rule_id event_id [] = refl
any-of_rule rule_id event_id (c ∷ l) = ground (arith, any-of_rule rule_id event_id l)

pub length-filter-snoc :
    {A : Type 0} (p : A → Bool) (l : List A) (c : A)
    → length (filter p (l ++ c ∷ [])) ≤ length (filter p l) + 1
length-filter-snoc p [] c = ground arith
length-filter-snoc p (x ∷ l) c = ground (arith, length-filter-snoc p l c)

pub length-filter-snoc_out :
    {A : Type 0} (p : A → Bool) (l : List A) (c : A)
    → p c ≡ false
    → length (filter p (l ++ c ∷ [])) ≡ length (filter p l)
length-filter-snoc_out p [] c h = ground arith
length-filter-snoc_out p (x ∷ l) c h = ground (arith, length-filter-snoc_out p l c h)

-- A row that clashes with none of the table can be added.
pub NoClash-snoc :
    (l : List Continuation) (c : Continuation)
    → any (clashes c) l ≡ false
    → NoClash l
    → NoClash (l ++ c ∷ [])
unfolding clashes
NoClash-snoc [] c h n = (refl, tt)
NoClash-snoc (d ∷ l) c h n = (
  ground (
    arith,
    any-append (clashes d) l (c ∷ []),
    n.0,
    eq_iff d.id c.id,
    eq_iff c.id d.id,
    eq_iff d.rule_id c.rule_id,
    eq_iff c.rule_id d.rule_id,
    eq_iff d.event_id c.event_id,
    eq_iff c.event_id d.event_id,
  ),
  NoClash-snoc l c (ground arith) n.1,
)
