-- ===== src/Store/OneShot/Rows.antt =====
-- The other operations on the tables keep the invariant: those that rewrite continuations, delete
-- rows, or add one.
use runtime_pulse.Prelude.{
  ◌≤◌, String, ◌≡◌, refl, Bool, true, false, List, [], ◌∷◌, ◌++◌, map, any, All, All-map,
  All-filter, All-append, All-zip, length, filter, any-append, ◌==◌, eq_iff, arith, inl, inr,
  Bool-cases,
}
use runtime_pulse.Core.{Continuation}
use runtime_pulse.Store.Tables.{Db, RuleRow}
use runtime_pulse.Store.Ingest.{clashes}
use runtime_pulse.Store.Ingest.Selection.{IsFlagged}
use runtime_pulse.Store.OneShot.{
  of_rule, NoClash, UniqueRules, FiresOnce, WellFormed, filter_none, length-filter-snoc_out,
  NoClash-snoc,
}

-- A rewriting that keeps the names of a continuation.
abbrev pub KeepsNames : (Continuation → Continuation) → Type 0
KeepsNames f =
    (c : Continuation)
    → ((f c).id ≡ c.id) × ((f c).rule_id ≡ c.rule_id) × ((f c).event_id ≡ c.event_id)

module _ (f : Continuation → Continuation) (k : KeepsNames f) where
  clashes-map : (c d : Continuation) → clashes (f c) (f d) ≡ clashes c d
  unfolding clashes
  clashes-map c d = rw ((k c).0, (k c).1, (k c).2, (k d).0, (k d).1, (k d).2)

  any-clashes-map :
      (c : Continuation) (l : List Continuation) → any (clashes (f c)) (map f l) ≡ any (clashes c) l
  any-clashes-map c [] = refl
  any-clashes-map c (d ∷ l) = rw (clashes-map c d, any-clashes-map c l)

  NoClash-map : (l : List Continuation) → NoClash l → NoClash (map f l)
  NoClash-map [] n = tt
  NoClash-map (c ∷ l) n = (rw (any-clashes-map c l) n.0, NoClash-map l n.1)

  any-rule-map :
      (id : String) (l : List Continuation) → any (of_rule id) (map f l) ≡ any (of_rule id) l
  any-rule-map id [] = refl
  any-rule-map id (c ∷ l) = ground (arith, any-rule-map id l, k c)

  filter-rule-map :
      (id : String) (l : List Continuation)
      → length (filter (of_rule id) (map f l)) ≡ length (filter (of_rule id) l)
  filter-rule-map id [] = refl
  filter-rule-map id (c ∷ l) = ground (arith, filter-rule-map id l, k c)

  pub map-WellFormed :
      {db : Db} → WellFormed db → WellFormed (record db { continuations = map f db.continuations })
  map-WellFormed {db} w = record {
    flags = w.flags;
    rule_ids = w.rule_ids;
    rows = NoClash-map db.continuations w.rows;
    one_shots =
        All-map db.rules
          (λ row once one.
            rw (any-rule-map row.id db.continuations, filter-rule-map row.id db.continuations)
              (once one))
          w.one_shots;
  }

any-filter : {A : Type 0} (q p : A → Bool) (l : List A) → any q (filter p l) ≡ true → any q l ≡ true
any-filter q p [] h = h
any-filter q p (x ∷ l) h = ground (arith, any-filter q p l)

any-filter_none :
    {A : Type 0} (q p : A → Bool) (l : List A) → any q l ≡ false → any q (filter p l) ≡ false
any-filter_none q p [] h = refl
any-filter_none q p (x ∷ l) h = ground (arith, any-filter_none q p l)

length-filter-filter :
    {A : Type 0} (q p : A → Bool) (l : List A)
    → length (filter q (filter p l)) ≤ length (filter q l)
length-filter-filter q p [] = omega arith
length-filter-filter q p (x ∷ l) = ground (arith, length-filter-filter q p l)

NoClash-filter :
    (p : Continuation → Bool) (l : List Continuation) → NoClash l → NoClash (filter p l)
NoClash-filter p [] n = tt
NoClash-filter p (c ∷ l) n = elim (Bool-cases (p c)) [
  | inl e ↦ rw e (any-filter_none (clashes c) p l n.0, NoClash-filter p l n.1)
  | inr e ↦ rw e (NoClash-filter p l n.1)
]

UniqueRules-filter :
    (p : RuleRow → Bool) (l : List RuleRow) → UniqueRules l → UniqueRules (filter p l)
UniqueRules-filter p [] n = tt
UniqueRules-filter p (c ∷ l) n = elim (Bool-cases (p c)) [
  | inl e ↦ rw e (any-filter_none (λ s. s.id == c.id) p l n.0, UniqueRules-filter p l n.1)
  | inr e ↦ rw e (UniqueRules-filter p l n.1)
]

-- Deleting continuations, as a sweep does.
pub prune-WellFormed :
    (p : Continuation → Bool) {db : Db}
    → WellFormed db
    → WellFormed (record db { continuations = filter p db.continuations })
prune-WellFormed p {db} w = record {
  flags = w.flags;
  rule_ids = w.rule_ids;
  rows = NoClash-filter p db.continuations w.rows;
  one_shots =
      All-map db.rules
        (λ row once one. (
          λ h. (once one).0 (any-filter (of_rule row.id) p db.continuations h),
          omega (arith, length-filter-filter (of_rule row.id) p db.continuations, (once one).1),
        ))
        w.one_shots;
}

-- Deleting rules.
pub disarm-WellFormed :
    (p : RuleRow → Bool) {db : Db}
    → WellFormed db
    → WellFormed (record db { rules = filter p db.rules })
disarm-WellFormed p {db} w = record {
  flags = All-filter IsFlagged p db.rules w.flags;
  rule_ids = UniqueRules-filter p db.rules w.rule_ids;
  rows = w.rows;
  one_shots = All-filter (FiresOnce db.continuations) p db.rules w.one_shots;
}

UniqueRules-snoc :
    (l : List RuleRow) (r : RuleRow)
    → any (λ s. s.id == r.id) l ≡ false
    → UniqueRules l
    → UniqueRules (l ++ r ∷ [])
UniqueRules-snoc [] r h u = (refl, tt)
UniqueRules-snoc (x ∷ l) r h u = (
  ground
      (arith, any-append (λ s. s.id == x.id) l (r ∷ []), u.0, eq_iff x.id r.id, eq_iff r.id x.id),
  UniqueRules-snoc l r (ground arith) u.1,
)

-- Arming a rule whose id is new to the rules and names no continuation.
pub arm-WellFormed :
    (r : RuleRow) {db : Db}
    → any (λ s. s.id == r.id) db.rules ≡ false
    → any (of_rule r.id) db.continuations ≡ false
    → r.consumed ≡ 0
    → WellFormed db
    → WellFormed (record db { rules = db.rules ++ r ∷ [] })
arm-WellFormed r {db} new unused zero_flag w = record {
  flags = All-append IsFlagged db.rules (r ∷ []) w.flags (omega arith, tt);
  rule_ids = UniqueRules-snoc db.rules r new w.rule_ids;
  rows = w.rows;
  one_shots = All-append (FiresOnce db.continuations) db.rules (r ∷ []) w.one_shots (
    λ one. (
      λ h. absurd (cc (h, unused)),
      omega (arith, filter_none (of_rule r.id) db.continuations unused),
    ),
    tt,
  );
}

unnamed :
    (c : Continuation) (l : List RuleRow)
    → any (λ r. r.id == c.rule_id) l ≡ false
    → All (λ r. of_rule r.id c ≡ false) l
unnamed c [] h = tt
unnamed c (r ∷ l) h =
    (ground (arith, eq_iff c.rule_id r.id, eq_iff r.id c.rule_id), unnamed c l (ground arith))

-- Adding a continuation that clashes with none and is of no rule of the table.
pub ask-WellFormed :
    (c : Continuation) {db : Db}
    → any (clashes c) db.continuations ≡ false
    → any (λ r. r.id == c.rule_id) db.rules ≡ false
    → WellFormed db
    → WellFormed (record db { continuations = db.continuations ++ c ∷ [] })
ask-WellFormed c {db} free ruleless w = record {
  flags = w.flags;
  rule_ids = w.rule_ids;
  rows = NoClash-snoc db.continuations c free w.rows;
  one_shots =
      All-map db.rules
        (λ row h one. (
          λ e.
              (h.1 one).0
                (ground (arith, any-append (of_rule row.id) db.continuations (c ∷ []), h.0)),
          omega
              (arith, length-filter-snoc_out (of_rule row.id) db.continuations c h.0, (h.1 one).1),
        ))
        (All-zip _ _ db.rules (unnamed c db.rules ruleless) w.one_shots);
}
