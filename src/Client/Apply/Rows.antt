-- ===== src/Client/Apply/Rows.antt =====
-- cmd/runtimepulse/cmd_apply.go: rows of rules that are added and removed by their ids.
use runtime_pulse.Prelude.{
  String, ◌≡◌, refl, ap, ◌∙◌, true, false, not, List, [], ◌∷◌, ◌++◌, any, any-append, All, filter,
  filter-append, append_nil, append_assoc, All-append, ◌==◌, eq_iff, eq_refl, arith, inl, inr,
  Bool-cases,
}
use runtime_pulse.Store.Tables.{RuleRow}

-- The rows without those that are removed.
abbrev pub without : List String → List RuleRow → List RuleRow
without [] l = l
without (id ∷ ids) l = without ids (filter (λ r. not (r.id == id)) l)

filter_absent :
    (id : String) (l : List RuleRow)
    → any (λ r. r.id == id) l ≡ false
    → filter (λ r. not (r.id == id)) l ≡ l
filter_absent id [] h = refl
filter_absent id (r ∷ l) h = ground (arith, filter_absent id l)

without_absent :
    (ids : List String) (l : List RuleRow)
    → All (λ id. any (λ r. r.id == id) l ≡ false) ids
    → without ids l ≡ l
without_absent [] l h = refl
without_absent (id ∷ ids) l h = rw (filter_absent id l h.0) (without_absent ids l h.1)

without-append :
    (ids : List String) (l more : List RuleRow)
    → without ids (l ++ more) ≡ without ids l ++ without ids more
without-append [] l more = refl
without-append (id ∷ ids) l more =
    rw (filter-append (λ r. not (r.id == id)) l more) (without-append ids _ _)

-- Each row has one of the ids.
abbrev pub Covered : List String → List RuleRow → Type 0
Covered ids = All (λ r. any (λ id. id == r.id) ids ≡ true)

Covered-filter :
    (id : String) (ids : List String) (l : List RuleRow)
    → Covered (id ∷ ids) l
    → Covered ids (filter (λ r. not (r.id == id)) l)
Covered-filter id ids [] h = tt
Covered-filter id ids (r ∷ l) h = elim (Bool-cases (r.id == id)) [
  | inl e ↦ rw e (Covered-filter id ids l h.1)
  | inr e ↦ rw e (ground (arith, h.0, eq_iff id r.id, eq_iff r.id id), Covered-filter id ids l h.1)
]

without-Covered : (ids : List String) (l : List RuleRow) → Covered ids l → without ids l ≡ []
without-Covered [] [] h = refl
without-Covered [] (r ∷ l) h = absurd (cc (h.0))
without-Covered (id ∷ ids) l h = without-Covered ids _ (Covered-filter id ids l h)

-- The rows that were there, those that were added, and the ids of the latter.
pub record Undoable (base : List RuleRow) (created : List String) (rules : List RuleRow)
    : Type 0 where
  pub more : List RuleRow
  pub split : rules ≡ base ++ more
  pub covered : Covered created more
  pub foreign : All (λ id. any (λ r. r.id == id) base ≡ false) created

pub undone :
    (base rules : List RuleRow) (created : List String)
    → Undoable base created rules
    → without created rules ≡ base
undone base rules created u =
    rw
      (
        u.split,
        without-append created base u.more,
        without_absent created base u.foreign,
        without-Covered created u.more u.covered,
      )
      (append_nil base)

Covered-more :
    (ids : List String) (id : String) (l : List RuleRow)
    → Covered ids l
    → Covered (ids ++ id ∷ []) l
Covered-more ids id [] h = tt
Covered-more ids id (r ∷ l) h = (
  rw (any-append (λ x. x == r.id) ids (id ∷ [])) (ground (arith, h.0)),
  Covered-more ids id l h.1,
)

pub Undoable-snoc :
    (base rules : List RuleRow) (created : List String) (r : RuleRow)
    → any (λ s. s.id == r.id) rules ≡ false
    → Undoable base created rules
    → Undoable base (created ++ r.id ∷ []) (rules ++ r ∷ [])
Undoable-snoc base rules created r new u = record {
  more = u.more ++ r ∷ [];
  split = ap (λ l. l ++ r ∷ []) u.split ∙ append_assoc base u.more (r ∷ []);
  covered =
      All-append (λ s. any (λ id. id == s.id) (created ++ r.id ∷ []) ≡ true) u.more (r ∷ [])
        (Covered-more created r.id u.more u.covered)
        (rw (any-append (λ x. x == r.id) created (r.id ∷ [])) (ground (arith, eq_refl r.id)), tt);
  foreign =
      All-append (λ id. any (λ s. s.id == id) base ≡ false) created (r.id ∷ []) u.foreign
        (ground (arith, u.split, any-append (λ s. s.id == r.id) base u.more), tt);
}
