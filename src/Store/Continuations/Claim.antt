-- ===== src/Store/Continuations/Claim.antt =====
-- ClaimContinuation of store/continuations.go: claims and the state of the row.
use runtime_pulse.Prelude.{
  ℕ, String, ◌≡◌, refl, Bool, false, List, [], ◌∷◌, map, any, length, filter, ok, UniqueBy, ◌==◌,
  eq_iff, arith, if◌then◌else◌,
}
use runtime_pulse.Core.{Continuation}
use runtime_pulse.Store.Tables.{Db}
use runtime_pulse.Store.Sql.{exec, run}
use runtime_pulse.Store.Continuations.{claimable, claim_row, claim_rows, claim_continuation}

-- PRIMARY KEY: no two rows of the table share an id.
abbrev pub UniqueIds : List Continuation → Type 0
UniqueIds = UniqueBy (λ c. c.id)

claimable-absent :
    (id : String) (l : List Continuation)
    → any (λ d. d.id == id) l ≡ false
    → length (filter (claimable id) l) ≡ 0
claimable-absent id [] h = refl
claimable-absent id (c ∷ l) h = ground (arith, claimable-absent id l)

-- With unique ids a claim changes one row, or none.
claimed_rows :
    (id : String) (l : List Continuation)
    → UniqueIds l
    → length (filter (claimable id) l) ≡ (if any (claimable id) l then 1 else 0)
claimed_rows id [] u = refl
claimed_rows id (c ∷ l) u =
    ground (arith, claimed_rows id l u.1, claimable-absent id l, eq_iff c.id id, u.0)

claimed_none :
    (id : String) (now : ℕ) (l : List Continuation)
    → any (claimable id) (map (claim_row id now) l) ≡ false
claimed_none id now [] = refl
claimed_none id now (c ∷ l) = ground (arith, claimed_none id now l)

filter_none {ℓ} :
    {A : Type ℓ} (p : A → Bool) (l : List A) → any p l ≡ false → length (filter p l) ≡ 0
filter_none p [] h = refl
filter_none p (x ∷ l) h = ground (arith, filter_none p l)

map_idle :
    (id : String) (now : ℕ) (l : List Continuation)
    → any (claimable id) l ≡ false
    → map (claim_row id now) l ≡ l
map_idle id now [] h = refl
map_idle id now (c ∷ l) h = ground (arith, map_idle id now l)

-- A claim succeeds exactly if the row of that id is pending, provided that ids are unique; and
-- whatever it returned, a second claim of the id returns false and changes nothing.
pub claim_exclusive :
    (id : String) (now later : ℕ) (db db' : Db) (claimed : Bool)
    → UniqueIds db.continuations
    → run (claim_continuation id now) db ≡ ok (claimed, db')
    → (claimed ≡ any (claimable id) db.continuations)
      × (run (claim_continuation id later) db' ≡ ok (false, db'))
unfolding claim_continuation claim_rows exec
claim_exclusive id now later db db' claimed u h =
    let rows : db'.continuations ≡ map (claim_row id now) db.continuations = ground arith in
    let none_left : any (claimable id) db'.continuations ≡ false =
      rw rows (claimed_none id now db.continuations) in
    (
      ground (arith, claimed_rows id db.continuations u),
      rw (
        filter_none (claimable id) db'.continuations none_left,
        map_idle id later db'.continuations none_left,
      ),
    )
