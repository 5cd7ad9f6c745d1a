-- ===== src/Store/Ingest/Budget.antt =====
-- The work that the tables hold: pending continuations, and rules that were not consumed yet.
use runtime_pulse.Prelude.{
  ℕ, suc, ◌+◌, ◌≤◌, String, ◌≡◌, refl, true, false, Bool, ◌&&◌, ◌||◌, List, [], ◌∷◌, ◌++◌, map, any,
  any-append, All, All-map, All-of_map, All-of_In, In-map, In-filter, any-In, All-In, length,
  filter, nat_eq, ◌==◌, eq_iff, eq_refl, arith, inl, inr, Bool-cases,
}
use runtime_pulse.Core.{Event, Rule, Continuation, TemplateEngine}
use runtime_pulse.Store.Tables.{Db, RuleRow, PayloadCodec, scan_rule}
use runtime_pulse.Store.Ingest.{selects, new_continuation, clashes, consume_row}
use runtime_pulse.Store.Ingest.Run.{after_rule, loop_db, matched, loop_start, ingested}
use runtime_pulse.Store.Ingest.Loop.{of_pair, IsFor, any-clashes, new_continuation-IsFor}
use runtime_pulse.Store.Continuations.{is_pending}

abbrev pub unconsumed : RuleRow → Bool
unconsumed r = nat_eq r.consumed 0

abbrev pub work : Db → ℕ
work db =
    length (filter (λ c. is_pending c.state) db.continuations) + length (filter unconsumed db.rules)

-- Every rule fires at most once.
abbrev pub IsOneShot : RuleRow → Type 0
IsOneShot r = r.one_shot ≡ 1

abbrev unconsumed_of : String → RuleRow → Bool
unconsumed_of id r = r.id == id && unconsumed r

consume_less :
    (id : String) (rows : List RuleRow)
    → length (filter unconsumed (map (consume_row id) rows)) ≤ length (filter unconsumed rows)
consume_less id [] = omega arith
consume_less id (r ∷ rows) = ground (arith, consume_less id rows)

consume_spends :
    (id : String) (rows : List RuleRow)
    → any (unconsumed_of id) rows ≡ true
    → suc (length (filter unconsumed (map (consume_row id) rows))) ≤ length (filter unconsumed rows)
consume_spends id [] h = absurd (cc h)
consume_spends id (r ∷ rows) h = ground (arith, consume_spends id rows, consume_less id rows)

pending_snoc :
    (l : List Continuation) (c : Continuation)
    → length (filter (λ d. is_pending d.state) (l ++ c ∷ []))
      ≤ suc (length (filter (λ d. is_pending d.state) l))
pending_snoc [] c = ground arith
pending_snoc (d ∷ l) c = ground (arith, pending_snoc l c)

consume_other :
    (id other : String) (rows : List RuleRow)
    → (other == id) ≡ false
    → any (unconsumed_of other) (map (consume_row id) rows) ≡ any (unconsumed_of other) rows
consume_other id other [] h = refl
consume_other id other (r ∷ rows) h =
    ground
      (arith, consume_other id other rows h, eq_iff r.id id, eq_iff r.id other, eq_iff other id)

-- A matched rule pays for its continuation, or has one already.
record Pays (ev : Event) (db : Db) (r : Rule) : Type 0 where
  once : r.one_shot ≡ true
  funded : (any (unconsumed_of r.id) db.rules || any (of_pair r.id ev.id) db.continuations) ≡ true

module _ (ev : Event) (r : Rule) (c : Continuation) (db : Db) (f : IsFor ev r c) where
  after_rule-work : Pays ev db r → work (after_rule r c db) ≤ work db
  unfolding after_rule
  after_rule-work p = elim (Bool-cases (any (clashes c) db.continuations)) [
    | inl e ↦ rw e (omega arith)
    | inr e ↦
        let funds : any (unconsumed_of r.id) db.rules ≡ true =
          ground (arith, any-clashes c db.continuations, f, p) in
        rw (e, p.once)
          (omega (arith, consume_spends r.id db.rules funds, pending_snoc db.continuations c))
  ]

  still_funded :
      (s : Rule)
      → (any (unconsumed_of s.id) db.rules || any (of_pair s.id ev.id) db.continuations) ≡ true
      → (any (unconsumed_of s.id) (map (consume_row r.id) db.rules)
          || any (of_pair s.id ev.id) (db.continuations ++ c ∷ []))
        ≡ true
  still_funded s h = elim (Bool-cases (s.id == r.id)) [
    | inl e ↦ rw (any-append (of_pair s.id ev.id) db.continuations (c ∷ [])) (
        ground (
          arith,
          f,
          eq_iff s.id r.id,
          eq_refl ev.id,
          eq_iff c.rule_id s.id,
          eq_iff c.event_id ev.id,
        ))
    | inr e ↦
        rw
          (
            consume_other r.id s.id db.rules e,
            any-append (of_pair s.id ev.id) db.continuations (c ∷ []),
          )
          (ground (arith, h))
  ]

  after_rule-Pays : r.one_shot ≡ true → (s : Rule) → Pays ev db s → Pays ev (after_rule r c db) s
  unfolding after_rule
  after_rule-Pays one s p = elim (Bool-cases (any (clashes c) db.continuations)) [
    | inl e ↦ rw e p
    | inr e ↦ rw (e, one) (record { once = p.once; funded = still_funded s p.funded })
  ]

module _ (t : TemplateEngine) (ev : Event) (now : ℕ) where
  loop-work :
      (ids : ℕ → String) (rs : List Rule) (db : Db)
      → All (Pays ev db) rs
      → work (loop_db t ev now ids rs db) ≤ work db
  unfolding loop_db
  loop-work ids [] db p = omega arith
  loop-work ids (r ∷ rs) db p =
      let c = new_continuation t ev now (ids 0) r in
      let f : IsFor ev r c = new_continuation-IsFor t ev now (ids 0) r in
      omega (
        arith,
        after_rule-work ev r c db f p.0,
        loop-work (λ n. ids (suc n)) rs (after_rule r c db)
            (All-map rs (λ s k. after_rule-Pays ev r c db f p.0.once s k) p.1),
      )

  after_rule-IsOneShot :
      (r : Rule) (c : Continuation) (db : Db)
      → All IsOneShot db.rules
      → All IsOneShot (after_rule r c db).rules
  unfolding after_rule
  after_rule-IsOneShot r c db h = elim (Bool-cases (any (clashes c) db.continuations)) [
    | inl e ↦ rw e h
    | inr e ↦ elim (Bool-cases r.one_shot) [
      | inl o ↦
          rw (e, o)
            (All-of_map IsOneShot IsOneShot (consume_row r.id) db.rules
              (λ row (k : IsOneShot row). ground arith) h)
      | inr o ↦ rw (e, o) h
    ]
  ]

  loop-IsOneShot :
      (ids : ℕ → String) (rs : List Rule) (db : Db)
      → All IsOneShot db.rules
      → All IsOneShot (loop_db t ev now ids rs db).rules
  unfolding loop_db
  loop-IsOneShot ids [] db h = h
  loop-IsOneShot ids (r ∷ rs) db h =
      let c = new_continuation t ev now (ids 0) r in
      loop-IsOneShot (λ n. ids (suc n)) rs (after_rule r c db) (after_rule-IsOneShot r c db h)

matched-Pays :
    (ev : Event) (now : ℕ) (db start : Db)
    → start.rules ≡ db.rules
    → All IsOneShot db.rules
    → All (Pays ev start) (matched ev now db)
unfolding selects scan_rule
matched-Pays ev now db start er ones = All-of_In (Pays ev start) (matched ev now db) λ r i.
    let (row, j, e) = In-map scan_rule r (filter (selects ev now) db.rules) i in
    let kept = (In-filter (selects ev now) row db.rules).0 j in
    let one : IsOneShot row = All-In IsOneShot row db.rules ones kept.0 in
    let funds : any (unconsumed_of r.id) db.rules ≡ true =
      any-In (unconsumed_of r.id) row db.rules kept.0 (ground (arith, kept.1, e, eq_refl row.id)) in
    record { once = ground (arith, e); funded = rw er (ground (arith, funds)) }

-- Rules that fire once each cannot make more work than there was.
pub ingested-work :
    (t : TemplateEngine) (codec : PayloadCodec) (ev : Event) (now : ℕ) (ids : ℕ → String)
    (payload : String) (db : Db)
    → All IsOneShot db.rules
    → (work (ingested t codec ev now ids payload db) ≤ work db)
      × All IsOneShot (ingested t codec ev now ids payload db).rules
ingested-work t codec ev now ids payload db ones =
    let start = loop_start t codec ev now ids payload db in
    (
      loop-work t ev now ids (matched ev now db) start (matched-Pays ev now db start refl ones),
      loop-IsOneShot t ev now ids (matched ev now db) start ones,
    )
