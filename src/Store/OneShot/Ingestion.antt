-- ===== src/Store/OneShot/Ingestion.antt =====
-- The outbox transaction and the invariant.
use runtime_pulse.Prelude.{
  ℕ, suc, String, ◌≡◌, refl, sym, subst, ◌∙◌, true, false, List, [], ◌∷◌, ◌++◌, map, any, All,
  All-map, All-zip, All-of_map, All-of_In, In-map, In-filter, In, All-In, any-In, filter, nat_eq,
  any-append, ◌==◌, eq_iff, arith, inl, inr, Bool-cases, if◌then◌else◌, ok,
}
use runtime_pulse.Core.{Event, Rule, Continuation, TemplateEngine}
use runtime_pulse.Store.Tables.{Db, RuleRow, PayloadCodec, scan_rule}
use runtime_pulse.Store.Sql.{run}
use runtime_pulse.Store.Ingest.{
  IngestResult, ingest, selects, new_continuation, clashes, consume_row,
}
use runtime_pulse.Store.Ingest.Run.{after_rule, loop_db, matched, ingest_ok, loop_start}
use runtime_pulse.Store.Ingest.Loop.{IsFor, any-clashes, new_continuation-IsFor}
use runtime_pulse.Store.Ingest.Selection.{IsFlagged}
use runtime_pulse.Store.OneShot.{
  of_rule, stray, UniqueRules, FiresOnce, WellFormed, filter_none, any-of_rule, length-filter-snoc,
  length-filter-snoc_out, NoClash-snoc,
}

-- The row of a rule that was read before has the flag that was read.
abbrev SameFlag : Rule → RuleRow → Type 0
SameFlag r row = row.id ≡ r.id → nat_eq row.one_shot 1 ≡ r.one_shot

abbrev after_row : Rule → RuleRow → RuleRow
after_row r row = if r.one_shot then consume_row r.id row else row

-- A rule that is still to be handled: its rows carry its flag, and if it is one-shot, all its
-- continuations are for this event.
record Ready (ev : Event) (db : Db) (r : Rule) : Type 0 where
  same : All (SameFlag r) db.rules
  here : r.one_shot ≡ true → any (stray r.id ev.id) db.continuations ≡ false

module _ (ev : Event) (r : Rule) (c : Continuation) (l : List Continuation) (row : RuleRow) where
  -- The rows of other rules.
  FiresOnce-other :
      (row.id == r.id) ≡ false
      → IsFor ev r c
      → FiresOnce l row
      → FiresOnce (l ++ c ∷ []) (after_row r row)
  FiresOnce-other e f once =
      let idle : after_row r row ≡ row = ground arith in
      let out : of_rule row.id c ≡ false =
        ground (arith, eq_iff row.id r.id, eq_iff c.rule_id row.id) in
      rw idle λ one. (
        ground (arith, any-append (of_rule row.id) l (c ∷ []), once one, out),
        omega (arith, length-filter-snoc_out (of_rule row.id) l c out, once one),
      )

  -- The rows of the rule itself.
  FiresOnce-self :
      row.id ≡ r.id
      → IsFor ev r c
      → any (clashes c) l ≡ false
      → (r.one_shot ≡ true → any (stray r.id ev.id) l ≡ false)
      → SameFlag r row
      → FiresOnce (l ++ c ∷ []) (after_row r row)
  FiresOnce-self e f free here same one =
      let flag : row.one_shot ≡ 1 = ground arith in
      let shot : r.one_shot ≡ true = ground (arith, same e) in
      let none_yet : any (of_rule r.id) l ≡ false =
        ground (arith, any-of_rule r.id ev.id l, here shot, any-clashes c l, f) in
      let id : (after_row r row).id ≡ r.id = ground arith in
      (
        λ _. ground (arith, eq_iff row.id r.id),
        rw id (
            omega (
              arith,
              length-filter-snoc (of_rule r.id) l c,
              filter_none (of_rule r.id) l none_yet,
            )),
      )

  FiresOnce-after :
      IsFor ev r c
      → any (clashes c) l ≡ false
      → (r.one_shot ≡ true → any (stray r.id ev.id) l ≡ false)
      → SameFlag r row
      → FiresOnce l row
      → FiresOnce (l ++ c ∷ []) (after_row r row)
  FiresOnce-after f free here same once = elim (Bool-cases (row.id == r.id)) [
    | inl e ↦ FiresOnce-self ((eq_iff row.id r.id).0 e) f free here same
    | inr e ↦ FiresOnce-other e f once
  ]

abbrev after_rows : Rule → List RuleRow → List RuleRow
after_rows r rows = if r.one_shot then map (consume_row r.id) rows else rows

module _ (P Q : RuleRow → Type 0) (r : Rule)
    (step : (row : RuleRow) → P row → Q (after_row r row)) where
  All-after_rows : (rows : List RuleRow) → All P rows → All Q (after_rows r rows)
  All-after_rows rows h = elim (Bool-cases r.one_shot) [
    | inl e ↦ rw e (All-of_map P Q (consume_row r.id) rows (λ row p. rw e at (step row p)) h)
    | inr e ↦ rw e (All-map rows (λ row p. rw e at (step row p)) h)
  ]

any-id-consume :
    (id rule_id : String) (rows : List RuleRow)
    → any (λ s. s.id == rule_id) (map (consume_row id) rows) ≡ any (λ s. s.id == rule_id) rows
any-id-consume id rule_id [] = refl
any-id-consume id rule_id (row ∷ rows) = ground (arith, any-id-consume id rule_id rows)

UniqueRules-consume :
    (id : String) (rows : List RuleRow) → UniqueRules rows → UniqueRules (map (consume_row id) rows)
UniqueRules-consume id [] u = tt
UniqueRules-consume id (row ∷ rows) u =
    (ground (arith, any-id-consume id row.id rows, u.0), UniqueRules-consume id rows u.1)

UniqueRules-after :
    (r : Rule) (rows : List RuleRow) → UniqueRules rows → UniqueRules (after_rows r rows)
UniqueRules-after r rows u = elim (Bool-cases r.one_shot) [
  | inl e ↦ rw e (UniqueRules-consume r.id rows u)
  | inr e ↦ rw e u
]

-- A round that adds a row, as a record.
after_rule_adds :
    (r : Rule) (c : Continuation) (db : Db)
    → any (clashes c) db.continuations ≡ false
    → after_rule r c db
      ≡ record db { continuations = db.continuations ++ c ∷ []; rules = after_rows r db.rules }
unfolding after_rule
after_rule_adds r c db h = rw h

after_rule_skips :
    (r : Rule) (c : Continuation) (db : Db)
    → any (clashes c) db.continuations ≡ true
    → after_rule r c db ≡ db
unfolding after_rule
after_rule_skips r c db h = rw h

module _ (ev : Event) (r : Rule) (c : Continuation) (db : Db) (f : IsFor ev r c) where
  WellFormed-after_rule : WellFormed db → Ready ev db r → WellFormed (after_rule r c db)
  WellFormed-after_rule w g = elim (Bool-cases (any (clashes c) db.continuations)) [
    | inl e ↦ rw (after_rule_skips r c db e) w
    | inr e ↦ rw (after_rule_adds r c db e) (record {
      flags = All-after_rows IsFlagged IsFlagged r (λ row h. ground arith) db.rules w.flags;
      rule_ids = UniqueRules-after r db.rules w.rule_ids;
      rows = NoClash-snoc db.continuations c e w.rows;
      one_shots =
          All-after_rows (λ row. SameFlag r row × FiresOnce db.continuations row)
            (FiresOnce (db.continuations ++ c ∷ [])) r
            (λ row h. FiresOnce-after ev r c db.continuations row f e g.here h.0 h.1) db.rules
            (All-zip (SameFlag r) (FiresOnce db.continuations) db.rules g.same w.one_shots);
    })
  ]

  Ready-after_rule : (s : Rule) → Ready ev db s → Ready ev (after_rule r c db) s
  Ready-after_rule s g = elim (Bool-cases (any (clashes c) db.continuations)) [
    | inl e ↦ rw (after_rule_skips r c db e) g
    | inr e ↦ rw (after_rule_adds r c db e) (record {
      same =
          All-after_rows (SameFlag s) (SameFlag s) r (λ row h e. ground (arith, h)) db.rules g.same;
      here = λ shot. ground (
        arith,
        any-append (stray s.id ev.id) db.continuations (c ∷ []),
        g.here shot,
        f,
        eq_iff c.event_id ev.id,
      );
    })
  ]

loop-WellFormed :
    (t : TemplateEngine) (ev : Event) (now : ℕ) (ids : ℕ → String) (rs : List Rule) (db : Db)
    → WellFormed db
    → All (Ready ev db) rs
    → WellFormed (loop_db t ev now ids rs db)
unfolding loop_db
loop-WellFormed t ev now ids [] db w g = w
loop-WellFormed t ev now ids (r ∷ rs) db w g =
    let c = new_continuation t ev now (ids 0) r in
    let f : IsFor ev r c = new_continuation-IsFor t ev now (ids 0) r in
    loop-WellFormed t ev now (λ n. ids (suc n)) rs (after_rule r c db)
      (WellFormed-after_rule ev r c db f w g.0)
      (All-map rs (λ s k. Ready-after_rule ev r c db f s k) g.1)

-- PRIMARY KEY: a rule's id names one row.
unique_row :
    (a b : RuleRow) (l : List RuleRow) → UniqueRules l → In a l → In b l → a.id ≡ b.id → a ≡ b
unique_row a b [] u i j e = absurd i
unique_row a b (x ∷ l) u (inl p) (inl q) e = p ∙ sym q
unique_row a b (x ∷ l) u (inl p) (inr j) e =
    absurd (cc (any-In (λ s. s.id == x.id) b l j (ground (arith, eq_iff b.id x.id)), u.0))
unique_row a b (x ∷ l) u (inr i) (inl q) e =
    absurd (cc (any-In (λ s. s.id == x.id) a l i (ground (arith, eq_iff a.id x.id)), u.0))
unique_row a b (x ∷ l) u (inr i) (inr j) e = unique_row a b l u.1 i j e

-- The rules that the query returns are ready for the loop.
matched-Ready :
    (ev : Event) (now : ℕ) (db : Db) (start : Db)
    → start.rules ≡ db.rules
    → start.continuations ≡ db.continuations
    → WellFormed db
    → All (Ready ev start) (matched ev now db)
unfolding selects scan_rule
matched-Ready ev now db start er ec w = All-of_In (Ready ev start) (matched ev now db) λ r i.
    let (row, j, e) = In-map scan_rule r (filter (selects ev now) db.rules) i in
    let kept = (In-filter (selects ev now) row db.rules).0 j in
    let once : FiresOnce db.continuations row =
      All-In (FiresOnce db.continuations) row db.rules w.one_shots kept.0 in
    record {
      same = rw er (
          All-of_In (SameFlag r) db.rules λ other k same_id.
            let one_row : other ≡ row =
              unique_row other row db.rules w.rule_ids k kept.0 (ground (arith, e)) in
            ground (arith, e, one_row));
      here = λ shot.
          rw ec (ground (arith, e, once, kept.1, any-of_rule row.id ev.id db.continuations));
    }

-- A successful ingestion keeps the invariant, whatever ids are drawn.
pub ingest-WellFormed :
    (t : TemplateEngine) (codec : PayloadCodec) (ev : Event) (now : ℕ) (ids : ℕ → String)
    (db db' : Db) (res : IngestResult)
    → WellFormed db
    → run (ingest t codec ev now ids) db ≡ ok (res, db')
    → WellFormed db'
ingest-WellFormed t codec ev now ids db db' res w h =
    let (payload, has_id, encoded, er, ed) = ingest_ok t codec ev now ids db res db' h in
    let start = loop_start t codec ev now ids payload db in
    let begun : WellFormed start = record {
      flags = w.flags;
      rule_ids = w.rule_ids;
      rows = w.rows;
      one_shots = w.one_shots;
    } in
    subst WellFormed (sym ed) (
      loop-WellFormed t ev now ids (matched ev now db) start begun
        (matched-Ready ev now db start refl refl w))
