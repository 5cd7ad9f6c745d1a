-- ===== src/Setup/Config/Leaves.antt =====
-- internal/setup/jsonmerge.go: the values of a configuration, by their paths of keys.
use runtime_pulse.Prelude.{
  String, ◌≡◌, refl, sym, false, Option, none, some, List, [], ◌∷◌, ◌==◌, eq_refl, eq_iff, arith,
}
use runtime_pulse.Setup.Config.{
  Json, object, quoted, scalar, Fields, no_fields, field, lookup, assign, section_of,
}

pub lookup-assign : (key : String) (v : Json) (l : Fields) → lookup key (assign key v l) ≡ some v
unfolding lookup assign
lookup-assign key v no_fields = ground (arith, eq_refl key)
lookup-assign key v (field k w l) = ground (arith, lookup-assign key v l)

pub lookup-assign_other :
    (key other : String) (v : Json) (l : Fields)
    → (key == other) ≡ false
    → lookup other (assign key v l) ≡ lookup other l
unfolding lookup assign
lookup-assign_other key other v no_fields h = ground arith
lookup-assign_other key other v (field k w l) h =
    ground (arith, lookup-assign_other key other v l h, eq_iff k key)

pub data Leaf : Type 0 where
  inner : Leaf
  text token : String → Leaf

-- What stands at the end of a path of keys: a value that is no object by its text, or an object.
unfoldable pub leaf : List String → Json → Option Leaf
leaf [] (object l) = some inner
leaf [] (quoted s) = some (text s)
leaf [] (scalar s) = some (token s)
leaf (k ∷ path) (object l) = elim (lookup k l) [ none ↦ none | some v ↦ leaf path v ]
leaf (k ∷ path) _ = none

abbrev inside : List String → Option Json → Option Leaf
inside path o = elim o [ none ↦ none | some v ↦ leaf path v ]

abbrev pub leaf_of : List String → Option Json → Option Leaf
leaf_of path none = none
leaf_of path (some v) = leaf path v

through : (path : List String) (o : Option Json) → inside path o ≡ leaf_of path o
through path none = refl
through path (some v) = refl

pub leaf-cons :
    (k : String) (path : List String) (l : Fields)
    → leaf (k ∷ path) (object l) ≡ leaf_of path (lookup k l)
unfolding leaf
leaf-cons k path l = through path (lookup k l)

abbrev pub IsFlat : Json → Type 0
IsFlat (object l) = ⊥
IsFlat _ = Unit

pub leaf_exists : (j : Json) → leaf [] j ≡ none → ⊥
unfolding leaf
leaf_exists (object l) h = absurd (cc h)
leaf_exists (quoted s) h = absurd (cc h)
leaf_exists (scalar s) h = absurd (cc h)

pub leaf_flat : (name : String) (j : Json) → IsFlat j → leaf (name ∷ []) j ≡ none
unfolding leaf
leaf_flat name (object l) h = absurd h
leaf_flat name (quoted s) h = refl
leaf_flat name (scalar s) h = refl

pub section-leaf :
    (key : String) (path : List String) (o : Option Json)
    → leaf_of path (lookup key (section_of o)) ≡ leaf_of (key ∷ path) o
unfolding leaf lookup
section-leaf key path none = refl
section-leaf key path (some (quoted s)) = refl
section-leaf key path (some (scalar s)) = refl
section-leaf key path (some (object l)) = sym (leaf-cons key path l)
