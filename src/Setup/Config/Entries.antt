-- ===== src/Setup/Config/Entries.antt =====
-- internal/setup/jsonmerge.go: what a merge writes, and what it leaves.
use runtime_pulse.Prelude.{
  String, ◌≡◌, refl, sym, ap, ◌∙◌, true, false, Option, none, some, List, [], ◌∷◌, ◌++◌, Result, ok,
  ◌==◌, eq_refl, inl, inr, Option-cases, Result-cases,
}
use runtime_pulse.Setup.{
  Text, Found, missing, unreadable, present, Disk, written_over, atomic_write,
}
use runtime_pulse.Setup.Block.{line_end}
use runtime_pulse.Setup.Config.{
  Json, object, quoted, scalar, Fields, no_fields, lookup, assign, JsonCodec, section_of,
  with_entry, merge_decoded, merge_into, merge_json_server, has_json_server, has_found, has_entry,
}
use runtime_pulse.Setup.Config.Leaves.{
  leaf, leaf_of, leaf-cons, section-leaf, leaf_exists, leaf_flat, lookup-assign,
  lookup-assign_other,
}

-- What decoding finds of what was there: an object, or nothing yet.
abbrev pub Held : JsonCodec → Found → Fields → Type 0
Held codec missing root = root ≡ no_fields
Held codec (unreadable e) root = ⊥
Held codec (present content) root = codec.decode content ≡ ok (some root)

-- The new object is that of before, but for the entry.
pub record Extends (section name : String) (entry : Json) (root root' : Fields) : Type 0 where
  pub keys :
      (key : String) (path : List String)
      → (section == key) ≡ false
      → leaf (key ∷ path) (object root') ≡ leaf (key ∷ path) (object root)
  pub names :
      (key : String) (path : List String)
      → (name == key) ≡ false
      → leaf (section ∷ key ∷ path) (object root') ≡ leaf (section ∷ key ∷ path) (object root)
  pub there : (path : List String) → leaf (section ∷ name ∷ path) (object root') ≡ leaf path entry

with_entry-Extends :
    (section name : String) (entry : Json) (root : Fields)
    → Extends section name entry root (with_entry section name entry root)
unfolding with_entry
with_entry-Extends section name entry root =
    let old = section_of (lookup section root) in
    let root' = assign section (object (assign name entry old)) root in
    let at = lookup-assign section (object (assign name entry old)) root in
    let within : (key : String) (path : List String)
        → leaf (section ∷ key ∷ path) (object root')
          ≡ leaf_of path (lookup key (assign name entry old)) =
      λ key path.
        leaf-cons section (key ∷ path) root'
        ∙ ap (leaf_of (key ∷ path)) at
        ∙ leaf-cons key path (assign name entry old) in
    record {
      keys = λ key path h.
          leaf-cons key path root'
          ∙ ap (leaf_of path) (lookup-assign_other section key _ root h)
          ∙ sym (leaf-cons key path root);
      names = λ key path h.
          within key path
          ∙ ap (leaf_of path) (lookup-assign_other name key entry old h)
          ∙ section-leaf key path (lookup section root)
          ∙ sym (leaf-cons section (key ∷ path) root);
      there = λ path. within name path ∙ ap (leaf_of path) (lookup-assign name entry old);
    }

held_entry :
    (name : String) (o : Option Json) (entry : Json)
    → leaf_of (name ∷ []) o ≡ leaf [] entry
    → has_entry name o ≡ true
held_entry name none entry h = absurd (leaf_exists entry (sym h))
held_entry name (some (quoted s)) entry h =
    absurd (leaf_exists entry (sym h ∙ leaf_flat name (quoted s) tt))
held_entry name (some (scalar s)) entry h =
    absurd (leaf_exists entry (sym h ∙ leaf_flat name (scalar s) tt))
held_entry name (some (object l)) entry h = elim (Option-cases (lookup name l)) [
  | inl e ↦ absurd (leaf_exists entry (sym h ∙ leaf-cons name [] l ∙ ap (leaf_of []) e))
  | inr (v, e) ↦ rw e refl
]

-- What is encoded is read back, by a Decoder as by Unmarshal, to an object with the same leaves, the
-- newline behind it notwithstanding.
abbrev pub ReadsBack : JsonCodec → Type 0
ReadsBack codec =
    (l : Fields) (out : Text)
    → codec.encode l ≡ ok out
    → (l' : Fields) × (codec.decode (out ++ line_end) ≡ ok (some l'))
      × (codec.unmarshal (out ++ line_end) ≡ ok (some l'))
      × ((path : List String) → leaf path (object l') ≡ leaf path (object l))

-- What a merge that succeeds leaves of what was found.
record Merged (codec : JsonCodec) (section name : String) (entry : Json) (found left : Found)
    : Type 0 where
  root : Fields
  root' : Fields
  out : Text
  held : Held codec found root
  stored : left ≡ present out
  seen : codec.unmarshal out ≡ ok (some root')
  extends : Extends section name entry root root'

Extends-same :
    (section name : String) (entry : Json) (root root' root'' : Fields)
    → ((path : List String) → leaf path (object root'') ≡ leaf path (object root'))
    → Extends section name entry root root'
    → Extends section name entry root root''
Extends-same section name entry root root' root'' same e = record {
  keys = λ key path h. same (key ∷ path) ∙ e.keys key path h;
  names = λ key path h. same (section ∷ key ∷ path) ∙ e.names key path h;
  there = λ path. same (section ∷ name ∷ path) ∙ e.there path;
}

module _ (codec : JsonCodec) (path section name : String) (entry : Json)
    (faithful : ReadsBack codec) where
  decoded-Merged :
      (found : Found) (root : Fields) (d d' : Disk)
      → Held codec found root
      → merge_decoded codec path section name entry (ok (some root)) d ≡ (ok tt, d')
      → Merged codec section name entry found (d'.files path)
        × ((p : String) → (p == path) ≡ false → d'.files p ≡ d.files p)
  unfolding atomic_write
  decoded-Merged found root d d' held h =
      let root' = with_entry section name entry root in
      elim (Result-cases (codec.encode root')) [
        | inl (e, bad) ↦ absurd (cc (rw bad at h))
        | inr (out, good) ↦ elim (Option-cases (d.write_fault path)) [
          | inr (e, fault) ↦ absurd (cc (rw (good, fault) at h))
          | inl fine ↦
              let (root'', back, seen, same) = faithful root' out good in
              let left : ◌≡◌ {A = Result (Unit {0}) × Disk}
                  (ok tt, written_over path (out ++ line_end) d) (ok tt, d') =
                rw (good, fine) at h in
              let now : d' ≡ written_over path (out ++ line_end) d = ap (λ x. x.1) (sym left) in
              (
                record {
                  root = root;
                  root' = root'';
                  out = out ++ line_end;
                  held = held;
                  stored = ap (λ x. x.files path) now ∙ rw (eq_refl path) refl;
                  seen = seen;
                  extends =
                      Extends-same section name entry root root' root'' same
                        (with_entry-Extends section name entry root);
                },
                λ p n. ap (λ x. x.files p) now ∙ rw n refl,
              )
        ]
      ]

  found-Merged :
      (found : Found) (d d' : Disk)
      → merge_into codec path section name entry found d ≡ (ok tt, d')
      → Merged codec section name entry found (d'.files path)
        × ((p : String) → (p == path) ≡ false → d'.files p ≡ d.files p)
  found-Merged missing d d' h = decoded-Merged missing no_fields d d' refl h
  found-Merged (unreadable e) d d' h = absurd (cc h)
  found-Merged (present content) d d' h = elim (Result-cases (codec.decode content)) [
    | inl (e, bad) ↦ absurd (cc (rw bad at h))
    | inr (o, good) ↦ elim (Option-cases o) [
      | inl n ↦ absurd (cc (rw (good, n) at h))
      | inr (root, s) ↦
          let held : codec.decode content ≡ ok (some root) = good ∙ ap ok s in
          decoded-Merged (present content) root d d' held (rw held at h)
    ]
  ]

  registered :
      (left : Found) (found : Found)
      → Merged codec section name entry found left
      → has_found codec section name left ≡ true
  registered left found m =
      rw (m.stored, m.seen)
        (held_entry name (lookup section m.root') entry
          (sym (leaf-cons section (name ∷ []) m.root') ∙ m.extends.there []))

  -- A merge that succeeds registers the server: hasJSONServer finds it then. Whatever stood in the
  -- file under another key, or under another name of the section, is there as it was, and no other
  -- file changes. This supposes that what is encoded is read back to an object with the same leaves.
  pub merge_registers :
      (d d' : Disk)
      → merge_json_server codec path section name entry d ≡ (ok tt, d')
      → (has_json_server codec path section name d' ≡ true)
        × ((root root' : Fields) × (out : Text) × Held codec (d.files path) root
            × (d'.files path ≡ present out)
            × (codec.unmarshal out ≡ ok (some root'))
            × Extends section name entry root root')
        × ((p : String) → (p == path) ≡ false → d'.files p ≡ d.files p)
  unfolding merge_json_server has_json_server
  merge_registers d d' h =
      let (m, others) = found-Merged (d.files path) d d' h in
      (
        registered (d'.files path) (d.files path) m,
        (m.root, m.root', m.out, m.held, m.stored, m.seen, m.extends),
        others,
      )
