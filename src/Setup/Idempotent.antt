-- ===== src/Setup/Idempotent.antt =====
-- internal/setup/rules.go: mergeMarkerBlock, once and again.
use runtime_pulse.Prelude.{
  ℕ, ◌≤◌, String, ◌≡◌, ◌⊎◌, refl, sym, ap, ◌∙◌, Bool, true, false, none, some, [], ◌++◌, leb,
  Result, ok, eq_refl, arith, inl, inr, Bool-cases, Option-cases,
}
use runtime_pulse.Setup.{
  Text, Found, missing, unreadable, present, Disk, written_over, atomic_write,
}
use runtime_pulse.Setup.Texts.{same_text, index, trim_right}
use runtime_pulse.Setup.Occurrences.{IsBlank, trimmed}
use runtime_pulse.Setup.Markers.{
  HasBlock, HasBlock-merged, InOrder, Encloses, rebuilt-HasBlock, around, appended-HasBlock,
  same_text-path,
}
use runtime_pulse.Setup.Block.{
  rule_begin_marker, rule_end_marker, line_end, managed_block, Action, written, updated, appended,
  unchanged, rebuilt, appended_text, replaced, merged, write_merged, merge_marker_block,
}

-- The markers of what is found are in order.
abbrev pub Ordered : Found → Type 0
Ordered missing = Unit
Ordered (unreadable e) = Unit
Ordered (present content) = InOrder content

-- The text of the user. Of a file with markers, it is what stands before the first begin marker and
-- behind the first end marker; of a file without, the whole text but for the line ends at its end.
abbrev pub Kept : Found → Text → Text → Type 0
Kept missing pre post = (pre ≡ []) × (post ≡ line_end)
Kept (unreadable e) pre post = ⊥
Kept (present content) pre post =
    Encloses content pre post
    ⊎ ((index rule_begin_marker content ≡ none)
        × (index rule_end_marker content ≡ none)
        × (text blank : Text) × (content ≡ text ++ blank)
        × IsBlank blank
        × (pre ≡ text ++ (line_end ++ line_end))
        × (post ≡ line_end))

merge_nothing :
    (path : String) (dry_run : Bool) (d : Disk) (content pre post : Text)
    → d.files path ≡ present content
    → HasBlock content pre post
    → merge_marker_block path dry_run d ≡ (ok unchanged, d)
unfolding merge_marker_block
merge_nothing path dry_run d content pre post h b = rw (h, HasBlock-merged content pre post b) refl

wrote :
    (path : String) (out : Text) (action a : Action) (d d' : Disk)
    → write_merged path false (some (out, action)) d ≡ (ok a, d')
    → d'.files path ≡ present out
unfolding atomic_write
wrote path out action a d d' h = elim (Option-cases (d.write_fault path)) [
  | inr (e, fault) ↦ absurd (cc (rw fault at h))
  | inl fine ↦
      let left : ◌≡◌ {A = Result Action × Disk} (ok action, written_over path out d) (ok a, d') =
        rw fine at h in
      ap (λ x. x.1.files path) (sym left) ∙ rw (eq_refl path) refl
]

-- What a run leaves, and that the next run has nothing to do.
abbrev Lasting : Found → String → Disk → Type 0
Lasting found path d' =
    (merge_marker_block path false d' ≡ (ok unchanged, d'))
    × (pre post : Text) × (d'.files path ≡ present (pre ++ (managed_block ++ post)))
    × Kept found pre post

lasting :
    (found : Found) (path : String) (d' : Disk) (out pre post : Text)
    → d'.files path ≡ present out
    → HasBlock out pre post
    → Kept found pre post
    → Lasting found path d'
lasting found path d' out pre post h b k =
    (merge_nothing path false d' out pre post h b, pre, post, h ∙ ap present b.split, k)

replaced-Lasting :
    (path : String) (content : Text) (b e : ℕ) (a : Action) (d d' : Disk)
    → d.files path ≡ present content
    → index rule_begin_marker content ≡ some b
    → index rule_end_marker content ≡ some e
    → b ≤ e
    → write_merged path false (replaced content b e) d ≡ (ok a, d')
    → Lasting (present content) path d'
unfolding replaced
replaced-Lasting path content b e a d d' found hb he le h =
    let kept = around content b e hb he le in
    elim (Bool-cases (same_text (rebuilt content b e) content)) [
      | inl same ↦
          let left : ◌≡◌ {A = Result Action × Disk} (ok unchanged, d) (ok a, d') = rw same at h in
          let stays : d' ≡ d = ap (λ x. x.1) (sym left) in
          let text : content ≡ rebuilt content b e = sym (same_text-path _ content same) in
          lasting (present content) path d' (rebuilt content b e) _ _
            (ap (λ x. x.files path) stays ∙ found ∙ ap present text)
            (rebuilt-HasBlock content b e hb he le) (inl kept)
      | inr new ↦
          lasting (present content) path d' (rebuilt content b e) _ _
            (wrote path (rebuilt content b e) updated a d d' (rw new at h))
            (rebuilt-HasBlock content b e hb he le) (inl kept)
    ]

merged-Lasting :
    (found : Found) (path : String) (a : Action) (d d' : Disk)
    → d.files path ≡ found
    → Ordered found
    → merge_marker_block path false d ≡ (ok a, d')
    → Lasting found path d'
unfolding merge_marker_block merged
merged-Lasting missing path a d d' found o h =
    lasting missing path d' (managed_block ++ line_end) [] line_end
      (wrote path (managed_block ++ line_end) written a d d' (rw found at h))
      (record { split = refl; no_begin = refl; no_end = refl }) (refl, refl)
merged-Lasting (unreadable e) path a d d' found o h = absurd (cc (rw found at h))
merged-Lasting (present content) path a d d' found (inl (hb, he)) h =
    let (blank, split, is) = trimmed content in
    lasting (present content) path d' (appended_text content) _ line_end
      (wrote path (appended_text content) appended a d d' (rw (found, hb) at h))
      (appended-HasBlock content hb he)
      (inr (hb, he, trim_right content, blank, split, is, refl, refl))
merged-Lasting (present content) path a d d' found (inr (b, e, hb, he, le)) h =
    let ordered : leb b e ≡ true = ground (arith, le) in
    replaced-Lasting path content b e a d d' found hb he le (rw (found, hb, he, ordered) at h)

-- A run of mergeMarkerBlock that succeeds leaves a file that is the block as it should be with the
-- user's text around it: what stood before the first begin marker and behind the first end marker,
-- or, where there were no markers, all that was there but for the line ends at its end. The next run
-- changes nothing: it returns `unchanged`. This supposes that the first end marker of the file does
-- not stand before the first begin marker, or that both are missing.
pub merge_idempotent :
    (path : String) (action : Action) (d d' : Disk)
    → Ordered (d.files path)
    → merge_marker_block path false d ≡ (ok action, d')
    → (merge_marker_block path false d' ≡ (ok unchanged, d'))
      × (pre post : Text) × (d'.files path ≡ present (pre ++ (managed_block ++ post)))
      × Kept (d.files path) pre post
merge_idempotent path action d d' o h = merged-Lasting (d.files path) path action d d' refl o h
