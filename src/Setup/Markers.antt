-- ===== src/Setup/Markers.antt =====
-- internal/setup/rules.go: texts with the block, and the markers in them.
use runtime_pulse.Prelude.{
  ℕ, zero, suc, ◌+◌, ◌-◌, ◌≤◌, ◌≡◌, ◌⊎◌, refl, sym, ap, ◌∙◌, true, false, none, some, [], ◌∷◌, ◌++◌,
  any, length, length-append, append_assoc, append_nil, take, leb, leb→le, arith,
}
use text.Mathlib.TextEquality.{Char-path}
use runtime_pulse.Setup.{Text, chars}
use runtime_pulse.Setup.Texts.{same_text, index, drop, newline, trim_right, unhit}
use runtime_pulse.Setup.Occurrences.{
  index-unhit, unhit-index, unhit-none, unhit_within, index_self, take_prefix, drop_prefix,
  drop-drop, index_split, unhit-append, unhit_line, trimmed,
}
use runtime_pulse.Setup.Block.{
  rule_begin_marker, rule_end_marker, line_end, release_resume_rule_body, block_head, managed_block,
  rebuilt, appended_text, replaced, merged,
}

begin_line : any newline rule_begin_marker ≡ false
unfolding rule_begin_marker chars
begin_line = refl

end_line : any newline rule_end_marker ≡ false
unfolding rule_end_marker chars
end_line = refl

end_shorter : length rule_end_marker ≤ length rule_begin_marker
unfolding rule_begin_marker rule_end_marker chars
end_shorter = leb→le _ _ refl

-- The end marker is the first one in the block.
end_first : unhit rule_end_marker block_head rule_end_marker ≡ true
unfolding block_head rule_begin_marker rule_end_marker release_resume_rule_body chars
end_first = refl

same_text_refl : (s : Text) → same_text s s ≡ true
same_text_refl [] = refl
same_text_refl (c ∷ s) = ground (arith, same_text_refl s)

pub same_text-path : (s t : Text) → same_text s t ≡ true → s ≡ t
same_text-path [] [] h = refl
same_text-path [] (d ∷ t) h = absurd (cc h)
same_text-path (c ∷ s) [] h = absurd (cc h)
same_text-path (c ∷ s) (d ∷ t) h =
    let same : c ≡ d = Char-path c d (ground arith) in
    rw same (ap (λ l. d ∷ l) (same_text-path s t (ground arith)))

-- A text with the block, in which no marker stands before the block.
pub record HasBlock (content pre post : Text) : Type 0 where
  pub split : content ≡ pre ++ (managed_block ++ post)
  pub no_begin : unhit rule_begin_marker pre (managed_block ++ post) ≡ true
  pub no_end : unhit rule_end_marker pre (managed_block ++ post) ≡ true

block_split : (post : Text) → managed_block ++ post ≡ block_head ++ (rule_end_marker ++ post)
unfolding managed_block
block_split post = append_assoc block_head rule_end_marker post

block_begins : (post : Text) → (tail : Text) × (managed_block ++ post ≡ rule_begin_marker ++ tail)
unfolding managed_block block_head
block_begins post = (
  _,
  ap (λ l. l ++ post)
        (append_assoc rule_begin_marker (line_end ++ (release_resume_rule_body ++ line_end))
          rule_end_marker)
      ∙ append_assoc rule_begin_marker
          ((line_end ++ (release_resume_rule_body ++ line_end)) ++ rule_end_marker) post,
)

index-begin : (post : Text) → index rule_begin_marker (managed_block ++ post) ≡ some 0
index-begin post = let (tail, e) = block_begins post in rw e (index_self rule_begin_marker tail)

index-end : (post : Text) → index rule_end_marker (managed_block ++ post) ≡ some (length block_head)
index-end post =
    let there =
      index-unhit rule_end_marker block_head (rule_end_marker ++ post) 0
        (sym (unhit_within rule_end_marker block_head rule_end_marker [] post (omega arith))
          ∙ rw (append_nil rule_end_marker) end_first)
        (index_self rule_end_marker post) in
    rw (block_split post) (there ∙ ap some (omega arith))

rebuilt_same :
    (pre post : Text)
    → rebuilt (pre ++ (managed_block ++ post)) (length pre) (length pre + length block_head)
      ≡ pre ++ (managed_block ++ post)
rebuilt_same pre post =
    let content = pre ++ (managed_block ++ post) in
    let after : drop ((length pre + length block_head) + length rule_end_marker) content ≡ post =
      drop-drop (length pre + length block_head) (length rule_end_marker) content
      ∙ ap (drop (length rule_end_marker)) (drop-drop (length pre) (length block_head) content)
      ∙ ap (λ l. drop (length rule_end_marker) (drop (length block_head) l))
          (drop_prefix pre (managed_block ++ post))
      ∙ ap (λ l. drop (length rule_end_marker) (drop (length block_head) l)) (block_split post)
      ∙ ap (drop (length rule_end_marker)) (drop_prefix block_head (rule_end_marker ++ post))
      ∙ drop_prefix rule_end_marker post in
    rw (take_prefix pre (managed_block ++ post), after) refl

pub HasBlock-merged :
    (content pre post : Text)
    → HasBlock content pre post
    → merged content (index rule_begin_marker content) (index rule_end_marker content) ≡ none
unfolding merged replaced
HasBlock-merged content pre post h =
    let there = pre ++ (managed_block ++ post) in
    let b =
      index-unhit rule_begin_marker pre (managed_block ++ post) 0 h.no_begin (index-begin post) in
    let e =
      index-unhit rule_end_marker pre (managed_block ++ post) (length block_head) h.no_end
        (index-end post) in
    let zero_more : length pre + 0 ≡ length pre = omega arith in
    let ordered : leb (length pre) (length pre + length block_head) ≡ true = ground arith in
    rw (h.split, b, e, zero_more, ordered, rebuilt_same pre post, same_text_refl there) refl

-- The markers of a text are both missing, or the first end marker does not stand before the first
-- begin marker.
abbrev pub InOrder : Text → Type 0
InOrder content =
    ((index rule_begin_marker content ≡ none) × (index rule_end_marker content ≡ none))
    ⊎ ((b e : ℕ) × (index rule_begin_marker content ≡ some b)
        × (index rule_end_marker content ≡ some e)
        × (b ≤ e))

-- Of a text, what stands before the first begin marker, and what stands behind the first end marker.
abbrev pub Encloses : Text → Text → Text → Type 0
Encloses content pre post =
    (old : Text) × (e : ℕ) × (content ≡ pre ++ (old ++ post))
    × (index rule_begin_marker content ≡ some (length pre))
    × (index rule_end_marker content ≡ some e)
    × (length pre + length old ≡ e + length rule_end_marker)

take-drop : (n : ℕ) (s : Text) → s ≡ take n s ++ drop n s
take-drop zero s = refl
take-drop (suc n) [] = refl
take-drop (suc n) (c ∷ s) = ap (λ l. c ∷ l) (take-drop n s)

module _ (content : Text) (b e : ℕ) (hb : index rule_begin_marker content ≡ some b)
    (he : index rule_end_marker content ≡ some e) (le : b ≤ e) where
  abbrev pub before : Text
  before = take b content

  abbrev pub behind : Text
  behind = drop (e + length rule_end_marker) content

  pub rebuilt-HasBlock : HasBlock (rebuilt content b e) before behind
  rebuilt-HasBlock =
      let (split, len) = index_split rule_begin_marker content b hb in
      let tail = drop (length rule_begin_marker) (drop b content) in
      let (tail', q) = block_begins behind in
      let near : length before ≤ b = omega (arith, len) in
      let far : length before ≤ e = omega (arith, len, le) in
      record {
        split = refl;
        no_begin = rw q (
            sym (unhit_within rule_begin_marker before rule_begin_marker tail tail' (omega arith))
            ∙ unhit-index rule_begin_marker before (rule_begin_marker ++ tail) b
                (ap (index rule_begin_marker) (sym split) ∙ hb) near);
        no_end = rw q (
            sym (unhit_within rule_end_marker before rule_begin_marker tail tail' end_shorter)
            ∙ unhit-index rule_end_marker before (rule_begin_marker ++ tail) e
                (ap (index rule_end_marker) (sym split) ∙ he) far);
      }

  -- What stands between the two texts reaches from the first begin marker to the end of the first
  -- end marker.
  pub around : Encloses content before behind
  around =
      let m = (e + length rule_end_marker) - b in
      let total : b + m ≡ e + length rule_end_marker = omega (arith, le) in
      let there : drop m (drop b content) ≡ behind =
        sym (drop-drop b m content) ∙ ap (λ n. drop n content) total in
      let old = take m (drop b content) in
      let split : content ≡ before ++ (old ++ behind) =
        take-drop b content
        ∙ ap (λ l. before ++ l) (take-drop m (drop b content) ∙ ap (λ l. old ++ l) there) in
      let (_, begins) = index_split rule_begin_marker content b hb in
      let (ended, ends) = index_split rule_end_marker content e he in
      let rest : drop (length rule_end_marker) (drop e content) ≡ behind =
        sym (drop-drop e (length rule_end_marker) content) in
      let whole : length content ≡ length before + (length old + length behind) =
        ap length split
        ∙ length-append before (old ++ behind)
        ∙ ap (λ n. length before + n) (length-append old behind) in
      let parts : length content ≡ e + (length rule_end_marker + length behind) =
        ap length ended
        ∙ length-append (take e content)
            (rule_end_marker ++ drop (length rule_end_marker) (drop e content))
        ∙ rw (ends, rest) (ap (λ n. e + n) (length-append rule_end_marker behind)) in
      (old, e, split, hb ∙ ap some (sym begins), he, omega (arith, whole, parts))

unhit-line_end :
    (p x u y : Text) → any newline p ≡ false → unhit p x y ≡ true → unhit p x (line_end ++ u) ≡ true
unfolding chars
unhit-line_end p x u y lines h = unhit_line p x u y _ lines refl h

module _ (p content u : Text) (lines : any newline p ≡ false)
    (blank : unhit p (line_end ++ line_end) u ≡ true) (absent : index p content ≡ none) where
  unhit_blank : unhit p (trim_right content ++ (line_end ++ line_end)) u ≡ true
  unhit_blank =
      let (rest, e, blank_rest) = trimmed content in
      let clear : unhit p (trim_right content) rest ≡ true =
        unhit-none p (trim_right content) rest (ap (index p) (sym e) ∙ absent) in
      unhit-append p (trim_right content) (line_end ++ line_end) u
      ∙ rw
          (
            append_assoc line_end line_end u,
            unhit-line_end p (trim_right content) (line_end ++ u) rest lines clear,
            blank,
          )
          refl

pub appended-HasBlock :
    (content : Text)
    → index rule_begin_marker content ≡ none
    → index rule_end_marker content ≡ none
    → HasBlock (appended_text content) (trim_right content ++ (line_end ++ line_end)) line_end
unfolding rule_begin_marker rule_end_marker chars
appended-HasBlock content hb he = record {
  split =
      sym (append_assoc (trim_right content) (line_end ++ line_end) (managed_block ++ line_end));
  no_begin = unhit_blank rule_begin_marker content (managed_block ++ line_end) refl refl hb;
  no_end = unhit_blank rule_end_marker content (managed_block ++ line_end) refl refl he;
}
