-- ===== src/Setup/Agents/Selection/Choice.antt =====
-- cmd/runtimepulse/cmd_setup.go: the agents that are chosen.
use runtime_pulse.Prelude.{
  ℕ, ℤ, pos, negsuc, zero, suc, ◌≡◌, String, true, ◌||◌, Option, none, some, List, [], ◌∷◌, All,
  All-append, All-of_In, ap, sym, ◌∙◌, Result, ok, err, UniqueBy, UniqueBy-snoc, any-In, subst,
  ◌==◌, eq_refl, arith, inl, inr, Bool-cases, Option-cases, Result-cases,
}
use runtime_pulse.Setup.Agents.{named_in}
use runtime_pulse.Setup.Agents.Selection.{
  Words, add_once, flag_loop, parse_agent_flag, nth, by_number, by_word, selection_loop,
  parse_selection,
}

-- Candidates, each once.
abbrev pub IsChoice : List String → List String → Type 0
IsChoice candidates l = All (λ s. named_in candidates s ≡ true) l × UniqueBy (λ s. s) l

IsChoice-once :
    (candidates out : List String) (name : String)
    → named_in candidates name ≡ true
    → IsChoice candidates out
    → IsChoice candidates (add_once out name)
IsChoice-once candidates out name h c = elim (Bool-cases (named_in out name)) [
  | inl e ↦ rw e c
  | inr e ↦ rw e (
    All-append (λ s. named_in candidates s ≡ true) out (name ∷ []) c.0 (h, tt),
    UniqueBy-snoc (λ s. s) out name e c.1,
  )
]

nth-named : (n : ℕ) (l : List String) (s : String) → nth n l ≡ some s → named_in l s ≡ true
nth-named n [] s h = absurd (cc h)
nth-named zero (x ∷ l) s h = ground (arith, eq_refl x)
nth-named (suc n) (x ∷ l) s h = ground (arith, nth-named n l s h)

numbered-named :
    (n : ℕ) (candidates : List String) (name : String)
    → by_number candidates (pos (suc n)) ≡ ok name
    → named_in candidates name ≡ true
numbered-named n candidates name h = elim (Option-cases (nth n candidates)) [
  | inl e ↦ absurd (cc (rw e at h))
  | inr (s, e) ↦
      let left : ok s ≡ ok name = rw e at h in
      let same : s ≡ name = cc left in nth-named n candidates name (e ∙ ap some same)
]

by_word-named :
    (w : Words) (candidates : List String) (tok name : String) (o : Option ℤ)
    → by_word w candidates tok o ≡ ok name
    → named_in candidates name ≡ true
by_word-named w candidates tok name (some (pos zero)) h = absurd (cc h)
by_word-named w candidates tok name (some (negsuc n)) h = absurd (cc h)
by_word-named w candidates tok name (some (pos (suc n))) h = numbered-named n candidates name h
by_word-named w candidates tok name none h = elim (Bool-cases (named_in candidates tok)) [
  | inl e ↦
      let left : ok tok ≡ ok name = rw e at h in
      let same : tok ≡ name = cc left in ap (named_in candidates) (sym same) ∙ e
  | inr e ↦ absurd (cc (rw e at h))
]

selection_step :
    (w : Words) (candidates out toks : List String) (tok : String) (r : Result String)
    → by_word w candidates (w.trim_space tok) (w.atoi (w.trim_space tok)) ≡ r
    → selection_loop w candidates out (tok ∷ toks)
      ≡ elim r [ ok name ↦ selection_loop w candidates (add_once out name) toks | err e ↦ err e ]
unfolding selection_loop
selection_step w candidates out toks tok r h =
    ap
      (λ r. elim r [
        | ok name ↦ selection_loop w candidates (add_once out name) toks
        | err e ↦ err e
      ])
      h

selection_loop-IsChoice :
    (w : Words) (candidates out toks l : List String)
    → IsChoice candidates out
    → selection_loop w candidates out toks ≡ ok l
    → IsChoice candidates l
unfolding selection_loop
selection_loop-IsChoice w candidates out [] l c h =
    let same : out ≡ l = cc h in subst (IsChoice candidates) same c
selection_loop-IsChoice w candidates out (tok ∷ toks) l c h =
    let t = w.trim_space tok in
    elim (Result-cases (by_word w candidates t (w.atoi t))) [
      | inl (e, bad) ↦ absurd (cc (sym h ∙ selection_step w candidates out toks tok _ bad))
      | inr (name, good) ↦
          selection_loop-IsChoice w candidates (add_once out name) toks l
            (IsChoice-once candidates out name (by_word-named w candidates t name (w.atoi t) good)
              c)
            (sym (selection_step w candidates out toks tok _ good) ∙ h)
    ]

flag_loop-IsChoice :
    (w : Words) (value : String) (valid out toks l : List String)
    → IsChoice valid out
    → flag_loop w value valid out toks ≡ ok l
    → IsChoice valid l
unfolding flag_loop
flag_loop-IsChoice w value valid out [] l c h =
    let same : out ≡ l = cc h in subst (IsChoice valid) same c
flag_loop-IsChoice w value valid out (tok ∷ toks) l c h =
    let t = w.trim_space tok in
    elim (Bool-cases (t == "")) [
      | inl blank ↦ absurd (cc (rw blank at h))
      | inr full ↦ elim (Bool-cases (named_in valid t)) [
        | inr other ↦ absurd (cc (rw (full, other) at h))
        | inl known ↦
            flag_loop-IsChoice w value valid (add_once out t) toks l
              (IsChoice-once valid out t known c) (rw (full, known) at h)
      ]
    ]

selected-IsChoice :
    (w : Words) (line : String) (candidates l : List String)
    → UniqueBy (λ s. s) candidates
    → All (λ s. named_in candidates s ≡ true) candidates
    → parse_selection w line candidates ≡ ok (some l)
    → IsChoice candidates l
unfolding parse_selection
selected-IsChoice w line candidates l u n h =
    let input = w.trim_space line in
    elim (Bool-cases (input == "")) [
      | inl blank ↦
          let left : ◌≡◌ {A = Result (Option (List String))} (ok (some candidates)) (ok (some l)) =
            rw blank at h in
          let same : candidates ≡ l = cc left in subst (IsChoice candidates) same (n, u)
      | inr full ↦ elim (Bool-cases (w.to_lower input == "q" || w.to_lower input == "n")) [
        | inl quits ↦ absurd (cc (rw (full, quits) at h))
        | inr goes ↦ elim (Result-cases (selection_loop w candidates [] (w.split input))) [
          | inl (e, bad) ↦ absurd (cc (rw (full, goes, bad) at h))
          | inr (k, good) ↦
              let left : ◌≡◌ {A = Result (Option (List String))} (ok (some k)) (ok (some l)) =
                rw (full, goes, good) at h in
              let same : k ≡ l = cc left in
              subst (IsChoice candidates) same
                (selection_loop-IsChoice w candidates [] (w.split input) k (tt, tt) good)
        ]
      ]
    ]

named_self : (l : List String) → All (λ s. named_in l s ≡ true) l
named_self l =
    All-of_In (λ s. named_in l s ≡ true) l (λ s i. any-In (λ n. n == s) s l i (eq_refl s))

-- Whatever is typed, the agents that the flag --agent or the selection of the wizard names are
-- candidates, and each of them is there once; the candidates are supposed to be distinct.
pub chosen-IsChoice :
    (w : Words) (value line : String) (candidates flagged chosen : List String)
    → UniqueBy (λ s. s) candidates
    → parse_agent_flag w value candidates ≡ ok flagged
    → parse_selection w line candidates ≡ ok (some chosen)
    → IsChoice candidates flagged × IsChoice candidates chosen
unfolding parse_agent_flag
chosen-IsChoice w value line candidates flagged chosen u hf hs = (
  flag_loop-IsChoice w value candidates [] (w.split value) flagged (tt, tt) hf,
  selected-IsChoice w line candidates chosen u (named_self candidates) hs,
)
