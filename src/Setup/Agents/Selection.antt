-- ===== src/Setup/Agents/Selection.antt =====
-- cmd/runtimepulse/cmd_setup.go: which agents a run is for.
pub mod Choice
use runtime_pulse.Prelude.{
  ℕ, ℤ, pos, negsuc, zero, suc, ◌≡◌, refl, String, Bool, true, false, not, ◌&&◌, ◌||◌, Option, none,
  some, List, [], ◌∷◌, ◌++◌, any, any-append, All, All-append, Result, ok, err, length, decimal,
  itoa, ltb, In, UniqueBy, UniqueBy-snoc, any-In, subst, along_ok, ◌==◌, eq_refl, arith, inl, inr,
  Bool-cases, Option-cases, Result-cases, if◌then◌else◌, str_append,
}
use runtime_pulse.Dispatch.{join_with}
use runtime_pulse.Setup.Agents.{named_in}

-- strings.Split at commas, TrimSpace and ToLower, strconv.Atoi, and the %q of fmt.
pub record Words : Type 0 where
  pub split : String → List String
  pub trim_space : String → String
  pub to_lower : String → String
  pub atoi : String → Option ℤ
  pub quote : String → String

abbrev pub add_once : List String → String → List String
add_once out name = if named_in out name then out else out ++ name ∷ []

-- The loop of parseAgentFlag.
unfoldable pub flag_loop :
    Words → String → List String → List String → List String → Result (List String)
flag_loop w value valid out [] = ok out
flag_loop w value valid out (tok ∷ toks) =
    let t = w.trim_space tok in
    let rest = flag_loop w value valid (add_once out t) toks in
    if t == ""
    then err (str_append "empty agent name in " (w.quote value))
    else if not (named_in valid t)
    then err (
        str_append "unknown agent "
          (str_append (w.quote t) (str_append " (valid: " (str_append (join_with "|" valid) ")"))))
    else rest

-- parseAgentFlag
unfoldable pub parse_agent_flag : Words → String → List String → Result (List String)
parse_agent_flag w value valid = flag_loop w value valid [] (w.split value)

abbrev pub nth : ℕ → List String → Option String
nth n [] = none
nth zero (s ∷ l) = some s
nth (suc n) (s ∷ l) = nth n l

abbrev out_of_range : ℤ → List String → String
out_of_range n candidates = str_append "number " (
    str_append (itoa n)
      (str_append " out of range (1-" (str_append (decimal (length candidates)) ")")))

abbrev numbered : List String → ℤ → Option String → Result String
numbered candidates n none = err (out_of_range n candidates)
numbered candidates n (some name) = ok name

-- candidates[n-1] for a number from 1 on.
abbrev pub by_number : List String → ℤ → Result String
by_number candidates (pos (suc n)) = numbered candidates (pos (suc n)) (nth n candidates)
by_number candidates (pos zero) = err (out_of_range (pos zero) candidates)
by_number candidates (negsuc n) = err (out_of_range (negsuc n) candidates)

abbrev pub by_word : Words → List String → String → Option ℤ → Result String
by_word w candidates tok (some n) = by_number candidates n
by_word w candidates tok none =
    if named_in candidates tok then ok tok else err (str_append "unknown selection " (w.quote tok))

-- The loop of parseSelection.
unfoldable pub selection_loop :
    Words → List String → List String → List String → Result (List String)
selection_loop w candidates out [] = ok out
selection_loop w candidates out (tok ∷ toks) =
    let t = w.trim_space tok in
    elim (by_word w candidates t (w.atoi t)) [
      | ok name ↦ selection_loop w candidates (add_once out name) toks
      | err e ↦ err e
    ]

abbrev pub as_choice : Result (List String) → Result (Option (List String))
as_choice (ok l) = ok (some l)
as_choice (err e) = err e

-- parseSelection; `none` is that the user quits.
unfoldable pub parse_selection : Words → String → List String → Result (Option (List String))
parse_selection w line candidates =
    let input = w.trim_space line in
    if input == ""
    then ok (some candidates)
    else if w.to_lower input == "q" || w.to_lower input == "n"
    then ok none
    else as_choice (selection_loop w candidates [] (w.split input))

-- shouldWriteRules
unfoldable pub should_write_rules : Bool → Bool → Bool → Bool → Bool
should_write_rules rules no_rules interactive answer =
    if no_rules then false else if rules then true else if interactive then answer else false
