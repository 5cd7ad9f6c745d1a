-- ===== src/Workflow/Compiled.antt =====
-- internal/workflow/workflow.go: the rules of a workflow that Parse accepted.
use runtime_pulse.Prelude.{
  ℕ, suc, String, ◌≡◌, refl, true, false, none, List, [], ◌∷◌, map, any, All, All-map, Option-cases,
  subst, ap, ltb, ok, Result-cases, ◌==◌, eq_iff, arith, inl, inr, length, length-map,
}
use runtime_pulse.Core.{Rule, TemplateEngine, validate_prompt_template}
use runtime_pulse.Workflow.{
  Step, Workflow, Reader, labelled, step_fault, check_steps, validated, parse, step_rule, rules,
}

-- No two rules share a label, which is what a later step names as its source.
abbrev pub UniqueLabels : List Rule → Type 0
UniqueLabels [] = Unit
UniqueLabels (r ∷ l) = (any (λ s. s.label == r.label) l ≡ false) × UniqueLabels l

-- A rule that rule.add accepts.
pub record IsComplete (t : TemplateEngine) (session : String) (r : Rule) : Type 0 where
  pub type : (r.selector.type == "") ≡ false
  pub prompt : (r.prompt_template == "") ≡ false
  pub template : validate_prompt_template t r.prompt_template ≡ none
  pub one_shot : r.one_shot ≡ true
  pub session_id : r.session_id ≡ session

-- Steps that passed the loop, after labels that were seen.
record Checked (t : TemplateEngine) (w : Workflow) (seen : List String) (l : List Step)
    : Type 0 where
  complete : All (IsComplete t w.session) (map (step_rule w) l)
  unique : UniqueLabels (map (step_rule w) l)
  apart : All (λ s. any (λ x. x == s.label) seen ≡ false) l

no_label :
    (w : Workflow) (label : String) (seen : List String) (l : List Step)
    → All (λ s. any (λ x. x == s.label) (label ∷ seen) ≡ false) l
    → any (λ r. r.label == label) (map (step_rule w) l) ≡ false
no_label w label seen [] h = refl
no_label w label seen (s ∷ l) h =
    ground (arith, no_label w label seen l h.1, h.0, eq_iff s.label label, eq_iff label s.label)

apart_later :
    (label : String) (seen : List String) (l : List Step)
    → All (λ s. any (λ x. x == s.label) (label ∷ seen) ≡ false) l
    → All (λ s. any (λ x. x == s.label) seen ≡ false) l
apart_later label seen l h =
    All-map l (λ s (k : any (λ x. x == s.label) (label ∷ seen) ≡ false). ground arith) h

step_fault-none :
    (r : Reader) (w : Workflow) (seen : List String) (s : Step)
    → step_fault r seen s ≡ none
    → IsComplete r.templates w.session (step_rule w s) × (any (λ l. l == s.label) seen ≡ false)
unfolding step_fault
step_fault-none r w seen s h = elim (Option-cases (validate_prompt_template r.templates s.prompt)) [
  | inl e ↦ (
    record {
      type = ground arith;
      prompt = ground arith;
      template = e;
      one_shot = refl;
      session_id = refl;
    },
    ground arith,
  )
  | inr (x, e) ↦ absurd (ground arith)
]

check_steps-Checked :
    (r : Reader) (w : Workflow) (i : ℕ) (seen : List String) (l l' : List Step)
    → check_steps r i seen l ≡ ok l'
    → Checked r.templates w seen l' × (length l' ≡ length l)
unfolding check_steps
check_steps-Checked r w i seen [] l' h =
    let same : [] ≡ l' = cc in
    subst (λ k. Checked r.templates w seen k × (length k ≡ 0)) same
      (record { complete = tt; unique = tt; apart = tt }, refl)
check_steps-Checked r w i seen (s ∷ l) l' h =
    let named = labelled i s in
    let rest = check_steps r (suc i) (named.label ∷ seen) l in
    elim (Option-cases (step_fault r seen named)) [
      | inr (e, bad) ↦ absurd (cc (rw bad at h))
      | inl sound ↦ elim (Result-cases rest) [
        | inl (e, bad) ↦ absurd (cc (rw (sound, bad) at h))
        | inr (k, good) ↦
            let (checked, same) = check_steps-Checked r w (suc i) (named.label ∷ seen) l k good in
            let (complete, apart) = step_fault-none r w seen named sound in
            let left : ok (named ∷ k) ≡ ok l' = rw (sound, good) at h in
            let kept : named ∷ k ≡ l' = cc left in
            subst (λ k. Checked r.templates w seen k × (length k ≡ suc (length l))) kept
              (
                record {
                  complete = (complete, checked.complete);
                  unique = (no_label w named.label seen k checked.apart, checked.unique);
                  apart = (apart, apart_later named.label seen k checked.apart);
                },
                ap suc same,
              )
      ]
    ]

module _ (r : Reader) (session agent repo : String) where
  abbrev file : List Step → Workflow
  file l = record { session = session; agent = agent; repo = repo; steps = l }

  abbrev Accepted : Workflow → Type 0
  Accepted w =
      All (IsComplete r.templates w.session) (rules w)
      × UniqueLabels (rules w)
      × (ltb 0 (length (rules w)) ≡ true)
      × ((w.session == "") ≡ false)
      × ((w.agent == "") ≡ false)

  validated-Accepted : (l : List Step) (w : Workflow) → validated r (file l) ≡ ok w → Accepted w
  unfolding validated rules
  validated-Accepted [] w h = absurd (ground arith)
  validated-Accepted (s ∷ l) w h = elim (Result-cases (check_steps r 0 [] (s ∷ l))) [
    | inl (e, bad) ↦ absurd (ground (arith, bad))
    | inr (k, good) ↦
        let (checked, same) = check_steps-Checked r (file k) 0 [] (s ∷ l) k good in
        let named : ((session == "") ≡ false) × ((agent == "") ≡ false) = ground (arith, good) in
        let left : ok (file k) ≡ ok w = rw (named.0, named.1, good) at h in
        let kept : file k ≡ w = cc left in
        subst Accepted kept (
          checked.complete,
          checked.unique,
          ground (arith, same, length-map (step_rule (file k)) k),
          named.0,
          named.1,
        )
  ]

-- A workflow text that is accepted compiles to rules that rule.add accepts as well: there is one at
-- least, each is one-shot, has an event type, a prompt whose template parses, and the session of the
-- workflow, and no two have the same label.
pub parse-IsComplete :
    (r : Reader) (data_text : String) (w : Workflow)
    → parse r data_text ≡ ok w
    → All (IsComplete r.templates w.session) (rules w)
      × UniqueLabels (rules w)
      × (ltb 0 (length (rules w)) ≡ true)
      × ((w.session == "") ≡ false)
      × ((w.agent == "") ≡ false)
unfolding parse
parse-IsComplete r data_text w h = elim (Result-cases (r.decode data_text)) [
  | inl (e, bad) ↦ absurd (cc (rw bad at h))
  | inr (w', good) ↦ validated-Accepted r w'.session w'.agent w'.repo w'.steps w (rw good at h)
]
