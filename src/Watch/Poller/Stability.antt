-- ===== src/Watch/Poller/Stability.antt =====
-- internal/watch/poller.go: the emissions of a poller against the answers of its probe.
use runtime_pulse.Prelude.{
  ℕ, ◌≡◌, refl, Bool, true, false, not, Option, none, some, List, [], ◌∷◌, arith, inl, inr,
  Bool-cases, subst,
}
use runtime_pulse.Watch.{Config}
use runtime_pulse.Watch.Poller.{Poller, same, stable, flap_since, tick, ticks, run_poller}

-- No two neighbours are the same.
abbrev pub Alternates : Bool → List Bool → Type 0
Alternates b [] = Unit
Alternates b (x ∷ l) = (x ≡ not b) × Alternates x l

same-not : (a b : Bool) → same a b ≡ false → a ≡ not b
same-not a b h = ground arith

ticks-Alternates :
    (cfg : Config) (p : Poller) (answers : List (Bool × ℕ))
    → Alternates p.current (ticks cfg p answers)
unfolding ticks tick
ticks-Alternates cfg p [] = tt
ticks-Alternates cfg p ((got, now) ∷ rest) = elim (Bool-cases (same got p.current)) [
  | inl e ↦ rw e (ticks-Alternates cfg (record p { pending = none }) rest)
  | inr e ↦
      let since = flap_since p.pending got now in
      elim (Bool-cases (stable cfg since now)) [
        | inl s ↦
            rw (e, s)
              (
                same-not got p.current e,
                ticks-Alternates cfg (record { current = got; pending = none }) rest,
              )
        | inr s ↦ rw (e, s) (ticks-Alternates cfg (record p { pending = some (got, since) }) rest)
      ]
]

-- A poller emits the first answer, and after it only transitions: each state that it emits is the
-- opposite of the one before.
pub run_poller-Alternates :
    (cfg : Config) (first : Bool) (answers : List (Bool × ℕ))
    → (rest : List Bool) × (run_poller cfg first answers ≡ first ∷ rest) × Alternates first rest
unfolding run_poller
run_poller-Alternates cfg first answers =
    let start : Poller = record { current = first; pending = none } in
    (ticks cfg start answers, refl, ticks-Alternates cfg start answers)

-- The answers, the latest first, have been `v` since the time `since` at least.
pub data HeldSince (v : Bool) (since : ℕ) : List (Bool × ℕ) → Type 0 where
  begun : (past : List (Bool × ℕ)) → HeldSince v since ((v, since) ∷ past)
  still :
      (now : ℕ) (past : List (Bool × ℕ))
      → HeldSince v since past
      → HeldSince v since ((v, now) ∷ past)

abbrev pub IsPending : Option (Bool × ℕ) → List (Bool × ℕ) → Type 0
IsPending none past = Unit
IsPending (some (v, since)) past = HeldSince v since past

-- The states in which a poller can be after answers, the latest first.
pub data Polled (cfg : Config) : List (Bool × ℕ) → Poller → Type 0 where
  polling : (first : Bool) → Polled cfg [] (record { current = first; pending = none })
  ticked :
      {past : List (Bool × ℕ)} {p : Poller} (got : Bool) (now : ℕ)
      → Polled cfg past p
      → Polled cfg ((got, now) ∷ past) (tick cfg p got now).0

same-eq : (a b : Bool) → same a b ≡ true → a ≡ b
same-eq a b h = ground arith

flap_since-HeldSince :
    (o : Option (Bool × ℕ)) (got : Bool) (now : ℕ) (past : List (Bool × ℕ))
    → IsPending o past
    → HeldSince got (flap_since o got now) ((got, now) ∷ past)
unfolding flap_since
flap_since-HeldSince none got now past h = begun past
flap_since-HeldSince (some (v, since)) got now past h = elim (Bool-cases (same v got)) [
  | inl e ↦ rw e (still now past (subst (λ b. HeldSince b since past) (same-eq v got e) h))
  | inr e ↦ rw e (begun past)
]

Polled-IsPending :
    (cfg : Config) (past : List (Bool × ℕ)) (p : Poller)
    → Polled cfg past p
    → IsPending p.pending past
unfolding tick
Polled-IsPending cfg past p (polling first) = tt
Polled-IsPending cfg past q (ticked {past = before} {p} got now h) =
    elim (Bool-cases (same got p.current)) [
      | inl e ↦ rw e tt
      | inr e ↦
          let since = flap_since p.pending got now in
          elim (Bool-cases (stable cfg since now)) [
            | inl s ↦ rw (e, s) tt
            | inr s ↦
                rw (e, s)
                  (flap_since-HeldSince p.pending got now before (Polled-IsPending cfg before p h))
          ]
    ]

-- A state that a poller emits after its first is one that all probes have seen since a time that
-- the stability threshold accepts: since that long before.
pub emission_is_stable :
    (cfg : Config) (past : List (Bool × ℕ)) (p : Poller) (got : Bool) (now : ℕ) (state : Bool)
    → Polled cfg past p
    → (tick cfg p got now).1 ≡ some state
    → (since : ℕ) × HeldSince state since ((got, now) ∷ past) × (stable cfg since now ≡ true)
unfolding tick
emission_is_stable cfg past p got now state h e =
    let since = flap_since p.pending got now in
    let same_state : got ≡ state = ground arith in
    (
      since,
      subst (λ b. HeldSince b since ((got, now) ∷ past)) same_state
          (flap_since-HeldSince p.pending got now past (Polled-IsPending cfg past p h)),
      ground arith,
    )
