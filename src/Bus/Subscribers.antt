-- ===== src/Bus/Subscribers.antt =====
-- internal/bus/bus.go: histories of the bus and of its channels.
use runtime_pulse.Prelude.{
  ℕ, suc, zero, ℤ, pos, negsuc, ◌≤◌, ◌<◌, ◌≡◌, refl, Bool, false, List, [], ◌∷◌, ◌++◌, map, filter,
  any, any-append, All, All-append, All-filter, All-map, All-of_map, length, length-append, nat_eq,
  arith, inl, inr, Bool-cases, if◌then◌else◌,
}
use runtime_pulse.Core.{Event}
use runtime_pulse.Bus.{Channel, Bus, new_bus, buffer_size, subscribe, cancel, offer, publish}

-- The bus as its clients see it: besides its own operations, a subscriber takes the first event of
-- its channel.
abbrev after_first : List Event → List Event
after_first [] = []
after_first (ev ∷ evs) = evs

abbrev pub taken : ℕ → Channel → Channel
taken key ch = if nat_eq ch.key key then record ch { queue = after_first ch.queue } else ch

pub data BusStep (b : Bus) : Bus → Type 0 where
  subscribed : (buffer : ℤ) → BusStep b (subscribe b buffer).0
  cancelled : (key : ℕ) → BusStep b (cancel b key)
  published : (ev : Event) → BusStep b (publish b ev)
  received : (key : ℕ) → BusStep b (record b { subs = map (taken key) b.subs })

pub data BusHistory : Bus → Type 0 where
  opened : BusHistory new_bus
  after : {b b' : Bus} → BusHistory b → BusStep b b' → BusHistory b'

-- A channel of the bus: it was given out, has room for an event at least, and holds no more than it
-- has room for.
abbrev pub IsSound : ℕ → Channel → Type 0
IsSound next ch = (ch.key < next) × (1 ≤ ch.capacity) × (length ch.queue ≤ ch.capacity)

abbrev pub UniqueKeys : List Channel → Type 0
UniqueKeys [] = Unit
UniqueKeys (ch ∷ l) = (any (λ d. nat_eq d.key ch.key) l ≡ false) × UniqueKeys l

abbrev IsOpen : Bus → Type 0
IsOpen b = All (IsSound b.next) b.subs × UniqueKeys b.subs

abbrev KeepsKey : (Channel → Channel) → Type 0
KeepsKey f = (ch : Channel) → (f ch).key ≡ ch.key

any-key-map :
    (f : Channel → Channel) (k : ℕ) (l : List Channel)
    → KeepsKey f
    → any (λ d. nat_eq d.key k) (map f l) ≡ any (λ d. nat_eq d.key k) l
any-key-map f k [] h = refl
any-key-map f k (x ∷ l) h = ground (arith, any-key-map f k l h, h x)

UniqueKeys-map :
    (f : Channel → Channel) (l : List Channel) → KeepsKey f → UniqueKeys l → UniqueKeys (map f l)
UniqueKeys-map f [] h u = tt
UniqueKeys-map f (x ∷ l) h u =
    (rw (h x) (rw (any-key-map f x.key l h) u.0), UniqueKeys-map f l h u.1)

any-key-filter :
    (p : Channel → Bool) (k : ℕ) (l : List Channel)
    → any (λ d. nat_eq d.key k) l ≡ false
    → any (λ d. nat_eq d.key k) (filter p l) ≡ false
any-key-filter p k [] h = refl
any-key-filter p k (x ∷ l) h = ground (arith, any-key-filter p k l)

UniqueKeys-filter : (p : Channel → Bool) (l : List Channel) → UniqueKeys l → UniqueKeys (filter p l)
UniqueKeys-filter p [] u = tt
UniqueKeys-filter p (x ∷ l) u = elim (Bool-cases (p x)) [
  | inl e ↦ rw e (any-key-filter p x.key l u.0, UniqueKeys-filter p l u.1)
  | inr e ↦ rw e (UniqueKeys-filter p l u.1)
]

-- A key that is not given out yet is nobody's.
unused :
    (next : ℕ) (l : List Channel) → All (IsSound next) l → any (λ d. nat_eq d.key next) l ≡ false
unused next [] h = refl
unused next (x ∷ l) h = ground (arith, unused next l h.1, h.0.0)

UniqueKeys-snoc :
    (ch : Channel) (l : List Channel)
    → any (λ d. nat_eq d.key ch.key) l ≡ false
    → UniqueKeys l
    → UniqueKeys (l ++ ch ∷ [])
UniqueKeys-snoc ch [] h u = (refl, tt)
UniqueKeys-snoc ch (x ∷ l) h u = (
  rw (any-append (λ d. nat_eq d.key x.key) l (ch ∷ [])) (ground (arith, u.0)),
  UniqueKeys-snoc ch l (ground arith) u.1,
)

room : (buffer : ℤ) → 1 ≤ buffer_size buffer
room (pos zero) = omega arith
room (pos (suc n)) = omega arith
room (negsuc n) = omega arith

offer-IsSound :
    (next : ℕ) (ev : Event) (ch : Channel) → IsSound next ch → IsSound next (offer ev ch)
unfolding offer
offer-IsSound next ev ch h = ground (arith, length-append ch.queue (ev ∷ []))

length-after_first : (l : List Event) → length (after_first l) ≤ length l
length-after_first [] = omega arith
length-after_first (x ∷ l) = omega arith

taken-IsSound : (next key : ℕ) (ch : Channel) → IsSound next ch → IsSound next (taken key ch)
taken-IsSound next key ch h = ground (arith, length-after_first ch.queue)

BusStep-IsOpen : (b b' : Bus) → BusStep b b' → IsOpen b → IsOpen b'
unfolding subscribe cancel publish offer
BusStep-IsOpen b b' (subscribed buffer) (sound, unique) = (
  All-append (IsSound (suc b.next)) b.subs _
      (All-map b.subs (λ ch h. (omega (arith, h.0), h.1, h.2)) sound)
      ((omega arith, room buffer, omega (arith, room buffer)), tt),
  UniqueKeys-snoc _ b.subs (unused b.next b.subs sound) unique,
)
BusStep-IsOpen b b' (cancelled key) (sound, unique) =
    (All-filter (IsSound b.next) _ b.subs sound, UniqueKeys-filter _ b.subs unique)
BusStep-IsOpen b b' (published ev) (sound, unique) = (
  All-of_map (IsSound b.next) (IsSound b.next) (offer ev) b.subs (offer-IsSound b.next ev) sound,
  UniqueKeys-map (offer ev) b.subs (λ ch. ground arith) unique,
)
BusStep-IsOpen b b' (received key) (sound, unique) = (
  All-of_map (IsSound b.next) (IsSound b.next) (taken key) b.subs (taken-IsSound b.next key) sound,
  UniqueKeys-map (taken key) b.subs (λ ch. ground arith) unique,
)

-- In every history of the bus each channel has a key that was given out, a buffer of one event at
-- least and no more events than its buffer holds, and no two channels share a key.
pub BusHistory-IsOpen : (b : Bus) → BusHistory b → All (IsSound b.next) b.subs × UniqueKeys b.subs
BusHistory-IsOpen b opened = (tt, tt)
BusHistory-IsOpen bus (after {b} h s) = BusStep-IsOpen b bus s (BusHistory-IsOpen b h)
