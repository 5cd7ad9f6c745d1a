-- ===== src/Bus/Delivery.antt =====
-- internal/bus/bus.go: what Publish puts into the channels of the subscribers.
use runtime_pulse.Prelude.{
  ℕ, suc, ◌+◌, ◌-◌, ◌≤◌, ◌≡◌, refl, true, false, List, [], ◌∷◌, ◌++◌, zero, ap, sym, subst, ◌∙◌,
  ltb, map, In, length, length-append, append_nil, append_assoc, take, arith, inl, inr,
}
use runtime_pulse.Core.{Event}
use runtime_pulse.Bus.{Channel, Bus, offer, publish}

-- Several events, one after the other.
abbrev pub publish_all : Bus → List Event → Bus
publish_all b [] = b
publish_all b (ev ∷ evs) = publish_all (publish b ev) evs

abbrev offer_all : List Event → Channel → Channel
offer_all [] ch = ch
offer_all (ev ∷ evs) ch = offer_all evs (offer ev ch)

-- What waits in a channel that has room for what is taken of the events.
abbrev pub filled : Channel → List Event → Channel
filled ch evs = record ch { queue = ch.queue ++ take (ch.capacity - length ch.queue) evs }

full-ltb : (a b : ℕ) → b ≡ a + 0 → ltb a b ≡ false
full-ltb a b h = ground arith

room-ltb : (a b n : ℕ) → b ≡ a + suc n → ltb a b ≡ true
room-ltb a b n h = ground arith

-- A channel with room for n more events takes the first n.
offer_all-room :
    (n : ℕ) (evs : List Event) (ch : Channel)
    → ch.capacity ≡ length ch.queue + n
    → offer_all evs ch ≡ record ch { queue = ch.queue ++ take n evs }
unfolding offer
offer_all-room zero [] ch h = rw (append_nil ch.queue) refl
offer_all-room (suc n) [] ch h = rw (append_nil ch.queue) refl
offer_all-room zero (ev ∷ evs) ch h =
    rw (full-ltb (length ch.queue) ch.capacity h) (offer_all-room zero evs ch h)
offer_all-room (suc n) (ev ∷ evs) ch h =
    let new : Channel = record ch { queue = ch.queue ++ ev ∷ [] } in
    rw (room-ltb (length ch.queue) ch.capacity n h) (
      offer_all-room n evs new (omega (arith, length-append ch.queue (ev ∷ [])))
      ∙ ap (λ q. record ch { queue = q }) (append_assoc ch.queue (ev ∷ []) (take n evs)))

publish_all-subs :
    (b : Bus) (evs : List Event) → (publish_all b evs).subs ≡ map (offer_all evs) b.subs
unfolding publish
publish_all-subs b [] = sym (map_id b.subs)
  where
    map_id : (l : List Channel) → map (offer_all []) l ≡ l
    map_id [] = refl
    map_id (x ∷ l) = rw (map_id l)
publish_all-subs b (ev ∷ evs) =
    publish_all-subs (publish b ev) evs ∙ map_map (offer_all evs) (offer ev) b.subs
  where
    map_map : (f g : Channel → Channel) (l : List Channel) → map f (map g l) ≡ map (λ c. f (g c)) l
    map_map f g [] = refl
    map_map f g (x ∷ l) = rw (map_map f g l)

-- A subscriber whose queue is within its buffer has, after events are published, these events in
-- their order behind what waited there, as many of them as the buffer had room for.
pub publish_all_delivers :
    (b : Bus) (evs : List Event) (ch : Channel)
    → In ch b.subs
    → length ch.queue ≤ ch.capacity
    → In (filled ch evs) (publish_all b evs).subs
publish_all_delivers b evs ch i h =
    subst (λ l. In (filled ch evs) l) (sym (publish_all-subs b evs))
      (subst (λ c. In c (map (offer_all evs) b.subs))
        (offer_all-room (ch.capacity - length ch.queue) evs ch (omega arith))
        (In-mapped (offer_all evs) ch b.subs i))
  where
    In-mapped :
        (f : Channel → Channel) (c : Channel) (l : List Channel) → In c l → In (f c) (map f l)
    In-mapped f c [] i = i
    In-mapped f c (x ∷ l) (inl e) = inl (ap f e)
    In-mapped f c (x ∷ l) (inr i) = inr (In-mapped f c l i)
