-- ===== src/Bus.antt =====
-- internal/bus: live notification. A channel is its capacity and the events that wait in it; a
-- channel that was cancelled is closed and gone from the map.
pub mod Delivery
pub mod Subscribers
use runtime_pulse.Prelude.{
  ℕ, zero, suc, ℤ, pos, negsuc, Bool, List, [], ◌∷◌, ◌++◌, map, not, Option, none, some, ltb,
  nat_eq, length, filter, if◌then◌else◌,
}
use runtime_pulse.Core.{Event}

pub record Channel : Type 0 where
  pub key : ℕ
  pub capacity : ℕ
  pub queue : List Event

pub record Bus : Type 0 where
  pub subs : List Channel
  pub next : ℕ

-- New
abbrev pub new_bus : Bus
new_bus = record { subs = []; next = 0 }

-- Buffers below 1 are raised to 1.
abbrev pub buffer_size : ℤ → ℕ
buffer_size (pos zero) = 1
buffer_size (pos (suc n)) = suc n
buffer_size (negsuc n) = 1

-- Bus.Subscribe, with the key by which the cancel function names the channel.
unfoldable pub subscribe : Bus → ℤ → Bus × ℕ
subscribe b buffer = (
  record {
    subs = b.subs ++ record { key = b.next; capacity = buffer_size buffer; queue = [] } ∷ [];
    next = suc b.next;
  },
  b.next,
)

-- The cancel function of a subscription.
unfoldable pub cancel : Bus → ℕ → Bus
cancel b key = record b { subs = filter (λ ch. not (nat_eq ch.key key)) b.subs }

-- A send that does not block: a full channel drops the event.
unfoldable pub offer : Event → Channel → Channel
offer ev ch =
    if ltb (length ch.queue) ch.capacity then record ch { queue = ch.queue ++ ev ∷ [] } else ch

-- Bus.Publish
unfoldable pub publish : Bus → Event → Bus
publish b ev = record b { subs = map (offer ev) b.subs }
