-- ===== src/Capture/Refine.antt =====
-- The capture FIFO behaves as a list of at most 16 reports, oldest first.
use pico_keyboard_rt_recorde.Base.{
  ℕ, ◌+◌, ◌%◌, ◌<◌, ◌≡◌, ◌≢◌, ◌||◌, not, Bool, true, false, none, some, List, [], ◌∷◌, ◌++◌, ltb,
  ◌==◌, if◌then◌else◌, length, arith, window, window-push, window-pop, window-nil, length-window,
  ℕ_discrete,
}
use pico_keyboard_rt_recorde.Hid.{report_size}
use pico_keyboard_rt_recorde.Protocol.Codec.{Bytes, is_null}
use pico_keyboard_rt_recorde.Capture.{
  Event, Capture, capture_capacity, IsValid, event_of, push, pop, peek,
}

-- The captured reports, oldest first.
abbrev pub contents : Capture → List Event
contents c = window c.events capture_capacity c.read_index c.count

pub length-contents : (c : Capture) → length (contents c) ≡ c.count
length-contents c = length-window c.events capture_capacity c.read_index c.count

-- The bounded list's way to take a report: refused when it is malformed or there is no room.
abbrev pub offer : ℕ → Bytes → ℕ → List Event → Bool × List Event
offer t r n xs =
    if is_null r || not (n == report_size) || not (ltb (length xs) capture_capacity)
    then (false, xs)
    else (true, xs ++ event_of t r n ∷ [])

-- A report is taken exactly when it is 8 bytes long and fewer than 16 are queued; it then stands last,
-- and a refused report changes nothing that is queued. The FIFO is valid before.
pub contents-push :
    (t : ℕ) (r : Bytes) (n : ℕ) {c : Capture}
    → IsValid c
    → let (b, c') = push t r n c in (b, contents c') ≡ offer t r n (contents c)
unfolding push
contents-push t r n {c} v = ground (
  arith,
  length-contents c,
  window-push c.events capture_capacity (event_of t r n) c.count c.read_index c.write_index,
)

in_range : {c : Capture} → IsValid c → c.read_index % capture_capacity ≡ c.read_index
in_range v = omega arith

pub contents-nil : (c : Capture) → c.count ≡ 0 → contents c ≡ []
contents-nil c e = window-nil c.events capture_capacity c.read_index c.count e

pub contents-cons :
    {c : Capture}
    → IsValid c
    → c.count ≢ 0
    → contents c ≡ c.events c.read_index ∷ contents (pop c).1
unfolding pop
contents-cons {c} v h = ground (
  arith,
  in_range v,
  window-pop c.events capture_capacity c.read_index ((c.read_index + 1) % capture_capacity) c.count,
)

-- `peek` finds nothing exactly when nothing is queued, and otherwise the oldest report, which `pop`
-- removes.
pub data Front (c : Capture) : Type 0 where
  empty : peek c ≡ none → contents c ≡ [] → c.count ≡ 0 → Front c
  front :
      (e : Event)
      → peek c ≡ some e
      → contents c ≡ e ∷ contents (pop c).1
      → c.count ≢ 0
      → (pop c).1.count < c.count
      → Front c

pub Front-cases : {c : Capture} → IsValid c → Front c
unfolding peek pop
Front-cases {c} v = elim (ℕ_discrete c.count 0) [
  | yes e ↦ empty (ground arith) (contents-nil c e) e
  | no ne ↦ front (c.events c.read_index) (ground arith) (contents-cons v ne) ne (ground arith)
]
