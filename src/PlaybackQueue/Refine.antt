-- ===== src/PlaybackQueue/Refine.antt =====
-- The playback queue behaves as a list of at most 512 events, oldest first.
use pico_keyboard_rt_recorde.Base.{
  ℕ, ◌+◌, ◌%◌, ◌≡◌, refl, none, some, List, [], ◌∷◌, length, arith, window, window-push, window-pop,
  window-nil, length-window, ◌≢◌,
}
use pico_keyboard_rt_recorde.Protocol.Codec.{Bytes}
use pico_keyboard_rt_recorde.PlaybackQueue.{
  Event, Queue, queue_capacity, IsValid, clear, event_of, push, pop, peek, free_capacity,
  push-IsValid, pop-IsValid, clear-IsValid,
}
use pico_keyboard_rt_recorde.PlaybackQueue.Spec
use pico_keyboard_rt_recorde.PlaybackQueue.Spec.{
  Op, put, get, look, room, discard, Reply, done, event, free,
}

-- The queued events, oldest first.
abbrev pub contents : Queue → List Event
contents q = window q.events queue_capacity q.read_index q.count

unfoldable pub run : List Op → Queue → List Reply
run [] q = []
run (put t r n ∷ ops) q = let (b, q') = push t r n q in done b ∷ run ops q'
run (get ∷ ops) q = let (e, q') = pop q in event e ∷ run ops q'
run (look ∷ ops) q = event (peek q) ∷ run ops q
run (room ∷ ops) q = free (free_capacity q) ∷ run ops q
run (discard ∷ ops) q = run ops (clear q)

pub length-contents : (q : Queue) → length (contents q) ≡ q.count
length-contents q = length-window q.events queue_capacity q.read_index q.count

pub push_refines :
    (t : ℕ) (r : Bytes) (n : ℕ) {q : Queue}
    → IsValid q
    → let (b, q') = push t r n q in (b, contents q') ≡ Spec.push t r n (contents q)
unfolding push
push_refines t r n {q} v = ground (
  arith,
  length-contents q,
  window-push q.events queue_capacity (event_of t r n) q.count q.read_index q.write_index,
)

in_range : {q : Queue} → IsValid q → q.read_index % queue_capacity ≡ q.read_index
in_range v = omega arith

pub contents-nil : (q : Queue) → q.count ≡ 0 → contents q ≡ []
contents-nil q e = window-nil q.events queue_capacity q.read_index q.count e

contents-cons :
    {q : Queue} → IsValid q → q.count ≢ 0 → contents q ≡ q.events q.read_index ∷ contents (pop q).1
unfolding pop
contents-cons {q} v h = ground (
  arith,
  in_range v,
  window-pop q.events queue_capacity q.read_index ((q.read_index + 1) % queue_capacity) q.count,
)

pub peek_refines : {q : Queue} → IsValid q → peek q ≡ Spec.head (contents q)
unfolding peek pop
peek_refines {q} v = ground (arith, contents-nil q, contents-cons v)

pub pop_refines :
    {q : Queue} → IsValid q → let (e, q') = pop q in (e, contents q') ≡ Spec.pop (contents q)
unfolding pop Spec.pop
pop_refines {q} v = ground (arith, contents-nil q, contents-cons v)

clear_refines : (q : Queue) → contents (clear q) ≡ []
unfolding clear
clear_refines q = window-nil q.events queue_capacity 0 0 refl

-- No sequence of pushes, pops, peeks, capacity queries and clears tells a valid playback queue from
-- the list of its contents, bounded by 512 events.
pub run_refines : (ops : List Op) {q : Queue} → IsValid q → run ops q ≡ Spec.run ops (contents q)
unfolding run Spec.run free_capacity
run_refines [] v = refl
run_refines (put t r n ∷ ops) v =
    rw (run_refines ops (push-IsValid t r n v), ← push_refines t r n v)
run_refines (get ∷ ops) v = rw (run_refines ops (pop-IsValid v), ← pop_refines v)
run_refines (look ∷ ops) v = rw (run_refines ops v, peek_refines v)
run_refines (room ∷ ops) {q} v = rw (run_refines ops v, length-contents q)
run_refines (discard ∷ ops) {q} v = rw (run_refines ops (clear-IsValid q), clear_refines q)

-- `peek` finds an event exactly when the list of the contents begins with it.
pub peek-some :
    {q : Queue} {e : Event} → IsValid q → peek q ≡ some e → contents q ≡ e ∷ contents (pop q).1
unfolding peek
peek-some {q} v h = ground (arith, contents-cons v)

pub peek-none : (q : Queue) → peek q ≡ none → contents q ≡ []
unfolding peek
peek-none q h = ground (arith, contents-nil q)
