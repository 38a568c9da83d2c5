-- ===== src/PlaybackQueue/Spec.antt =====
-- The abstract playback queue: a list of events, oldest first, bounded by the capacity.
use pico_keyboard_rt_recorde.Base.{
  ℕ, ◌-◌, ◌||◌, not, Bool, true, false, Option, none, some, List, [], ◌∷◌, ◌++◌, ltb, ◌==◌,
  if◌then◌else◌, length,
}
use pico_keyboard_rt_recorde.Hid.{report_size}
use pico_keyboard_rt_recorde.Protocol.Codec.{Bytes, is_null}
use pico_keyboard_rt_recorde.PlaybackQueue.{Event, queue_capacity, event_of}

-- What a client may do with the queue, and what it sees.
pub data Op : Type 0 where
  put : ℕ → Bytes → ℕ → Op
  get look room discard : Op

pub data Reply : Type 0 where
  done : Bool → Reply
  event : Option Event → Reply
  free : ℕ → Reply

abbrev pub push : ℕ → Bytes → ℕ → List Event → Bool × List Event
push offset_us report n xs =
    if is_null report || not (n == report_size) || not (ltb (length xs) queue_capacity)
    then (false, xs)
    else (true, xs ++ event_of offset_us report n ∷ [])

abbrev pub head : List Event → Option Event
head [] = none
head (x ∷ xs) = some x

abbrev pub tail : List Event → List Event
tail [] = []
tail (x ∷ xs) = xs

unfoldable pub pop : List Event → Option Event × List Event
pop xs = (head xs, tail xs)

unfoldable pub run : List Op → List Event → List Reply
run [] xs = []
run (put t r n ∷ ops) xs = let (b, ys) = push t r n xs in done b ∷ run ops ys
run (get ∷ ops) xs = let (e, ys) = pop xs in event e ∷ run ops ys
run (look ∷ ops) xs = event (head xs) ∷ run ops xs
run (room ∷ ops) xs = free (queue_capacity - length xs) ∷ run ops xs
run (discard ∷ ops) xs = run ops []
