-- ===== src/PlaybackQueue.antt =====
-- pico/include/playback_queue.h and pico/src/playback_queue.c: the bounded FIFO of future events.
pub mod Spec
pub mod Refine
use pico_keyboard_rt_recorde.Base.{
  ℕ, ◌+◌, ◌-◌, ◌%◌, ◌≤◌, ◌<◌, ◌≡◌, ◌||◌, not, Bool, true, false, Option, none, some, ◌==◌,
  if◌then◌else◌, Array, update, u8, List, [], length, arith,
}
use pico_keyboard_rt_recorde.Hid.{Report, report_size, report_of_bytes}
use pico_keyboard_rt_recorde.Protocol.Codec.{Bytes, is_null, copy}

abbrev pub queue_capacity : ℕ
queue_capacity = 512

-- `pico_playback_queue_event_t`
pub record Event : Type 0 where
  pub offset_us : ℕ
  pub report_len : ℕ
  pub report : Report

-- `pico_playback_queue_t`
pub record Queue : Type 0 where
  pub events : Array Event
  pub read_index : ℕ
  pub write_index : ℕ
  pub count : ℕ

abbrev pub zero_event : Event
zero_event = record {
  offset_us = 0;
  report_len = 0;
  report = record { modifier = 0; reserved = 0; keycode = [] };
}

abbrev pub init : Queue
init = record { events = λ _. zero_event; read_index = 0; write_index = 0; count = 0 }

unfoldable pub clear : Queue → Queue
clear q = record q { read_index = 0; write_index = 0; count = 0 }

-- The event that `push` writes into the slot.
abbrev pub event_of : ℕ → Bytes → ℕ → Event
event_of offset_us report report_len = record {
  offset_us = offset_us;
  report_len = u8 report_len;
  report = report_of_bytes (copy report_size report);
}

unfoldable pub push : ℕ → Bytes → ℕ → Queue → Bool × Queue
push offset_us report report_len q =
    if is_null report || not (report_len == report_size)
    then (false, q)
    else if q.count == queue_capacity
    then (false, q)
    else (
      true,
      record q {
        events = update q.events q.write_index (event_of offset_us report report_len);
        write_index = (q.write_index + 1) % queue_capacity;
        count = q.count + 1;
      },
    )

-- `none` is the return value false.
unfoldable pub pop : Queue → Option Event × Queue
pop q = if q.count == 0 then (none, q) else (
  some (q.events q.read_index),
  record q { read_index = (q.read_index + 1) % queue_capacity; count = q.count - 1 },
)

unfoldable pub peek : Queue → Option Event
peek q = if q.count == 0 then none else some (q.events q.read_index)

-- `count` never passes the capacity (`IsValid`), so the subtraction of size_t does not wrap.
unfoldable pub free_capacity : Queue → ℕ
free_capacity q = queue_capacity - q.count

-- The indices stay in the array, and the write index is `count` slots past the read index.
pub record IsValid (q : Queue) : Type 0 where
  pub read_in : q.read_index < queue_capacity
  pub bounded : q.count ≤ queue_capacity
  pub aligned : q.write_index ≡ (q.read_index + q.count) % queue_capacity

pub init-IsValid : IsValid init
init-IsValid = omega arith

pub clear-IsValid : (q : Queue) → IsValid (clear q)
unfolding clear
clear-IsValid q = omega arith

pub push-IsValid :
    (offset_us : ℕ) (report : Bytes) (n : ℕ) {q : Queue}
    → IsValid q
    → IsValid (push offset_us report n q).1
unfolding push
push-IsValid offset_us none n v = v
push-IsValid offset_us (some bytes) n v = ground arith

pub pop-IsValid : {q : Queue} → IsValid q → IsValid (pop q).1
unfolding pop
pop-IsValid v = ground arith
