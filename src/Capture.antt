-- ===== src/Capture.antt =====
-- pico/include/keyboard_capture.h and pico/src/keyboard_capture.c: the bounded FIFO of physical reports
-- between the USB host callback and the main loop, with the flag that its head was recorded.
pub mod Refine
use pico_keyboard_rt_recorde.Base.{
  ℕ, ◌+◌, ◌-◌, ◌%◌, ◌≤◌, ◌<◌, ◌≡◌, ◌||◌, ◌&&◌, not, Bool, true, false, Option, none, some, ◌==◌,
  if◌then◌else◌, Array, update, u8, u32, [], arith,
}
use pico_keyboard_rt_recorde.Hid.{Report, report_size, report_of_bytes}
use pico_keyboard_rt_recorde.Protocol.Codec.{Bytes, is_null, copy}

abbrev pub capture_capacity : ℕ
capture_capacity = 16

-- `pico_keyboard_capture_event_t`
pub record Event : Type 0 where
  pub timestamp_us : ℕ
  pub report_len : ℕ
  pub report : Report

-- `pico_keyboard_capture_stats_t`; every counter is a uint32_t.
pub record Stats : Type 0 where
  pub accepted : ℕ
  pub invalid : ℕ
  pub dropped : ℕ

-- `pico_keyboard_capture_t`
pub record Capture : Type 0 where
  pub events : Array Event
  pub read_index : ℕ
  pub write_index : ℕ
  pub count : ℕ
  pub stats : Stats
  pub is_head_recorded : Bool

abbrev pub zero_event : Event
zero_event = record {
  timestamp_us = 0;
  report_len = 0;
  report = record { modifier = 0; reserved = 0; keycode = [] };
}

abbrev pub init : Capture
init = record {
  events = λ _. zero_event;
  read_index = 0;
  write_index = 0;
  count = 0;
  stats = record { accepted = 0; invalid = 0; dropped = 0 };
  is_head_recorded = false;
}

unfoldable pub clear : Capture → Capture
clear c = record c { read_index = 0; write_index = 0; count = 0; is_head_recorded = false }

-- The event that `push` writes into the slot.
abbrev pub event_of : ℕ → Bytes → ℕ → Event
event_of timestamp_us report report_len = record {
  timestamp_us = timestamp_us;
  report_len = u8 report_len;
  report = report_of_bytes (copy report_size report);
}

unfoldable pub push : ℕ → Bytes → ℕ → Capture → Bool × Capture
push timestamp_us report report_len c =
    if is_null report || not (report_len == report_size)
    then (false, record c { stats = record c.stats { invalid = u32 (c.stats.invalid + 1) } })
    else if c.count == capture_capacity
    then (false, record c { stats = record c.stats { dropped = u32 (c.stats.dropped + 1) } })
    else (
      true,
      record c {
        events = update c.events c.write_index (event_of timestamp_us report report_len);
        write_index = (c.write_index + 1) % capture_capacity;
        count = c.count + 1;
        stats = record c.stats { accepted = u32 (c.stats.accepted + 1) };
      },
    )

-- `none` is the return value false.
unfoldable pub pop : Capture → Option Event × Capture
pop c = if c.count == 0 then (none, c) else (
  some (c.events c.read_index),
  record c {
    read_index = (c.read_index + 1) % capture_capacity;
    count = c.count - 1;
    is_head_recorded = false;
  },
)

unfoldable pub peek : Capture → Option Event
peek c = if c.count == 0 then none else some (c.events c.read_index)

unfoldable pub get_stats : Capture → Stats
get_stats c = c.stats

unfoldable pub head_recorded : Capture → Bool
head_recorded c = not (c.count == 0) && c.is_head_recorded

unfoldable pub mark_head_recorded : Capture → Capture
mark_head_recorded c = if c.count == 0 then c else record c { is_head_recorded = true }

-- The indices stay in the array, the write index is `count` slots past the read index, and an empty
-- FIFO has no recorded head, so a fresh head starts unrecorded.
pub record IsValid (c : Capture) : Type 0 where
  pub read_in : c.read_index < capture_capacity
  pub bounded : c.count ≤ capture_capacity
  pub aligned : c.write_index ≡ (c.read_index + c.count) % capture_capacity
  pub fresh : c.count ≡ 0 → c.is_head_recorded ≡ false

pub init-IsValid : IsValid init
init-IsValid = ground arith

pub clear-IsValid : (c : Capture) → IsValid (clear c)
unfolding clear
clear-IsValid c = ground arith

pub push-IsValid :
    (t : ℕ) (report : Bytes) (n : ℕ) {c : Capture} → IsValid c → IsValid (push t report n c).1
unfolding push
push-IsValid t none n v = ground arith
push-IsValid t (some bytes) n v = ground arith

pub pop-IsValid : {c : Capture} → IsValid c → IsValid (pop c).1
unfolding pop
pop-IsValid v = ground arith

pub mark-IsValid : {c : Capture} → IsValid c → IsValid (mark_head_recorded c)
unfolding mark_head_recorded
mark-IsValid v = ground arith
