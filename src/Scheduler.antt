-- ===== src/Scheduler.antt =====
-- pico/include/playback_scheduler.h: the state of the playback scheduler, its callbacks, and what it
-- takes from the Pico SDK. The operations of pico/src/playback_scheduler.c are in the children.
pub mod Samples
pub mod Run
pub mod Task
pub mod Delivery
pub mod Deadline
pub mod Watchdog
pub mod Drains
use pico_keyboard_rt_recorde.Base.{ℕ, Bool, true, false, Option, none, some, Array, ℤ, pos}
use pico_keyboard_rt_recorde.Hid.{Report}
use pico_keyboard_rt_recorde.PlaybackQueue.{Queue}

abbrev pub max_samples : ℕ
max_samples = 2048

abbrev pub watchdog_timeout_us : ℕ
watchdog_timeout_us = 2000000

-- `pico_playback_scheduler_metrics_t`
pub record Metrics : Type 0 where
  pub dispatched_count : ℕ
  pub underrun_count : ℕ
  pub min_lateness_us : ℤ
  pub max_lateness_us : ℤ
  pub sum_lateness_us : ℤ
  pub p95_lateness_us : ℤ
  pub p99_lateness_us : ℤ
  pub samples_truncated : Bool

-- `pico_playback_scheduler_t`, but for the queue and the callbacks, which `System` and the operations'
-- parameters hold.
pub record Scheduler : Type 0 where
  pub running : Bool
  pub sequence_ended : Bool
  pub waiting_for_event : Bool
  pub underrun_active : Bool
  pub playback_start_us : ℕ
  pub next_deadline_us : ℕ
  pub underrun_since_us : ℕ
  pub alarm_fired : Bool
  pub alarm_id : ℤ
  pub alarm_armed : Bool
  pub dispatched_count : ℕ
  pub underrun_count : ℕ
  pub min_lateness_us : ℤ
  pub max_lateness_us : ℤ
  pub sum_lateness_us : ℤ
  pub lateness_samples : Array ℤ
  pub sample_count : ℕ
  pub samples_truncated : Bool

-- The scheduler, its queue, and the rest of the program.
pub record System (W : Type 0) : Type 0 where
  pub scheduler : Scheduler
  pub queue : Queue
  pub world : W

-- What the scheduler takes from the Pico SDK, as operations on the rest of the program. The alarm
-- interrupt may run at any time: `alarm_interrupt` says whether `alarm_isr` has run since the flag was
-- last read or cleared, at the moment at which the main loop reads the flag.
pub record Sdk (W : Type 0) : Type 0 where
  pub time_us_64 : W → ℕ × W
  pub add_alarm_at : ℕ → W → ℤ × W
  pub cancel_alarm : ℤ → W → W
  pub alarm_interrupt : W → Bool × W

-- `pico_playback_scheduler_callbacks_t`; `none` is NULL. Each takes the part of the program that the C
-- callback can reach: the end of a run may change anything, a grant of credit reads the queue.
pub record Callbacks (W : Type 0) : Type 0 where
  pub send_report : Option (Report → W → Bool × W)
  pub on_complete : Option (ℕ → Metrics → System W → System W)
  pub on_underrun : Option (ℕ → ℕ → W → W)
  pub on_buffer_available : Option (Queue → W → W)

abbrev pub init : Scheduler
init = record {
  running = false;
  sequence_ended = false;
  waiting_for_event = false;
  underrun_active = false;
  playback_start_us = 0;
  next_deadline_us = 0;
  underrun_since_us = 0;
  alarm_fired = false;
  alarm_id = pos 0;
  alarm_armed = false;
  dispatched_count = 0;
  underrun_count = 0;
  min_lateness_us = pos 0;
  max_lateness_us = pos 0;
  sum_lateness_us = pos 0;
  lateness_samples = λ _. pos 0;
  sample_count = 0;
  samples_truncated = false;
}

-- `alarm_isr`; its return value 0 asks the SDK for no new alarm.
unfoldable pub alarm_isr : Scheduler → Scheduler
alarm_isr s = record s { alarm_fired = true }
