-- ===== src/Scheduler/Run.antt =====
-- The start and the end of a playback run, and the choice of the next deadline: pico/src/playback_scheduler.c.
use pico_keyboard_rt_recorde.Base.{
  ℕ, ◌+◌, ◌-◌, Bool, true, false, not, ◌&&◌, Option, none, some, ltb, leb, if◌then◌else◌, u16, u32,
  u64, pos, ltb_ℤ,
}
use pico_keyboard_rt_recorde.Protocol.{reason_aborted, reason_finished}
use pico_keyboard_rt_recorde.PlaybackQueue.{Event, peek, free_capacity}
use pico_keyboard_rt_recorde.Scheduler.{
  Metrics, Scheduler, System, Sdk, Callbacks, watchdog_timeout_us,
}
use pico_keyboard_rt_recorde.Scheduler.Samples.{sort_samples, percentile}

-- The metrics of `finish`, once the samples are sorted.
unfoldable pub metrics : Scheduler → Metrics
metrics s = record {
  dispatched_count = s.dispatched_count;
  underrun_count = s.underrun_count;
  min_lateness_us = s.min_lateness_us;
  max_lateness_us = s.max_lateness_us;
  sum_lateness_us = s.sum_lateness_us;
  p95_lateness_us = percentile s.lateness_samples s.sample_count 95;
  p99_lateness_us = percentile s.lateness_samples s.sample_count 99;
  samples_truncated = s.samples_truncated;
}

abbrev pub set_scheduler : {W : Type 0} → Scheduler → System W → System W
set_scheduler s y = record y { scheduler = s }

abbrev pub set_world : {W : Type 0} → W → System W → System W
set_world w y = record y { world = w }

-- The scheduler of a run that has just ended: stopped, its samples sorted in place.
unfoldable pub ended : Scheduler → Scheduler
ended s = record s {
  running = false;
  lateness_samples = sort_samples s.lateness_samples s.sample_count;
}

abbrev pub call_complete :
    {W : Type 0} → Option (ℕ → Metrics → System W → System W) → ℕ → Metrics → System W → System W
call_complete none reason m y = y
call_complete (some f) reason m y = f reason m y

abbrev pub call_underrun : {W : Type 0} → Option (ℕ → ℕ → W → W) → ℕ → ℕ → W → W
call_underrun none elapsed free w = w
call_underrun (some f) elapsed free w = f elapsed free w

-- The scheduler of a new run.
unfoldable pub fresh_run : ℕ → Scheduler → Scheduler
fresh_run start_us s = record s {
  running = true;
  waiting_for_event = false;
  underrun_active = false;
  playback_start_us = start_us;
  next_deadline_us = start_us;
  alarm_armed = false;
  alarm_fired = false;
  dispatched_count = 0;
  underrun_count = 0;
  min_lateness_us = pos 0;
  max_lateness_us = pos 0;
  sum_lateness_us = pos 0;
  sample_count = 0;
  samples_truncated = false;
}

module _ {W : Type 0} (cb : Callbacks W) where
  unfoldable pub end_run : ℕ → System W → System W
  unfolding ended metrics
  end_run reason y =
      let s = ended y.scheduler in
      call_complete cb.on_complete reason (metrics s) (set_scheduler s y)

module _ {W : Type 0} (sdk : Sdk W) where
  -- The alarm of the event before may still be armed.
  unfoldable pub drop_alarm : System W → System W
  drop_alarm y =
      if y.scheduler.alarm_armed
      then record y {
        scheduler = record y.scheduler { alarm_armed = false; alarm_fired = false };
        world = sdk.cancel_alarm y.scheduler.alarm_id y.world;
      }
      else y

  -- The deadline of the queue's head, and an alarm for it if it lies in the future.
  unfoldable pub set_deadline : Event → System W → System W
  set_deadline e y =
      let s = record y.scheduler {
        waiting_for_event = false;
        underrun_active = false;
        next_deadline_us = u64 (y.scheduler.playback_start_us + e.offset_us);
      } in
      let (now_us, w) = sdk.time_us_64 y.world in
      let (id, w') = sdk.add_alarm_at s.next_deadline_us w in
      if ltb now_us s.next_deadline_us
      then record {
        scheduler = if ltb_ℤ (pos 0) id then record s { alarm_id = id; alarm_armed = true } else s;
        queue = y.queue;
        world = w';
      }
      else record { scheduler = s; queue = y.queue; world = w }

module _ {W : Type 0} (sdk : Sdk W) (cb : Callbacks W) where
  unfoldable pub begin_underrun : System W → System W
  begin_underrun y =
      let s = record y.scheduler { waiting_for_event = true } in
      let (now_us, w) = sdk.time_us_64 y.world in
      let elapsed_offset_us =
        if leb s.playback_start_us now_us then now_us - s.playback_start_us else 0 in
      if s.underrun_active then set_scheduler s y else record {
        scheduler = record s {
          underrun_active = true;
          underrun_since_us = now_us;
          underrun_count = u32 (s.underrun_count + 1);
        };
        queue = y.queue;
        world = call_underrun cb.on_underrun elapsed_offset_us (u16 (free_capacity y.queue)) w;
      }

  -- An empty queue ends an ended sequence, and is an underrun of an open one.
  unfoldable pub run_dry : System W → System W
  unfolding end_run begin_underrun
  run_dry y = if y.scheduler.sequence_ended then end_run cb reason_finished y else begin_underrun y

  unfoldable pub arm_next : System W → Bool × System W
  unfolding drop_alarm run_dry set_deadline
  arm_next y =
      let y' = drop_alarm sdk y in
      elim (peek y'.queue) [ none ↦ (false, run_dry y') | some e ↦ (true, set_deadline sdk e y') ]

  unfoldable pub start : ℕ → System W → System W
  unfolding fresh_run arm_next
  start start_us y =
      if y.scheduler.running
      then y
      else (arm_next (set_scheduler (fresh_run start_us y.scheduler) y)).1

  unfoldable pub stop : System W → System W
  unfolding end_run
  stop y =
      let s = record y.scheduler { alarm_armed = false; alarm_fired = false } in
      let w =
        if y.scheduler.alarm_armed
        then sdk.cancel_alarm y.scheduler.alarm_id y.world
        else y.world in
      if not y.scheduler.running
      then y
      else end_run cb reason_aborted (record { scheduler = s; queue = y.queue; world = w })

unfoldable pub reset_sequence : Scheduler → Scheduler
reset_sequence s =
    if s.running
    then s
    else record s { sequence_ended = false; waiting_for_event = false; underrun_active = false }

unfoldable pub mark_sequence_ended : Scheduler → Scheduler
mark_sequence_ended s = record s { sequence_ended = true }

unfoldable pub watchdog_expired : Scheduler → ℕ → Bool
watchdog_expired s now_us =
    s.underrun_active
    && leb s.underrun_since_us now_us
    && leb watchdog_timeout_us (now_us - s.underrun_since_us)
