-- ===== src/Scheduler/Task.antt =====
-- `pico_playback_scheduler_task` of pico/src/playback_scheduler.c: the loop that dispatches what is due.
pub mod Cases
pub mod Fuel
pub mod Rule
use pico_keyboard_rt_recorde.Base.{
  ℕ, zero, suc, ◌+◌, ◌-◌, ◌^◌, Bool, true, false, not, ◌&&◌, ◌||◌, Option, none, some, ltb, ◌==◌,
  if◌then◌else◌, ℤ, pos, negsuc, ltb_ℤ, ◌-ℤ◌, signed64,
}
use pico_keyboard_rt_recorde.Hid.{Report}
use pico_keyboard_rt_recorde.PlaybackQueue.{Event, Queue, peek, pop, free_capacity}
use pico_keyboard_rt_recorde.Scheduler.{Scheduler, System, Sdk, Callbacks}
use pico_keyboard_rt_recorde.Scheduler.Samples.{record_lateness}
use pico_keyboard_rt_recorde.Scheduler.Run.{set_scheduler, set_world, run_dry, arm_next}

abbrev pub int32_max : ℤ
int32_max = pos (2 ^ 31 - 1)

abbrev pub int32_min : ℤ
int32_min = negsuc (2 ^ 31 - 1)

unfoldable pub clamp32 : ℤ → ℤ
clamp32 late =
    if ltb_ℤ int32_max late then int32_max else if ltb_ℤ late int32_min then int32_min else late

-- The difference of the two int64_t values is taken without wrap-around: overflow of a signed type has no
-- meaning in C, and the clamp hides no value that fits.
unfoldable pub lateness : ℕ → ℕ → ℤ
unfolding clamp32
lateness dispatch_time_us deadline_us = clamp32 (signed64 dispatch_time_us -ℤ signed64 deadline_us)

abbrev pub call_send : {W : Type 0} → Option (Report → W → Bool × W) → Report → W → Bool × W
call_send none r w = (false, w)
call_send (some f) r w = f r w

abbrev pub call_buffer_available : {W : Type 0} → Option (Queue → W → W) → Queue → W → W
call_buffer_available none q w = w
call_buffer_available (some f) q w = f q w

module _ {W : Type 0} (sdk : Sdk W) where
  -- `atomic_exchange_explicit(&scheduler->alarm_fired, false, ...)`
  unfoldable pub exchange_alarm : System W → Bool × System W
  exchange_alarm y =
      let (interrupted, w) = sdk.alarm_interrupt y.world in
      (
        y.scheduler.alarm_fired || interrupted,
        record y { scheduler = record y.scheduler { alarm_fired = false }; world = w },
      )

  unfoldable pub read_clock : System W → ℕ × System W
  read_clock y = let (now_us, w) = sdk.time_us_64 y.world in (now_us, set_world w y)

module _ {W : Type 0} (sdk : Sdk W) (cb : Callbacks W) where
  -- The head was sent: take it out, grant credit if the queue was full, log the lateness.
  unfoldable pub complete_dispatch : System W → System W
  unfolding lateness
  complete_dispatch y =
      let queue_was_full = free_capacity y.queue == 0 in
      let q = (pop y.queue).1 in
      let w =
        if queue_was_full && not y.scheduler.sequence_ended
        then call_buffer_available cb.on_buffer_available q y.world
        else y.world in
      let (dispatch_time_us, w') = sdk.time_us_64 w in
      let late = lateness dispatch_time_us y.scheduler.next_deadline_us in
      record { scheduler = record_lateness late y.scheduler; queue = q; world = w' }

  -- The head is due. The Boolean says whether the loop goes on.
  unfoldable pub dispatch_head : System W → Bool × System W
  unfolding complete_dispatch
  dispatch_head y = elim (peek y.queue) [
    | none ↦ (false, run_dry sdk cb y)
    | some e ↦
        let (taken, w) = call_send cb.send_report e.report y.world in
        let done = arm_next sdk cb (complete_dispatch (set_world w y)) in
        if not taken then (false, set_world w y) else done
  ]

  -- The two signs that the head is due; the clock is read only if the alarm has not fired.
  unfoldable pub turn_due : System W → Bool × System W
  unfolding exchange_alarm read_clock dispatch_head
  turn_due y =
      let (fired, y') = exchange_alarm sdk y in
      let (now_us, y'') = read_clock sdk y' in
      if fired
      then dispatch_head y'
      else if ltb now_us y.scheduler.next_deadline_us
      then (false, y'')
      else dispatch_head y''

  -- Behind `arm_next`, while waiting.
  unfoldable pub turn_armed : Bool × System W → Bool × System W
  unfolding turn_due
  turn_armed (armed, y) = if not armed then (false, y) else turn_due y

  -- One turn of the loop.
  unfoldable pub turn : System W → Bool × System W
  unfolding turn_armed
  turn y = if y.scheduler.waiting_for_event then turn_armed (arm_next sdk cb y) else turn_due y

  -- The loop on fuel.
  unfoldable pub task_loop : ℕ → System W → System W
  unfolding turn
  task_loop zero y = y
  task_loop (suc n) y = elim y.scheduler.running [
    | false ↦ y
    | true ↦ elim (turn y).0 [ true ↦ task_loop n (turn y).1 | false ↦ (turn y).1 ]
  ]

  -- Every turn that goes on has taken one event out of the queue.
  unfoldable pub task : System W → System W
  unfolding task_loop
  task y = task_loop (suc y.queue.count) y
