-- ===== src/Firmware/ClosedRules.antt =====
-- The induction principle of Firmware/Closed for the callbacks and the helpers of the scheduler in
-- pico/src/main.c.
use pico_keyboard_rt_recorde.Base.{
  ℕ, ◌+◌, ◌/◌, ◌%◌, ◌++◌, ltb, u64, not, ◌&&◌, Bool, true, false, some, List, [], ◌∷◌, ◌==◌,
  if◌then◌else◌, inl, inr, Bool-cases,
}
use pico_keyboard_rt_recorde.Protocol.{reason_finished, play_underrun, buffer_status}
use pico_keyboard_rt_recorde.PlaybackQueue
use pico_keyboard_rt_recorde.PlaybackQueue.{Event, Queue, free_capacity}
use pico_keyboard_rt_recorde.Mode.Abstract.{finish, apply}
use pico_keyboard_rt_recorde.Scheduler.{Scheduler}
use pico_keyboard_rt_recorde.Scheduler.Run.{
  drop_alarm, set_deadline, end_run, ended, begin_underrun,
}
use pico_keyboard_rt_recorde.Scheduler.Task.{complete_dispatch}
use pico_keyboard_rt_recorde.Firmware.{
  Board, Firmware, send_frame, on_world, send_buffer_status, playback_underrun,
  playback_buffer_available, send_report, sdk, finish_mode, scheduler_callbacks,
}
use pico_keyboard_rt_recorde.Firmware.Words.{le_bytes}
use pico_keyboard_rt_recorde.Firmware.Closed.{
  Closed, if_rule, board_rule, flow_rule, scheduler_rule, report_completion_rule, cancel_rule,
}

module _ {E : Type 0} (P : Firmware E → Type 0) (board : Board E) (closed : Closed board P) where
  finish_mode_rule : (y : Firmware E) → P y → P (finish_mode board y)
  unfolding finish_mode
  finish_mode_rule y h = unfold apply in closed.moded finish y h

  -- A frame that finds no room leaves the flow-control fault.
  saturated_rule :
      (queued : Bool) (y : Firmware E)
      → P y
      → P (on_world (λ w. if not queued then record w { flow_fault = true } else w) y)
  saturated_rule true y h = h
  saturated_rule false y h = flow_rule P closed.elementary true y h

  pub underrun_rule : (t n : ℕ) (y : Firmware E) → P y → P (on_world (playback_underrun t n) y)
  unfolding playback_underrun
  underrun_rule t n y h =
      let payload = some (le_bytes 8 t ++ n % 256 ∷ n / 256 ∷ []) in
      let (queued, w) = send_frame play_underrun payload 10 y.world in
      saturated_rule queued (record y { world = w })
        (closed.elementary.framed play_underrun 10 payload y h)

  pub buffer_status_rule :
      (q : Queue) (y : Firmware E) → P y → P (on_world (λ w. (send_buffer_status q w).1) y)
  unfolding send_buffer_status
  buffer_status_rule q y h = closed.elementary.framed buffer_status 5 _ y h

  pub grant_rule :
      (b : Bool) (q : Queue) (y : Firmware E)
      → P y
      → P (on_world (λ w. if b then playback_buffer_available q w else w) y)
  unfolding playback_buffer_available
  grant_rule false q y h = h
  grant_rule true q y h =
      let (queued, w) = send_buffer_status q y.world in
      saturated_rule queued (record y { world = w }) (buffer_status_rule q y h)

  -- Only the scheduler and the hardware have changed.
  pub tick_rule :
      (s : Scheduler) (b : E) (y : Firmware E)
      → P y
      → P (record { scheduler = s; queue = y.queue; world = record y.world { board = b } })
  tick_rule s b y h = closed.elementary.others s y.world.release y.world.flow_fault b y h

  pub send_rule :
      (bytes : List ℕ) (y : Firmware E) → P y → P (on_world (λ w. (send_report board bytes w).1) y)
  unfolding send_report
  send_rule bytes y h = elim (Bool-cases (board.tud_hid_ready y.world.board).0) [
    | inl r ↦ rw r (board_rule P closed.elementary _ y h)
    | inr r ↦ rw r (board_rule P closed.elementary _ y h)
  ]

  pub drop_alarm_rule : (y : Firmware E) → P y → P (drop_alarm (sdk board) y)
  unfolding drop_alarm
  drop_alarm_rule y h =
      if_rule P closed.elementary y.scheduler.alarm_armed _ y
        (cancel_rule P closed.elementary board true _ y h) h

  pub set_deadline_rule : (e : Event) (y : Firmware E) → P y → P (set_deadline (sdk board) e y)
  unfolding set_deadline
  set_deadline_rule e y h =
      let deadline_us = u64 (y.scheduler.playback_start_us + e.offset_us) in
      elim (Bool-cases (ltb (board.time_us_64 y.world.board).0 deadline_us)) [
        | inl c ↦ rw c (tick_rule _ _ y h)
        | inr c ↦ rw c (tick_rule _ _ y h)
      ]

  pub begin_underrun_rule :
      (y : Firmware E) → P y → P (begin_underrun (sdk board) (scheduler_callbacks board) y)
  unfolding begin_underrun
  begin_underrun_rule y h =
      if_rule P closed.elementary y.scheduler.underrun_active _ _
        (scheduler_rule P closed.elementary _ y h) (underrun_rule _ _ _ (tick_rule _ _ y h))

  pub end_run_rule :
      (y : Firmware E) → P y → P (end_run (scheduler_callbacks board) reason_finished y)
  unfolding end_run
  end_run_rule y h = finish_mode_rule _ (
      report_completion_rule P closed.elementary reason_finished _ _
        (scheduler_rule P closed.elementary (ended y.scheduler) y h))

  pub complete_dispatch_rule :
      (y : Firmware E) → P y → P (complete_dispatch (sdk board) (scheduler_callbacks board) y)
  unfolding complete_dispatch
  complete_dispatch_rule y h =
      let q = (PlaybackQueue.pop y.queue).1 in
      let granted =
        grant_rule (free_capacity y.queue == 0 && not y.scheduler.sequence_ended) q
          (record y { queue = q }) (closed.elementary.queue_popped y h) in
      tick_rule _ _ _ granted
