-- ===== src/Firmware/ClosedSteps.antt =====
-- The induction principle of Firmware/Closed for the scheduler's task, the errors and the commands of
-- pico/src/main.c.
use pico_keyboard_rt_recorde.Base.{
  ℕ, ◌≡◌, arith, not, Bool, true, false, none, some, ◌==◌, inl, inr, Bool-cases, drop, get_or,
}
use pico_keyboard_rt_recorde.Protocol.{
  Frame, queue_event, queue_command_allowed, reason_protocol_error, reason_uart_fault,
  reason_underrun, pong, play_ready, play_started, pico_status, mode_armed,
}
use pico_keyboard_rt_recorde.PlaybackQueue
use pico_keyboard_rt_recorde.Hid.{report_bytes}
use pico_keyboard_rt_recorde.Mode
use pico_keyboard_rt_recorde.Mode.Abstract.{set_mode, abort, fault, apply}
use pico_keyboard_rt_recorde.Mode.Abstract
use pico_keyboard_rt_recorde.Scheduler.Run.{
  start, fresh_run, arm_next, set_scheduler, reset_sequence, mark_sequence_ended,
}
use pico_keyboard_rt_recorde.Scheduler.Task.{task, exchange_alarm, read_clock}
use pico_keyboard_rt_recorde.Scheduler.Task.Cases.{run_dry_cases}
use pico_keyboard_rt_recorde.Scheduler.Task.Rule.{Keeps, After, arm_next_rule, task_rule}
use pico_keyboard_rt_recorde.Firmware.{
  Board, World, Firmware, on_world, send_status, send_buffer_status, send_boot_report, sdk,
  mode_callbacks, on_mode, scheduler_callbacks,
}
use pico_keyboard_rt_recorde.Firmware.Words.{le_bytes, read_u64_le}
use pico_keyboard_rt_recorde.Firmware.Commands.{
  protocol_error, acknowledge, handle_queue_clear, handle_queue_event, handle_queue_end,
  dispatch_queue_command, begin_playback, handle_play_start, dispatch_command,
}
use pico_keyboard_rt_recorde.Firmware.Closed.{Closed, if_rule, board_rule}
use pico_keyboard_rt_recorde.Firmware.ClosedRules.{
  buffer_status_rule, drop_alarm_rule, set_deadline_rule, begin_underrun_rule, end_run_rule,
  complete_dispatch_rule, send_rule, tick_rule,
}

module _ {E : Type 0} (P : Firmware E → Type 0) (board : Board E) (closed : Closed board P) where
  task_keeps : Keeps (sdk board) (scheduler_callbacks board) P P P
  unfolding exchange_alarm read_clock send_boot_report
  task_keeps = record {
    weaken = λ y h. h;
    rest = λ y h. h;
    dropped = drop_alarm_rule P board closed;
    dry = λ y h e.
        run_dry_cases (sdk board) (scheduler_callbacks board) P y
          (λ _. end_run_rule P board closed y h) (λ _. begin_underrun_rule P board closed y h);
    armed = λ y e h f. set_deadline_rule P board closed e y h;
    exchanged = λ y h. tick_rule P board closed _ _ y h;
    clocked = λ y h. board_rule P closed.elementary _ y h;
    refused = λ y e h f t. send_rule P board closed (report_bytes e.report) y h;
    taken = λ y e h f t.
        complete_dispatch_rule P board closed _
          (send_rule P board closed (report_bytes e.report) y h);
  }

  pub task_closed : (y : Firmware E) → P y → P (task (sdk board) (scheduler_callbacks board) y)
  task_closed y h = task_rule task_keeps y (record { base = h; ready = λ _. h; idle = λ _. h })

  After_same : (r : Bool × Firmware E) → After P P r → P r.1
  After_same (true, y) h = h
  After_same (false, y) h = h

  start_closed :
      (t : ℕ) (y : Firmware E) → P y → P (start (sdk board) (scheduler_callbacks board) t y)
  unfolding start
  start_closed t y h =
      let y' = set_scheduler (fresh_run t y.scheduler) y in
      let r = arm_next (sdk board) (scheduler_callbacks board) y' in
      if_rule P closed.elementary y.scheduler.running y r.1 h
        (After_same r (arm_next_rule task_keeps y' (tick_rule P board closed _ _ y h)))

  fault_closed :
      (reason : ℕ) (y : Firmware E)
      → P y
      → P (on_mode (Mode.enter_error (mode_callbacks board) reason) y)
  fault_closed reason y h = unfold apply in closed.moded (fault reason) y h

  pub protocol_error_closed : (y : Firmware E) → P y → P (protocol_error board y)
  unfolding protocol_error Mode.protocol_error
  protocol_error_closed y h = fault_closed reason_protocol_error y h

  pub uart_fault_closed :
      (y : Firmware E) → P y → P (on_mode (Mode.uart_fault (mode_callbacks board)) y)
  unfolding Mode.uart_fault
  uart_fault_closed y h = fault_closed reason_uart_fault y h

  pub underrun_fault_closed :
      (y : Firmware E) → P y → P (on_mode (Mode.underrun_fault (mode_callbacks board)) y)
  unfolding Mode.underrun_fault
  underrun_fault_closed y h = fault_closed reason_underrun y h

  acknowledge_closed : (y : Firmware E) → P y → P (acknowledge board y)
  unfolding acknowledge
  acknowledge_closed y h =
      let (queued, w) = send_buffer_status y.queue y.world in
      let y' = record y { world = w } in
      let kept : P y' = buffer_status_rule P board closed y.queue y h in
      if_rule P closed.elementary (not queued) (protocol_error board y') y'
        (protocol_error_closed y' kept) kept

  handle_queue_clear_closed : (y : Firmware E) → P y → P (handle_queue_clear board y)
  unfolding handle_queue_clear
  handle_queue_clear_closed y h = acknowledge_closed _ (
      closed.elementary.queue_cleared _
        (tick_rule P board closed (reset_sequence y.scheduler) y.world.board y h))

  handle_queue_event_closed :
      (f : Frame) (y : Firmware E)
      → queue_command_allowed queue_event y.world.mode ≡ true
      → P y
      → P (handle_queue_event board f y)
  unfolding handle_queue_event
  handle_queue_event_closed f y allowed h =
      let offset_us = read_u64_le f.payload in
      let (accepted, q) = PlaybackQueue.push offset_us (some (drop 9 f.payload)) 8 y.queue in
      let y' = record y { queue = q } in
      let kept : P y' =
        closed.elementary.queue_pushed offset_us (some (drop 9 f.payload)) 8 y allowed h in
      if_rule P closed.elementary (not accepted) (protocol_error board y') (acknowledge board y')
        (protocol_error_closed y' kept) (acknowledge_closed y' kept)

  handle_queue_end_closed : (y : Firmware E) → P y → P (handle_queue_end board y)
  unfolding handle_queue_end
  handle_queue_end_closed y h =
      let ended = record y { scheduler = mark_sequence_ended y.scheduler } in
      let kept : P ended =
        tick_rule P board closed (mark_sequence_ended y.scheduler) y.world.board y h in
      acknowledge_closed _ (
        if_rule P closed.elementary (y.world.mode == mode_armed) _ ended
          (closed.elementary.framed play_ready 0 none ended kept) kept)

  dispatch_queue_command_closed :
      (f : Frame) (y : Firmware E) → P y → P (dispatch_queue_command board f y)
  unfolding dispatch_queue_command
  dispatch_queue_command_closed f y h =
      let wrong = protocol_error_closed y h in
      elim (Bool-cases (queue_command_allowed f.type y.world.mode)) [
        | inr n ↦ rw n wrong
        | inl a ↦ rw a (elim (Bool-cases (f.type == queue_event)) [
          | inl q ↦
              let same : f.type ≡ queue_event = ground arith in
              let allowed = rw same at a in
              rw q (
                if_rule P closed.elementary _ _ _ (handle_queue_clear_closed y h)
                  (handle_queue_event_closed f y allowed h))
          | inr n ↦ rw n (
              if_rule P closed.elementary _ _ _ (handle_queue_clear_closed y h)
                (if_rule P closed.elementary _ _ _ (handle_queue_end_closed y h) wrong))
        ])
      ]

  begin_playback_closed : (t : ℕ) (y : Firmware E) → P y → P (begin_playback board t y)
  unfolding begin_playback
  begin_playback_closed t y h =
      start_closed t _ (closed.elementary.framed play_started 8 (some (le_bytes 8 t)) y h)

  handle_play_start_closed : (y : Firmware E) → P y → P (handle_play_start board y)
  unfolding handle_play_start on_mode
  handle_play_start_closed y h =
      let (t, b) = board.time_us_64 y.world.board in
      let y' = on_world (λ (w : World E). record w { board = b }) y in
      let y'' = on_mode (λ m. (Mode.play_start (mode_callbacks board) m).1) y' in
      let kept : P y'' =
        unfold apply in closed.moded Abstract.start y' (board_rule P closed.elementary b y h) in
      if_rule P closed.elementary _ (begin_playback board t y'') y''
        (begin_playback_closed t y'' kept) kept

  send_status_closed : (y : Firmware E) → P y → P (on_world send_status y)
  unfolding send_status
  send_status_closed y h = closed.elementary.framed pico_status 5 _ y h

  pub dispatch_command_closed : (f : Frame) (y : Firmware E) → P y → P (dispatch_command board f y)
  unfolding dispatch_command
  dispatch_command_closed f y h =
      let target = get_or f.payload 0 0 in
      let set : P (on_mode (λ m. (Mode.handle_mode_set (mode_callbacks board) target m).1) y) =
        unfold apply in closed.moded (set_mode target) y h in
      let aborted : P (on_mode (λ m. (Mode.play_abort (mode_callbacks board) m).1) y) =
        unfold apply in closed.moded abort y h in
      if_rule P closed.elementary _ _ _ set (
        if_rule P closed.elementary _ _ _ (handle_play_start_closed y h) (
          if_rule P closed.elementary _ _ _ aborted (
            if_rule P closed.elementary _ _ _
              (closed.elementary.framed pong f.payload_len (some f.payload) y h)
              (if_rule P closed.elementary _ _ _ (send_status_closed y h) (
                if_rule P closed.elementary _ _ _ (dispatch_queue_command_closed f y h)
                  (protocol_error_closed y h))))))
