-- ===== src/Firmware/QueueCommands.antt =====
-- The queue commands and the errors of pico/src/main.c keep a playback run inside PLAYING.
use pico_keyboard_rt_recorde.Base.{ℕ, refl}
use pico_keyboard_rt_recorde.Protocol.{
  Frame, reason_protocol_error, reason_uart_fault, reason_underrun,
}
use pico_keyboard_rt_recorde.PlaybackQueue
use pico_keyboard_rt_recorde.PlaybackQueue.{Event, Queue, peek, free_capacity}
use pico_keyboard_rt_recorde.Mode
use pico_keyboard_rt_recorde.Mode.{Moded}
use pico_keyboard_rt_recorde.Mode.Abstract.{fault, apply}
use pico_keyboard_rt_recorde.Scheduler.Run.{reset_sequence, mark_sequence_ended}
use pico_keyboard_rt_recorde.Firmware.{
  Board, Firmware, mode_callbacks, on_mode, send_frame, send_buffer_status,
}
use pico_keyboard_rt_recorde.Firmware.Modes.{
  IsConsistent, keep-IsConsistent, on_mode-IsConsistent, running-reset_sequence,
}
use pico_keyboard_rt_recorde.Firmware.Commands.{
  protocol_error, acknowledge, handle_queue_clear, handle_queue_event, handle_queue_end,
  dispatch_queue_command,
}
use pico_keyboard_rt_recorde.Firmware.Consistent.{if_IsConsistent}

module _ {E : Type 0} (board : Board E) where
  fault-IsConsistent :
      (reason : ℕ) (y : Firmware E)
      → IsConsistent y
      → IsConsistent (on_mode (Mode.enter_error (mode_callbacks board) reason) y)
  fault-IsConsistent reason y c = unfold apply in on_mode-IsConsistent board (fault reason) y c

  pub protocol_error-IsConsistent :
      (y : Firmware E) → IsConsistent y → IsConsistent (protocol_error board y)
  unfolding protocol_error Mode.protocol_error
  protocol_error-IsConsistent y c = fault-IsConsistent reason_protocol_error y c

  pub uart_fault-IsConsistent :
      (y : Firmware E)
      → IsConsistent y
      → IsConsistent (on_mode (Mode.uart_fault (mode_callbacks board)) y)
  unfolding Mode.uart_fault
  uart_fault-IsConsistent y c = fault-IsConsistent reason_uart_fault y c

  pub underrun_fault-IsConsistent :
      (y : Firmware E)
      → IsConsistent y
      → IsConsistent (on_mode (Mode.underrun_fault (mode_callbacks board)) y)
  unfolding Mode.underrun_fault
  underrun_fault-IsConsistent y c = fault-IsConsistent reason_underrun y c

  acknowledge-IsConsistent : (y : Firmware E) → IsConsistent y → IsConsistent (acknowledge board y)
  unfolding acknowledge send_buffer_status send_frame
  acknowledge-IsConsistent y c =
      let w = (send_buffer_status y.queue y.world).1 in
      if_IsConsistent board _ _ _ (protocol_error-IsConsistent (record y { world = w }) c) c

  handle_queue_clear-IsConsistent :
      (y : Firmware E) → IsConsistent y → IsConsistent (handle_queue_clear board y)
  unfolding handle_queue_clear
  handle_queue_clear-IsConsistent y c =
      let y' = record y {
        queue = PlaybackQueue.clear y.queue;
        scheduler = reset_sequence y.scheduler;
      } in
      acknowledge-IsConsistent y'
        (keep-IsConsistent y y' (running-reset_sequence y.scheduler) refl c)

  handle_queue_event-IsConsistent :
      (f : Frame) (y : Firmware E) → IsConsistent y → IsConsistent (handle_queue_event board f y)
  unfolding handle_queue_event
  handle_queue_event-IsConsistent f y c =
      if_IsConsistent board _ _ _ (protocol_error-IsConsistent _ c) (acknowledge-IsConsistent _ c)

  handle_queue_end-IsConsistent :
      (y : Firmware E) → IsConsistent y → IsConsistent (handle_queue_end board y)
  unfolding handle_queue_end mark_sequence_ended send_frame
  handle_queue_end-IsConsistent y c = acknowledge-IsConsistent _ (if_IsConsistent board _ _ _ c c)

  pub dispatch_queue_command-IsConsistent :
      (f : Frame) (y : Firmware E)
      → IsConsistent y
      → IsConsistent (dispatch_queue_command board f y)
  unfolding dispatch_queue_command
  dispatch_queue_command-IsConsistent f y c =
      let wrong = protocol_error-IsConsistent y c in
      if_IsConsistent board _ _ _ wrong (
        if_IsConsistent board _ _ _ (handle_queue_clear-IsConsistent y c) (
          if_IsConsistent board _ _ _ (handle_queue_event-IsConsistent f y c)
            (if_IsConsistent board _ _ _ (handle_queue_end-IsConsistent y c) wrong)))
