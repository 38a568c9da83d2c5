-- ===== src/Firmware/Commands.antt =====
-- `dispatch_queue_command` and `dispatch_command` of pico/src/main.c.
use pico_keyboard_rt_recorde.Base.{ℕ, ◌||◌, not, none, some, ◌==◌, if◌then◌else◌, drop, get_or}
use pico_keyboard_rt_recorde.Protocol.{
  Frame, queue_command_allowed, queue_clear, queue_event, queue_end, play_start, play_abort,
  play_started, play_ready, ping, pong, mode_set, status_request, mode_armed,
}
use pico_keyboard_rt_recorde.PlaybackQueue
use pico_keyboard_rt_recorde.Mode
use pico_keyboard_rt_recorde.Scheduler.Run.{start, reset_sequence, mark_sequence_ended}
use pico_keyboard_rt_recorde.Firmware.{
  Board, Firmware, on_mode, on_world, mode_callbacks, scheduler_callbacks, sdk, send_frame,
  send_status, send_buffer_status,
}
use pico_keyboard_rt_recorde.Firmware.Words.{le_bytes, read_u64_le}

module _ {E : Type 0} (board : Board E) where
  unfoldable pub protocol_error : Firmware E → Firmware E
  unfolding on_mode
  protocol_error = on_mode (Mode.protocol_error (mode_callbacks board))

  -- The acknowledgement of a queue command; a saturated transmit ring is a protocol error.
  unfoldable pub acknowledge : Firmware E → Firmware E
  unfolding protocol_error
  acknowledge y =
      let (queued, w) = send_buffer_status y.queue y.world in
      let y' = record y { world = w } in if not queued then protocol_error y' else y'

  unfoldable pub handle_queue_clear : Firmware E → Firmware E
  unfolding acknowledge
  handle_queue_clear y =
      acknowledge
        (record y { queue = PlaybackQueue.clear y.queue; scheduler = reset_sequence y.scheduler })

  unfoldable pub handle_queue_event : Frame → Firmware E → Firmware E
  unfolding acknowledge protocol_error
  handle_queue_event frame y =
      let offset_us = read_u64_le frame.payload in
      let (accepted, q) = PlaybackQueue.push offset_us (some (drop 9 frame.payload)) 8 y.queue in
      let y' = record y { queue = q } in if not accepted then protocol_error y' else acknowledge y'

  unfoldable pub handle_queue_end : Firmware E → Firmware E
  unfolding acknowledge
  handle_queue_end y =
      let ended = record y { scheduler = mark_sequence_ended y.scheduler } in
      let ready = record ended { world = (send_frame play_ready none 0 ended.world).1 } in
      acknowledge (if y.world.mode == mode_armed then ready else ended)

  unfoldable pub dispatch_queue_command : Frame → Firmware E → Firmware E
  unfolding protocol_error handle_queue_clear handle_queue_event handle_queue_end
  dispatch_queue_command frame y =
      if not (queue_command_allowed frame.type y.world.mode)
      then protocol_error y
      else if frame.type == queue_clear
      then handle_queue_clear y
      else if frame.type == queue_event
      then handle_queue_event frame y
      else if frame.type == queue_end
      then handle_queue_end y
      else protocol_error y

  -- PLAY_START behind the accepted change of mode.
  unfoldable pub begin_playback : ℕ → Firmware E → Firmware E
  begin_playback playback_start_us y =
      let w = (send_frame play_started (some (le_bytes 8 playback_start_us)) 8 y.world).1 in
      start (sdk board) (scheduler_callbacks board) playback_start_us (record y { world = w })

  -- PLAY_START: the epoch is sampled once.
  unfoldable pub handle_play_start : Firmware E → Firmware E
  unfolding begin_playback
  handle_play_start y =
      let (playback_start_us, b) = board.time_us_64 y.world.board in
      let y' = record y { world = record y.world { board = b } } in
      let (accepted, m) =
        Mode.play_start (mode_callbacks board) (record { state = y'.world.mode; world = y' }) in
      let y'' = record m.world { world = record m.world.world { mode = m.state } } in
      if accepted then begin_playback playback_start_us y'' else y''

  unfoldable pub dispatch_command : Frame → Firmware E → Firmware E
  unfolding dispatch_queue_command handle_play_start protocol_error on_mode
  dispatch_command frame y =
      if frame.type == mode_set
      then on_mode
          (λ m. (Mode.handle_mode_set (mode_callbacks board) (get_or frame.payload 0 0) m).1) y
      else if frame.type == play_start
      then handle_play_start y
      else if frame.type == play_abort
      then on_mode (λ m. (Mode.play_abort (mode_callbacks board) m).1) y
      else if frame.type == ping
      then on_world (λ w. (send_frame pong (some frame.payload) frame.payload_len w).1) y
      else if frame.type == status_request
      then on_world send_status y
      else if frame.type == queue_clear || frame.type == queue_event || frame.type == queue_end
      then dispatch_queue_command frame y
      else protocol_error y
