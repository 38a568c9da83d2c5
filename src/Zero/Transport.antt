-- ===== src/Zero/Transport.antt =====
-- `PicoTransport` of zero/app/transport.py: the commands that it writes to the UART, and how it picks a frame out of
-- those that have arrived. A wait that needs a frame that has not arrived ends in a timeout here; the clock, the
-- serial port and the cancel event are left out.
pub mod Await
use pico_keyboard_rt_recorde.Base.{
  ℕ, Bool, false, List, [], ◌∷◌, leb, not, ◌||◌, ◌==◌, if◌then◌else◌,
}
use pico_keyboard_rt_recorde.Zero.{
  pico_status, mode_changed, mode_set, error_message, mode_error, bad_target, pico_error, timed_out,
  Message, Attempt, returned, raised, ◌>>=◌,
}
use pico_keyboard_rt_recorde.Zero.Validate.{validate_mode_changed, validate_pico_status}
use pico_keyboard_rt_recorde.Zero.Encode.{
  encode_frame, encode_queue_clear, encode_queue_event, encode_queue_end, encode_play_start,
  encode_play_abort,
}

-- The methods that write a command.
pub data Command : Type 0 where
  set_mode : ℕ → Command
  send_queue_event : ℕ → List ℕ → Command
  send_queue_clear send_queue_end send_play_start send_play_abort : Command

-- What `_write` is given; for `set_mode`, at each attempt.
unfoldable pub written : Command → Attempt (List ℕ)
unfolding encode_frame encode_queue_clear encode_queue_event encode_queue_end encode_play_start
    encode_play_abort
written (set_mode target) =
    if not (leb target 2) then raised bad_target else encode_frame mode_set (target ∷ [])
written (send_queue_event offset_us report) = encode_queue_event offset_us report
written send_queue_clear = encode_queue_clear
written send_queue_end = encode_queue_end
written send_play_start = encode_play_start
written send_play_abort = encode_play_abort

abbrev any : List Bool → Bool
any [] = false
any (b ∷ bs) = b || any bs

-- The two frames that may report an error in their payload.
check_status : Message → Attempt Message
check_status frame = do
  (state, faults) ← validate_pico_status frame
  if state == mode_error || any faults then raised pico_error else returned frame

check_mode : Message → Attempt Message
check_mode frame = do
  (state, reason) ← validate_mode_changed frame
  if state == mode_error then raised pico_error else returned frame

-- A frame that reports an error is raised.
unfoldable pub require_not_error : Message → Attempt Message
unfolding check_status check_mode
require_not_error frame =
    if frame.message_type == error_message
    then raised pico_error
    else if frame.message_type == pico_status
    then check_status frame
    else if frame.message_type == mode_changed
    then check_mode frame
    else returned frame

-- `await_frame` and `_await` on the frames that have arrived: the first frame of the type, and the frames that
-- stay pending, the deferred ones in front.
unfoldable pub await_frame : ℕ → List Message → Attempt (Message × List Message)
unfolding require_not_error
await_frame message_type [] = raised timed_out
await_frame message_type (frame ∷ frames) =
    let later = await_frame message_type frames in
    require_not_error frame >>= λ checked.
    if checked.message_type == message_type
    then returned (checked, frames)
    else (later >>= λ r. returned (r.0, checked ∷ r.1))
