-- ===== src/Zero/Validate.antt =====
-- The validators of zero/app/uart_protocol.py: what a payload must look like, and what it says.
use pico_keyboard_rt_recorde.Base.{
  ℕ, not, ◌&&◌, ◌||◌, Bool, true, List, [], ◌∷◌, length, get_or, drop, leb, ◌==◌, if◌then◌else◌,
}
use pico_keyboard_rt_recorde.Firmware.Words.{read_le}
use pico_keyboard_rt_recorde.Zero.{
  record_event, pico_status, buffer_status, play_started, play_underrun, mode_changed, play_metrics,
  Message, unexpected_type, payload_length, report_length, invalid_state, invalid_reason,
  invalid_flag, Attempt, returned, raised,
}

unfoldable pub pico_payload_is_valid : ℕ → List ℕ → Bool
pico_payload_is_valid message_type payload =
    if message_type == record_event
    then length payload == 17 && get_or payload 8 0 == 8
    else if message_type == pico_status || message_type == buffer_status
    then length payload == 5
    else if message_type == play_started
    then length payload == 8
    else if message_type == play_underrun
    then length payload == 10
    else if message_type == mode_changed
    then length payload == 2
    else if message_type == play_metrics
    then length payload == 33
    else length payload == 0

-- `in VALID_MODES` and `in VALID_REASONS`.
abbrev pub is_mode : ℕ → Bool
is_mode state = leb state 4

abbrev pub is_reason : ℕ → Bool
is_reason reason = leb reason 7

-- The report bytes are in range already, so `validate_boot_report` leaves the length of 8, which a
-- payload of 17 bytes has.
unfoldable pub validate_record_event : Message → Attempt (ℕ × List ℕ)
validate_record_event frame =
    if not (frame.message_type == record_event)
    then raised unexpected_type
    else if not (length frame.payload == 17)
    then raised payload_length
    else if not (get_or frame.payload 8 0 == 8)
    then raised report_length
    else returned (read_le 8 frame.payload, drop 9 frame.payload)

unfoldable pub validate_mode_changed : Message → Attempt (ℕ × ℕ)
validate_mode_changed frame =
    let state = get_or frame.payload 0 0 in
    let reason = get_or frame.payload 1 0 in
    if not (frame.message_type == mode_changed)
    then raised unexpected_type
    else if not (length frame.payload == 2)
    then raised payload_length
    else if not (is_mode state)
    then raised invalid_state
    else if not (is_reason reason)
    then raised invalid_reason
    else returned (state, reason)

abbrev pub are_flags : List ℕ → Bool
are_flags [] = true
are_flags (flag ∷ flags) = leb flag 1 && are_flags flags

abbrev pub bools : List ℕ → List Bool
bools [] = []
bools (flag ∷ flags) = not (flag == 0) ∷ bools flags

unfoldable pub validate_pico_status : Message → Attempt (ℕ × List Bool)
validate_pico_status frame =
    let state = get_or frame.payload 0 0 in
    let flags = drop 1 frame.payload in
    if not (frame.message_type == pico_status)
    then raised unexpected_type
    else if not (length frame.payload == 5)
    then raised payload_length
    else if not (is_mode state)
    then raised invalid_state
    else if not (are_flags flags)
    then raised invalid_flag
    else returned (state, bools flags)

-- `struct.unpack("<BHH", …)`.
unfoldable pub validate_buffer_status : Message → Attempt (ℕ × ℕ × ℕ)
validate_buffer_status frame =
    let state = get_or frame.payload 0 0 in
    if not (frame.message_type == buffer_status)
    then raised unexpected_type
    else if not (length frame.payload == 5)
    then raised payload_length
    else if not (is_mode state)
    then raised invalid_state
    else returned (state, read_le 2 (drop 1 frame.payload), read_le 2 (drop 3 frame.payload))

unfoldable pub validate_play_started : Message → Attempt ℕ
validate_play_started frame =
    if not (frame.message_type == play_started)
    then raised unexpected_type
    else if not (length frame.payload == 8)
    then raised payload_length
    else returned (read_le 8 frame.payload)

unfoldable pub validate_play_underrun : Message → Attempt (ℕ × ℕ)
validate_play_underrun frame =
    if not (frame.message_type == play_underrun)
    then raised unexpected_type
    else if not (length frame.payload == 10)
    then raised payload_length
    else returned (read_le 8 frame.payload, read_le 2 (drop 8 frame.payload))
