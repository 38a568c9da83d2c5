-- ===== src/Zero/Encode.antt =====
-- `encode_frame` and the commands of zero/app/uart_protocol.py.
pub mod Agreement
use pico_keyboard_rt_recorde.Base.{
  ℕ, ◌/◌, ◌%◌, ◌^◌, not, List, [], ◌∷◌, ◌++◌, length, ltb, ◌==◌, if◌then◌else◌,
}
use pico_keyboard_rt_recorde.Firmware.Words.{le_bytes}
use pico_keyboard_rt_recorde.Zero.{
  magic, version, max_payload, queue_clear, queue_event, queue_end, play_start, play_abort,
  is_zero_to_pico, wrong_direction, payload_too_long, bad_offset, bad_report, Attempt, returned,
  raised,
}
use pico_keyboard_rt_recorde.Zero.Crc.{crc16_ccitt_false}

-- The bytes under the checksum; `struct.pack("<H", n)` is the two bytes of a length below 2^16.
abbrev pub covered : ℕ → List ℕ → List ℕ
covered message_type payload =
    version ∷ message_type ∷ length payload % 256 ∷ length payload / 256 ∷ payload

unfoldable pub encode_frame : ℕ → List ℕ → Attempt (List ℕ)
encode_frame message_type payload =
    let crc = crc16_ccitt_false (covered message_type payload) in
    if not (is_zero_to_pico message_type)
    then raised wrong_direction
    else if ltb max_payload (length payload)
    then raised payload_too_long
    else returned (magic ∷ (covered message_type payload ++ crc % 256 ∷ crc / 256 ∷ []))

unfoldable pub encode_queue_clear : Attempt (List ℕ)
unfolding encode_frame
encode_queue_clear = encode_frame queue_clear []

-- `struct.pack("<QB", offset_us, 8)` is eight bytes, lowest first, and the byte 8.
unfoldable pub encode_queue_event : ℕ → List ℕ → Attempt (List ℕ)
unfolding encode_frame
encode_queue_event offset_us report =
    if not (ltb offset_us (2 ^ 64))
    then raised bad_offset
    else if not (length report == 8)
    then raised bad_report
    else encode_frame queue_event (le_bytes 8 offset_us ++ 8 ∷ report)

unfoldable pub encode_queue_end : Attempt (List ℕ)
unfolding encode_frame
encode_queue_end = encode_frame queue_end []

unfoldable pub encode_play_start : Attempt (List ℕ)
unfolding encode_frame
encode_play_start = encode_frame play_start []

unfoldable pub encode_play_abort : Attempt (List ℕ)
unfolding encode_frame
encode_play_abort = encode_frame play_abort []
