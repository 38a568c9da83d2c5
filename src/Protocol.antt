-- ===== src/Protocol.antt =====
-- pico/include/uart_protocol.h and the type tables of pico/src/uart_protocol.c: message types, modes,
-- reasons, the decoded frame and the shape that each message type's payload has.
pub mod Crc
pub mod Codec
pub mod RoundTrip
use pico_keyboard_rt_recorde.Base.{
  ℕ, Bool, true, false, ◌&&◌, ◌||◌, List, [], ◌∷◌, leb, ◌==◌, get_or, if◌then◌else◌,
}

abbrev pub magic : ℕ
magic = 0xa5

abbrev pub protocol_version : ℕ
protocol_version = 2

abbrev pub max_payload : ℕ
max_payload = 64

abbrev pub header_len : ℕ
header_len = 5

abbrev pub crc_len : ℕ
crc_len = 2

-- Pico to Zero.
abbrev pub record_event : ℕ
record_event = 1

abbrev pub pico_status : ℕ
pico_status = 2

abbrev pub buffer_status : ℕ
buffer_status = 3

abbrev pub play_ready : ℕ
play_ready = 4

abbrev pub play_started : ℕ
play_started = 5

abbrev pub play_finished : ℕ
play_finished = 6

abbrev pub play_aborted : ℕ
play_aborted = 7

abbrev pub play_underrun : ℕ
play_underrun = 8

abbrev pub error_message : ℕ
error_message = 9

abbrev pub pong : ℕ
pong = 10

abbrev pub mode_changed : ℕ
mode_changed = 11

abbrev pub play_metrics : ℕ
play_metrics = 12

-- Zero to Pico.
abbrev pub queue_clear : ℕ
queue_clear = 0x80

abbrev pub queue_event : ℕ
queue_event = 0x81

abbrev pub queue_end : ℕ
queue_end = 0x82

abbrev pub play_start : ℕ
play_start = 0x83

abbrev pub play_abort : ℕ
play_abort = 0x84

abbrev pub status_request : ℕ
status_request = 0x85

abbrev pub ping : ℕ
ping = 0x86

abbrev pub mode_set : ℕ
mode_set = 0x87

-- The mode numbers of MODE_CHANGED.
abbrev pub mode_pass : ℕ
mode_pass = 0

abbrev pub mode_record : ℕ
mode_record = 1

abbrev pub mode_armed : ℕ
mode_armed = 2

abbrev pub mode_playing : ℕ
mode_playing = 3

abbrev pub mode_error : ℕ
mode_error = 4

-- The reason numbers of MODE_CHANGED.
abbrev pub reason_ok : ℕ
reason_ok = 0

abbrev pub reason_invalid_transition : ℕ
reason_invalid_transition = 1

abbrev pub reason_invalid_target : ℕ
reason_invalid_target = 2

abbrev pub reason_protocol_error : ℕ
reason_protocol_error = 3

abbrev pub reason_uart_fault : ℕ
reason_uart_fault = 4

abbrev pub reason_aborted : ℕ
reason_aborted = 5

abbrev pub reason_underrun : ℕ
reason_underrun = 6

abbrev pub reason_finished : ℕ
reason_finished = 7

-- `pico_uart_frame_t`. `payload` holds the bytes that were copied in; what stands behind
-- `payload_len` in the C array is never read by a handler of a valid frame.
pub record Frame : Type 0 where
  pub version : ℕ
  pub type : ℕ
  pub payload_len : ℕ
  pub payload : List ℕ

-- A `switch` over these labels returns true.
abbrev pub known_types : List ℕ
known_types =
    record_event ∷ pico_status ∷ buffer_status ∷ play_ready ∷ play_started ∷ play_finished
    ∷ play_aborted ∷ play_underrun ∷ error_message ∷ pong ∷ mode_changed ∷ play_metrics
    ∷ queue_clear ∷ queue_event ∷ queue_end ∷ play_start ∷ play_abort ∷ status_request ∷ ping
    ∷ mode_set ∷ []

abbrev pub has_label : List ℕ → ℕ → Bool
has_label [] t = false
has_label (l ∷ ls) t = t == l || has_label ls t

unfoldable pub type_known : ℕ → Bool
type_known t = has_label known_types t

unfoldable pub type_is_command : ℕ → Bool
type_is_command t = leb queue_clear t && leb t mode_set

unfoldable pub queue_command_allowed : ℕ → ℕ → Bool
queue_command_allowed t state =
    if t == queue_clear
    then state == mode_armed
    else if t == queue_event || t == queue_end
    then state == mode_armed || state == mode_playing
    else false

-- The `switch` of `pico_uart_frame_payload_valid`.
payload_shape : ℕ → Frame → Bool
payload_shape t frame =
    if t == mode_set
    then frame.payload_len == 1
    else if t == queue_event
    then frame.payload_len == 17 && get_or frame.payload 8 0 == 8
    else if t == play_started
    then frame.payload_len == 8
    else if t == record_event
    then frame.payload_len == 17 && get_or frame.payload 8 0 == 8
    else if t == mode_changed
    then frame.payload_len == 2
    else if t == pico_status || t == buffer_status
    then frame.payload_len == 5
    else if t == play_underrun
    then frame.payload_len == 10
    else if t == play_metrics
    then frame.payload_len == 33
    else frame.payload_len == 0

unfoldable pub frame_payload_valid : Frame → Bool
unfolding payload_shape
frame_payload_valid frame = if type_known frame.type then payload_shape frame.type frame else false
