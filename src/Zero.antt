-- ===== src/Zero.antt =====
-- zero/app/uart_protocol.py, the other end of the UART link: its message numbers, its frames and its
-- errors. A Python `bytes` is a list of numbers below 256, and an integer that the code checks to be
-- non-negative is a natural number, so the tests of Python types have no counterpart here.
pub mod Crc
pub mod Encode
pub mod Decoder
pub mod Validate
pub mod Transport
pub mod Metrics
pub mod Uplink
pub mod Downlink
pub mod Credit
pub mod Playback
use pico_keyboard_rt_recorde.Base.{ℕ, ◌&&◌, Bool, List, leb}

abbrev pub magic : ℕ
magic = 0xa5

abbrev pub version : ℕ
version = 0x02

abbrev pub max_payload : ℕ
max_payload = 64

abbrev pub record_event : ℕ
record_event = 0x01

abbrev pub pico_status : ℕ
pico_status = 0x02

abbrev pub buffer_status : ℕ
buffer_status = 0x03

abbrev pub play_started : ℕ
play_started = 0x05

abbrev pub play_underrun : ℕ
play_underrun = 0x08

abbrev pub mode_changed : ℕ
mode_changed = 0x0b

abbrev pub play_metrics : ℕ
play_metrics = 0x0c

abbrev pub error_message : ℕ
error_message = 0x09

abbrev pub mode_error : ℕ
mode_error = 4

abbrev pub queue_clear : ℕ
queue_clear = 0x80

abbrev pub queue_event : ℕ
queue_event = 0x81

abbrev pub queue_end : ℕ
queue_end = 0x82

abbrev pub play_start : ℕ
play_start = 0x83

abbrev pub play_abort : ℕ
play_abort = 0x84

abbrev pub mode_set : ℕ
mode_set = 0x87

-- `in PICO_TO_ZERO_TYPES`.
abbrev pub is_pico_to_zero : ℕ → Bool
is_pico_to_zero t = leb record_event t && leb t play_metrics

-- `in ZERO_TO_PICO_TYPES`.
abbrev pub is_zero_to_pico : ℕ → Bool
is_zero_to_pico t = leb 0x80 t && leb t mode_set

-- `Frame`.
pub record Message : Type 0 where
  pub message_type : ℕ
  pub payload : List ℕ

-- Why an error is raised; `pico_error` is a `PicoError`, `timed_out` a `TransportTimeout`, and the others
-- are a `ProtocolError`.
pub data ProtocolError : Type 0 where
  wrong_direction payload_too_long bad_offset bad_report bad_target : ProtocolError
  unexpected_type payload_length report_length invalid_state invalid_reason : ProtocolError
  invalid_flag pico_error timed_out unexpected_state : ProtocolError

-- A call that returns or raises.
pub data Attempt {ℓ} (A : Type ℓ) : Type ℓ where
  returned : A → Attempt A
  raised : ProtocolError → Attempt A

infixl 5 ◌>>=◌
abbrev pub ◌>>=◌ {ℓ κ} : {A : Type ℓ} {B : Type κ} → Attempt A → (A → Attempt B) → Attempt B
returned a >>= f = f a
raised e >>= f = raised e
