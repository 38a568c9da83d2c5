-- ===== src/Zero/Decoder.antt =====
-- `IncrementalDecoder` of zero/app/uart_protocol.py: frames out of a byte stream that arrives in chunks.
mod Slices
pub mod Runs
pub mod Chunks
use pico_keyboard_rt_recorde.Base.{
  ℕ, zero, suc, ◌+◌, ◌*◌, not, Bool, true, false, List, [], ◌∷◌, ◌++◌, length, get_or, take, drop,
  ltb, ◌==◌, if◌then◌else◌,
}
use pico_keyboard_rt_recorde.Zero.{magic, version, max_payload, is_pico_to_zero, Message}
use pico_keyboard_rt_recorde.Zero.Crc.{crc16_ccitt_false}
use pico_keyboard_rt_recorde.Zero.Validate.{pico_payload_is_valid}

-- What `_reject` is told.
pub data Detail : Type 0 where
  unsupported_version unexpected_type payload_too_long crc_mismatch invalid_payload : Detail

pub record IncrementalDecoder : Type 0 where
  pub max_payload : ℕ
  pub accepted_types : ℕ → Bool
  pub buffer : List ℕ
  pub errors : List Detail

-- `IncrementalDecoder()`.
abbrev pub decoder : IncrementalDecoder
decoder = record {
  max_payload = max_payload;
  accepted_types = is_pico_to_zero;
  buffer = [];
  errors = [];
}

unfoldable pub pop_errors : IncrementalDecoder → List Detail × IncrementalDecoder
pop_errors d = (d.errors, record d { errors = [] })

-- The bytes from the first MAGIC on; with no MAGIC, none are left.
unfoldable pub from_magic : List ℕ → List ℕ
from_magic [] = []
from_magic (b ∷ bs) = let rest = from_magic bs in if b == magic then b ∷ bs else rest

unfoldable pub sync : IncrementalDecoder → IncrementalDecoder
unfolding from_magic
sync d = record d { buffer = from_magic d.buffer }

-- What one turn of the loop finds: too few bytes, a bad candidate, or a frame of so many bytes.
pub data Look : Type 0 where
  waits : Look
  rejects : Detail → Look
  delivers : Message → ℕ → Look

-- The tests on a buffer that is empty or starts with MAGIC.
unfoldable pub candidate : IncrementalDecoder → Look
candidate d =
    let buffer = d.buffer in
    let message_type = get_or buffer 2 0 in
    let payload_len = get_or buffer 3 0 + get_or buffer 4 0 * 256 in
    let frame_len = 7 + payload_len in
    let received_crc =
      get_or buffer (5 + payload_len) 0 + get_or buffer (6 + payload_len) 0 * 256 in
    let expected_crc = crc16_ccitt_false (take (4 + payload_len) (drop 1 buffer)) in
    let payload = take payload_len (drop 5 buffer) in
    if ltb (length buffer) 5
    then waits
    else if not (get_or buffer 1 0 == version)
    then rejects unsupported_version
    else if not (d.accepted_types message_type)
    then rejects unexpected_type
    else if ltb d.max_payload payload_len
    then rejects payload_too_long
    else if ltb (length buffer) frame_len
    then waits
    else if not (received_crc == expected_crc)
    then rejects crc_mismatch
    else if not (pico_payload_is_valid message_type payload)
    then rejects invalid_payload
    else delivers (record { message_type = message_type; payload = payload }) frame_len

-- `_reject`.
unfoldable pub reject : Detail → IncrementalDecoder → IncrementalDecoder
reject detail d = record d { errors = d.errors ++ detail ∷ []; buffer = drop 1 d.buffer }

abbrev pub consume : ℕ → IncrementalDecoder → IncrementalDecoder
consume n d = record d { buffer = drop n d.buffer }

-- The loop of `feed`, on fuel.
unfoldable pub feed_loop : ℕ → IncrementalDecoder → List Message × IncrementalDecoder
unfolding sync candidate reject
feed_loop zero d = ([], d)
feed_loop (suc n) d = elim (candidate (sync d)) [
  | waits ↦ ([], sync d)
  | rejects detail ↦ feed_loop n (reject detail (sync d))
  | delivers frame k ↦ let (frames, d') = feed_loop n (consume k (sync d)) in (frame ∷ frames, d')
]

abbrev pub more : List ℕ → IncrementalDecoder → IncrementalDecoder
more bytes d = record d { buffer = d.buffer ++ bytes }

-- Each turn that goes on takes a byte away, so one turn more than there are bytes is enough.
unfoldable pub feed : List ℕ → IncrementalDecoder → List Message × IncrementalDecoder
unfolding feed_loop
feed bytes d = let d' = more bytes d in feed_loop (suc (length d'.buffer)) d'
