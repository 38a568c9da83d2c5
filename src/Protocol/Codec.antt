-- ===== src/Protocol/Codec.antt =====
-- `pico_uart_encode_frame` and `pico_uart_decode_frame` of pico/src/uart_protocol.c.
use pico_keyboard_rt_recorde.Base.{
  ℕ, ◌+◌, ◌*◌, ◌/◌, ◌%◌, ◌&&◌, ◌||◌, not, Bool, true, false, Option, none, some, List, [], ◌∷◌,
  ◌++◌, ltb, ◌==◌, if◌then◌else◌, length, get_or, take, drop,
}
use pico_keyboard_rt_recorde.Protocol.{
  magic, protocol_version, max_payload, header_len, crc_len, Frame, type_known,
}
use pico_keyboard_rt_recorde.Protocol.Crc.{crc16}

-- A byte pointer that may be NULL: `none` is NULL.
abbrev pub Bytes : Type 0
Bytes = Option (List ℕ)

abbrev pub is_null : Bytes → Bool
is_null none = true
is_null (some _) = false

-- What `memcpy` reads from the pointer.
abbrev pub copy : ℕ → Bytes → List ℕ
copy n none = []
copy n (some bytes) = take n bytes

-- The bytes that the checksum covers.
unfoldable pub covered : ℕ → List ℕ → ℕ → List ℕ
covered type payload payload_len =
    protocol_version ∷ type ∷ payload_len % 256 ∷ payload_len / 256 ∷ payload

-- `none` is the return value 0; otherwise the bytes written to `out`, whose number is the result.
unfoldable pub encode_frame : ℕ → Bytes → ℕ → ℕ → Option (List ℕ)
unfolding covered
encode_frame type payload payload_len out_size =
    let total = header_len + payload_len + crc_len in
    let body = covered type (copy payload_len payload) payload_len in
    let crc = crc16 body in
    if ltb max_payload payload_len
      || (not (payload_len == 0) && is_null payload)
      || ltb out_size total
      || not (type_known type)
    then none
    else some (magic ∷ (body ++ crc % 256 ∷ crc / 256 ∷ []))

-- `pico_uart_decode_result_t`; `ok` carries what goes through `frame`.
pub data DecodeResult : Type 0 where
  ok : Frame → DecodeResult
  too_short bad_magic bad_version bad_length bad_crc : DecodeResult

-- `data_len` is the length of the list.
unfoldable pub decode_frame : List ℕ → DecodeResult
decode_frame bytes =
    let payload_len = get_or bytes 3 0 + get_or bytes 4 0 * 256 in
    let expected = crc16 (take (4 + payload_len) (drop 1 bytes)) in
    let actual = get_or bytes (5 + payload_len) 0 + get_or bytes (6 + payload_len) 0 * 256 in
    if ltb (length bytes) 7
    then too_short
    else if not (get_or bytes 0 0 == magic)
    then bad_magic
    else if not (get_or bytes 1 0 == protocol_version)
    then bad_version
    else if ltb max_payload payload_len || not (length bytes == 7 + payload_len)
    then bad_length
    else if not (expected == actual)
    then bad_crc
    else ok (record {
      version = get_or bytes 1 0;
      type = get_or bytes 2 0;
      payload_len = payload_len;
      payload = take payload_len (drop 5 bytes);
    })
