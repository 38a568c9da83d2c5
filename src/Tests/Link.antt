-- ===== src/Tests/Link.antt =====
-- Concrete inputs for the theorems on the codec and the transport of pico/src/uart_protocol.c and
-- pico/src/uart_transport.c: the command MODE_SET(ARMED), and rings whose counters are about to wrap.
use pico_keyboard_rt_recorde.Base.{
  ℕ, ◌≡◌, refl, ◌<◌, true, none, some, List, [], ◌∷◌, ◌++◌, length, arith, ◌≢◌, All, length-window,
}
use pico_keyboard_rt_recorde.Protocol.{
  Frame, mode_set, mode_armed, pong, type_known, type_is_command, frame_payload_valid,
}
use pico_keyboard_rt_recorde.Protocol.Crc.{crc16}
use pico_keyboard_rt_recorde.Protocol.Codec.{encode_frame, ok, decode_frame}
use pico_keyboard_rt_recorde.Protocol.RoundTrip.{
  frame_of, wire, decode-encode, Accepted, decode-Accepted,
}
use pico_keyboard_rt_recorde.Transport.{Transport, init, command_capacity, parser_capacity}
use pico_keyboard_rt_recorde.Transport.Send.{queue_frame}
use pico_keyboard_rt_recorde.Transport.TxRing.{IsTxValid, Outcome, queue_frame_whole}
use pico_keyboard_rt_recorde.Transport.CommandRing.{IsCommandValid, waiting}
use pico_keyboard_rt_recorde.Transport.Parse.{feed}
use pico_keyboard_rt_recorde.Transport.Resync.{Damage, stray, broken, joined, frame_resynchronised}

abbrev arm : List ℕ
arm = mode_armed ∷ []

abbrev arm_bytes : List ℕ
arm_bytes = 165 ∷ 2 ∷ 135 ∷ 1 ∷ 0 ∷ 2 ∷ 232 ∷ 206 ∷ []

arm_encoded : encode_frame mode_set (some arm) 1 71 ≡ some arm_bytes
unfolding encode_frame type_known crc16
arm_encoded = refl

decode-encode_example : decode_frame arm_bytes ≡ ok (frame_of mode_set 1 arm)
decode-encode_example = decode-encode mode_set 1 71 (some arm) refl arm_encoded

abbrev arm_frame : Frame
arm_frame = frame_of mode_set 1 arm

decode-Accepted_example : Accepted arm_bytes arm_frame
decode-Accepted_example = decode-Accepted arm_bytes (omega arith) decode-encode_example

-- The transmit counters stand before their wrap-around, with 3 bytes waiting.
abbrev near_wrap : Transport
near_wrap = record init { tx_head = 65535; tx_tail = 65532; command_head = 255; command_tail = 250 }

near_wrap-IsTxValid : IsTxValid near_wrap
near_wrap-IsTxValid = record { head_in = omega arith; tail_in = omega arith; bounded = omega arith }

queue_frame_whole_example :
    let r = queue_frame pong none 0 near_wrap in
    IsTxValid r.1 × Outcome (encode_frame pong none 0 parser_capacity) near_wrap r
queue_frame_whole_example = queue_frame_whole pong none 0 near_wrap near_wrap-IsTxValid

-- Noise, and MODE_SET(ARMED) with a wrong checksum.
abbrev damages : List (List ℕ)
damages = (0 ∷ []) ∷ (165 ∷ 2 ∷ 135 ∷ 1 ∷ 0 ∷ 2 ∷ 232 ∷ 207 ∷ []) ∷ []

wrong_checksum : (f : Frame) → decode_frame (165 ∷ 2 ∷ 135 ∷ 1 ∷ 0 ∷ 2 ∷ 232 ∷ 207 ∷ []) ≢ ok f
unfolding decode_frame crc16
wrong_checksum f h = absurd (cc)

damages-Damage : All Damage damages
damages-Damage = (
  stray 0 (omega arith),
  (
    broken (165 ∷ 2 ∷ 135 ∷ 1 ∷ 0 ∷ 2 ∷ 232 ∷ 207 ∷ []) 1 (omega arith) refl refl refl refl
        wrong_checksum,
    tt,
  ),
)

arm_is_command : type_is_command mode_set ≡ true
unfolding type_is_command type_known
arm_is_command = refl

arm_frame_shaped : frame_payload_valid arm_frame ≡ true
unfolding frame_payload_valid type_known
arm_frame_shaped = refl

nothing_waits : length (waiting init) < command_capacity
nothing_waits = omega (arith, length-window init.commands command_capacity 0 0)

init-IsCommandValid : IsCommandValid init
init-IsCommandValid = omega arith

frame_resynchronised_example :
    let t' = feed (joined damages ++ wire mode_set 1 arm) init in
    (t'.parser_len ≡ 0) × (waiting t' ≡ waiting init ++ arm_frame ∷ []) × (t'.fault_pending ≡ true)
frame_resynchronised_example =
    frame_resynchronised damages mode_set 1 arm init damages-Damage refl (omega arith)
      arm_is_command arm_frame_shaped refl init-IsCommandValid nothing_waits
