-- ===== src/Tests/Wire.antt =====
-- Concrete inputs for the theorems on both ends of the link: an event from the Zero, an answer of the Pico.
use pico_keyboard_rt_recorde.Base.{
  ℕ, ◌+◌, ◌≡◌, refl, ◌≤◌, ◌<◌, inl, some, List, [], ◌∷◌, ◌++◌, length, arith, All, length-window,
  window-nil,
}
use pico_keyboard_rt_recorde.Protocol.{mode_armed, type_known, frame_payload_valid}
use pico_keyboard_rt_recorde.Protocol.Crc.{crc16}
use pico_keyboard_rt_recorde.Protocol.Codec
use pico_keyboard_rt_recorde.Transport.{
  init, command_capacity, rx_ring_capacity, tx_ring_capacity, parser_capacity,
}
use pico_keyboard_rt_recorde.Transport.Receive.{poll}
use pico_keyboard_rt_recorde.Transport.CommandRing.{IsCommandValid, waiting}
use pico_keyboard_rt_recorde.Transport.Drain.{received, IsRxValid}
use pico_keyboard_rt_recorde.Transport.TxRing.{IsTxValid, tx_pending}
use pico_keyboard_rt_recorde.Transport.Resync.{joined}
use pico_keyboard_rt_recorde.PlaybackQueue.{init-IsValid, queue_capacity}
use pico_keyboard_rt_recorde.PlaybackQueue.Refine.{contents, length-contents}
use pico_keyboard_rt_recorde.Firmware.{Firmware}
use pico_keyboard_rt_recorde.Firmware.Interrupts.{Turn, arrived, polled, run_turns}
use pico_keyboard_rt_recorde.Firmware.Words.{le_bytes}
use pico_keyboard_rt_recorde.Firmware.Loop.{boot}
use pico_keyboard_rt_recorde.Tests.Loop.{board}
use pico_keyboard_rt_recorde.Zero.{returned}
use pico_keyboard_rt_recorde.Zero.Crc.{crc16_ccitt_false}
use pico_keyboard_rt_recorde.Zero.Encode
use pico_keyboard_rt_recorde.Zero.Encode.Agreement.{result, encode_frame-eq}
use pico_keyboard_rt_recorde.Zero.Decoder.{decoder, feed}
use pico_keyboard_rt_recorde.Zero.Decoder.Chunks.{AtRest, feed_all, feed-chunks}
use pico_keyboard_rt_recorde.Zero.Uplink.{Sending, IsSending, messages, standard, stream_delivered}
use pico_keyboard_rt_recorde.Zero.Transport.{send_queue_event, written}
use pico_keyboard_rt_recorde.Zero.Downlink.{
  Writing, IsWriting, AllMeant, frames_for, commands_arrive,
}
use pico_keyboard_rt_recorde.Zero.Credit.{RoundTrip, rested, event_credited}

-- A key press at 5 us.
abbrev pub press : List ℕ
press = 0 ∷ 0 ∷ 4 ∷ 0 ∷ 0 ∷ 0 ∷ 0 ∷ 0 ∷ []

abbrev pub event_payload : List ℕ
event_payload = 5 ∷ 0 ∷ 0 ∷ 0 ∷ 0 ∷ 0 ∷ 0 ∷ 0 ∷ 8 ∷ press

abbrev pub event_bytes : List ℕ
event_bytes = 165 ∷ 2 ∷ 129 ∷ 17 ∷ 0 ∷ (event_payload ++ 42 ∷ 65 ∷ [])

event-encoded : Encode.encode_queue_event 5 press ≡ returned event_bytes
unfolding Encode.encode_queue_event le_bytes crc16_ccitt_false
event-encoded = refl

press-bytes : All (λ b. b < 256) press
press-bytes = omega arith

encode_frame-eq_example :
    result (Encode.encode_frame 129 event_payload)
    ≡ Codec.encode_frame 129 (some event_payload) 17 parser_capacity
encode_frame-eq_example = encode_frame-eq 129 event_payload refl (omega arith)

abbrev pong_bytes : List ℕ
pong_bytes = 165 ∷ 2 ∷ 10 ∷ 0 ∷ 0 ∷ 105 ∷ 174 ∷ []

-- Two PONGs, one behind a stray byte.
abbrev pub clean_pong : Sending
clean_pong = record {
  noise = [];
  message = record { message_type = 10; payload = [] };
  encoded = pong_bytes;
}

abbrev late_pong : Sending
late_pong = record clean_pong { noise = 7 ∷ [] }

clean_pong-IsSending : IsSending clean_pong
unfolding frame_payload_valid Codec.encode_frame type_known crc16
clean_pong-IsSending = record {
  quiet = tt;
  kind = refl;
  shaped = refl;
  byte_sized = tt;
  by_pico = refl;
}

late_pong-IsSending : IsSending late_pong
late_pong-IsSending = record {
  quiet = (omega arith, tt);
  kind = clean_pong-IsSending.kind;
  shaped = clean_pong-IsSending.shaped;
  byte_sized = tt;
  by_pico = clean_pong-IsSending.by_pico;
}

abbrev pong_chunks : List (List ℕ)
pong_chunks =
    (165 ∷ 2 ∷ 10 ∷ [])
    ∷ (0 ∷ 0 ∷ 105 ∷ 174 ∷ 7 ∷ 165 ∷ [])
    ∷ (2 ∷ 10 ∷ 0 ∷ 0 ∷ 105 ∷ 174 ∷ [])
    ∷ []

feed-chunks_example :
    (feed_all pong_chunks decoder ≡ feed (joined pong_chunks) decoder)
    × AtRest (feed_all pong_chunks decoder).1
feed-chunks_example = feed-chunks pong_chunks decoder rested

stream_delivered_example :
    feed_all pong_chunks (standard [] []) ≡ (messages (clean_pong ∷ late_pong ∷ []), standard [] [])
stream_delivered_example =
    stream_delivered pong_chunks (clean_pong ∷ late_pong ∷ []) [] []
      (clean_pong-IsSending, (late_pong-IsSending, tt)) rested refl

abbrev pub event_writing : Writing
event_writing = record { command = send_queue_event 5 press; bytes = event_bytes }

pub event_writing-IsWriting : IsWriting event_writing
unfolding written
event_writing-IsWriting = record { by_zero = event-encoded; byte_sized = press-bytes }

abbrev event_turns : List Turn
event_turns =
    arrived (165 ∷ 2 ∷ []) ∷ polled ∷ arrived (129 ∷ 17 ∷ 0 ∷ (event_payload ++ 42 ∷ 65 ∷ [])) ∷ []

init-IsRxValid : IsRxValid init
init-IsRxValid = omega arith

init-IsCommandValid : IsCommandValid init
init-IsCommandValid = omega arith

one_fits : length (waiting init) + 1 ≤ command_capacity
one_fits = omega (arith, length-window init.commands command_capacity 0 0)

commands_arrive_example :
    let t' = poll (run_turns event_turns init) in
    (waiting t' ≡ waiting init ++ frames_for (event_writing ∷ []))
    × AllMeant (event_writing ∷ [])
    × (received t' ≡ [])
    × (t'.fault_pending ≡ init.fault_pending)
commands_arrive_example =
    commands_arrive event_turns (event_writing ∷ []) init init-IsRxValid init-IsCommandValid
      (window-nil init.rx_bytes rx_ring_capacity 0 0 refl) refl (event_writing-IsWriting, tt) refl
      (omega arith) one_fits

-- The Pico in ARMED, with nothing queued and nothing to send.
abbrev pub armed : Firmware (List ℕ)
armed = record (boot []) { world = record (boot []).world { mode = mode_armed } }

armed-IsTxValid : IsTxValid armed.world.transport
armed-IsTxValid = omega arith

queue_room : length (contents armed.queue) < queue_capacity
queue_room = omega (arith, length-contents armed.queue)

pub nothing_sent : tx_pending armed.world.transport ≡ []
nothing_sent = window-nil armed.world.transport.tx_bytes tx_ring_capacity 0 0 refl

event_credited_example : RoundTrip board 5 press event_bytes [] armed
event_credited_example =
    event_credited board 5 press event_bytes [] armed event-encoded press-bytes init-IsValid
      armed-IsTxValid (inl refl) queue_room nothing_sent tt (omega arith)
