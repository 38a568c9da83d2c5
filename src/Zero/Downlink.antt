-- ===== src/Zero/Downlink.antt =====
-- From the Zero to the Pico: what zero/app/uart_protocol.py encodes, the parser and the decoder of
-- pico/src/uart_transport.c and pico/src/uart_protocol.c accept.
mod Commands
pub use Commands.{Means, Writing, IsWriting, Reads, frame_for, event-Reads, written-Reads}
use pico_keyboard_rt_recorde.Base.{
  ℕ, zero, suc, ◌+◌, ◌/◌, ◌^◌, ◌≤◌, ◌<◌, ◌≡◌, refl, ap, ◌∙◌, true, List, [], ◌∷◌, ◌++◌, length,
  drop, get_or, arith, All, ap₂, length-append, dec_lt, ℕ_discrete,
}
use pico_keyboard_rt_recorde.Protocol.{Frame, type_known, type_is_command, frame_payload_valid}
use pico_keyboard_rt_recorde.Protocol.RoundTrip.{wire, frame_of}
use pico_keyboard_rt_recorde.Transport.{Transport, rx_ring_capacity, command_capacity}
use pico_keyboard_rt_recorde.Transport.Receive.{poll}
use pico_keyboard_rt_recorde.Transport.CommandRing.{IsCommandValid, waiting}
use pico_keyboard_rt_recorde.Transport.Drain.{received, IsRxValid}
use pico_keyboard_rt_recorde.Firmware.Words.{le_bytes, read_u64_le, read_u64_le-le_bytes}
use pico_keyboard_rt_recorde.Firmware.Interrupts.{Turn, run_turns, bytes_of}
use pico_keyboard_rt_recorde.Firmware.Interrupts.Delivery.{IsCommand, wires, commands_delivered}
use pico_keyboard_rt_recorde.Zero.{
  queue_clear, queue_event, queue_end, play_start, play_abort, mode_set, returned,
}
use pico_keyboard_rt_recorde.Zero.Encode
use pico_keyboard_rt_recorde.Zero.Encode.Agreement.{encode_frame-wire}
use pico_keyboard_rt_recorde.Zero.Transport.{
  Command, set_mode, send_queue_event, send_queue_clear, send_queue_end, send_play_start,
  send_play_abort, written,
}

abbrev pub bytes_written : List Writing → List ℕ
bytes_written [] = []
bytes_written (w ∷ ws) = w.bytes ++ bytes_written ws

abbrev pub frames_for : List Writing → List Frame
frames_for [] = []
frames_for (w ∷ ws) = frame_for w.command ∷ frames_for ws

-- The frames say what the commands say.
abbrev pub AllMeant : List Writing → Type 0
AllMeant = All (λ (w : Writing). Means w.command (frame_for w.command))

writings-wires :
    (ws : List Writing)
    → All IsWriting ws
    → (bytes_written ws ≡ wires (frames_for ws)) × All IsCommand (frames_for ws) × AllMeant ws
writings-wires [] g = (refl, tt, tt)
writings-wires (w ∷ ws) (g, gs) =
    let r = written-Reads w g in
    let (e, commands, meant) = writings-wires ws gs in
    (ap₂ (λ a b. a ++ b) r.laid_out e, (r.command, commands), (r.meant, meant))

length-frames_for : (ws : List Writing) → length (frames_for ws) ≡ length ws
length-frames_for [] = refl
length-frames_for (w ∷ ws) = ap suc (length-frames_for ws)

-- What the Zero writes arrives at the Pico: however the bytes of a sequence of commands are spread over
-- the Pico's interrupts and polls, behind a last poll exactly these commands wait, in order, behind those
-- that waited before; each of their frames carries the command's target mode, or its offset and its
-- report; and no fault is added. The commands are ones that the Zero's encoder accepts, with reports of
-- bytes; they fit into the two rings; and at the start the receive ring is empty, the parser waits for a
-- frame and the counters are valid.
pub commands_arrive :
    (turns : List Turn) (ws : List Writing) (t : Transport)
    → IsRxValid t
    → IsCommandValid t
    → received t ≡ []
    → t.parser_len ≡ 0
    → All IsWriting ws
    → bytes_of turns ≡ bytes_written ws
    → length (bytes_written ws) ≤ rx_ring_capacity
    → length (waiting t) + length ws ≤ command_capacity
    → let t' = poll (run_turns turns t) in
      (waiting t' ≡ waiting t ++ frames_for ws)
      × AllMeant ws
      × (received t' ≡ [])
      × (t'.fault_pending ≡ t.fault_pending)
commands_arrive turns ws t v c fresh z g e fits room =
    let (same, commands, meant) = writings-wires ws g in
    let short : length (wires (frames_for ws)) ≤ rx_ring_capacity =
      omega (arith, fits, ap length same) in
    let few : length (waiting t) + length (frames_for ws) ≤ command_capacity =
      omega (arith, room, length-frames_for ws) in
    let (last, empty, _, calm) =
      commands_delivered turns (frames_for ws) t v c fresh z commands (e ∙ same) short few in
    (last, meant, empty, calm)
