-- ===== src/Firmware/Credit.antt =====
-- BUFFER_STATUS of pico/src/main.c: it tells the Zero what room the playback queue has left.
pub mod Answer
use pico_keyboard_rt_recorde.Base.{
  ℕ, ◌+◌, ◌-◌, ◌/◌, ◌%◌, ◌^◌, ◌≤◌, ◌<◌, ◌≡◌, ◌≢◌, refl, sym, ap, ap₂, ◌∙◌, ◌⊎◌, inl, inr, not, Bool,
  true, false, Option, none, some, List, [], ◌∷◌, ◌++◌, ltb, length, drop, arith, if◌then◌else◌,
  u16, dec_lt, Bool-cases,
}
use pico_keyboard_rt_recorde.Protocol.{
  Frame, mode_armed, mode_playing, buffer_status, queue_event, queue_command_allowed, type_known,
}
use pico_keyboard_rt_recorde.Protocol.Codec.{encode_frame, covered}
use pico_keyboard_rt_recorde.Protocol.RoundTrip.{wire}
use pico_keyboard_rt_recorde.Hid.{report_size}
use pico_keyboard_rt_recorde.Transport.{tx_ring_capacity, parser_capacity}
use pico_keyboard_rt_recorde.Transport.Send.{queue_frame}
use pico_keyboard_rt_recorde.Transport.TxRing.{
  IsTxValid, tx_pending, Outcome, appended, no_encoding, no_room, queue_frame_whole,
}
use pico_keyboard_rt_recorde.PlaybackQueue.{
  Event, Queue, queue_capacity, IsValid, event_of, push, push-IsValid, free_capacity,
}
use pico_keyboard_rt_recorde.PlaybackQueue.Spec
use pico_keyboard_rt_recorde.PlaybackQueue.Refine.{contents, length-contents, push_refines}
use pico_keyboard_rt_recorde.Firmware.{Board, World, Firmware, send_frame, send_buffer_status}
use pico_keyboard_rt_recorde.Firmware.Words.{read_u64_le}
use pico_keyboard_rt_recorde.Firmware.Commands.{
  protocol_error, acknowledge, handle_queue_event, dispatch_queue_command, dispatch_command,
}

-- The bytes of BUFFER_STATUS in mode `mode` with `n` queued events.
abbrev pub status_wire : ℕ → ℕ → List ℕ
status_wire mode n =
    let free = queue_capacity - n in
    wire buffer_status 5 (mode ∷ n % 256 ∷ n / 256 ∷ free % 256 ∷ free / 256 ∷ [])

status-encoded :
    (a b c d e : ℕ)
    → encode_frame buffer_status (some (a ∷ b ∷ c ∷ d ∷ e ∷ [])) 5 parser_capacity
      ≡ some (wire buffer_status 5 (a ∷ b ∷ c ∷ d ∷ e ∷ []))
unfolding encode_frame type_known wire
status-encoded a b c d e = refl

-- The event of a QUEUE_EVENT frame.
abbrev pub event_in : Frame → Event
event_in frame = event_of (read_u64_le frame.payload) (some (drop 9 frame.payload)) report_size

some-none : {x : List ℕ} → some x ≡ none → ⊥
some-none h = absurd (cc)

-- The payload as the code builds it.
status_of :
    (mode : ℕ) (q : Queue)
    → IsValid q
    → wire buffer_status 5 (
        mode
        ∷ u16 q.count % 256
        ∷ u16 q.count / 256
        ∷ u16 (free_capacity q) % 256
        ∷ u16 (free_capacity q) / 256
        ∷ [])
      ≡ status_wire mode (length (contents q))
unfolding free_capacity
status_of mode q v =
    let size = length-contents q in
    let count : u16 q.count ≡ length (contents q) = omega (arith, v.bounded, size) in
    let free : u16 (queue_capacity - q.count) ≡ queue_capacity - length (contents q) =
      omega (arith, v.bounded, size) in
    ap₂ (λ n m. wire buffer_status 5 (mode ∷ n % 256 ∷ n / 256 ∷ m % 256 ∷ m / 256 ∷ [])) count free

abbrev bytes_or_none : Option (List ℕ) → List ℕ
bytes_or_none none = []
bytes_or_none (some bytes) = bytes

module _ {E : Type 0} where
  -- A report of the queue's state is queued whole, or there is no room for it.
  pub data Told (q : Queue) (w : World E) : Type 0 where
    told :
        (send_buffer_status q w).0 ≡ true
        → tx_pending (send_buffer_status q w).1.transport
          ≡ tx_pending w.transport ++ status_wire w.mode (length (contents q))
        → Told q w
    untold :
        (send_buffer_status q w).0 ≡ false
        → tx_ring_capacity
          < length (tx_pending w.transport) + length (status_wire w.mode (length (contents q)))
        → Told q w

  pub send_buffer_status-Told :
      (q : Queue) (w : World E) → IsValid q → IsTxValid w.transport → Told q w
  unfolding send_buffer_status send_frame
  send_buffer_status-Told q w v t =
      let same = status_of w.mode q v in
      let encoded =
        status-encoded w.mode (u16 q.count % 256) (u16 q.count / 256) (u16 (free_capacity q) % 256)
          (u16 (free_capacity q) / 256) in
      elim (queue_frame_whole buffer_status _ 5 w.transport t).1 [
        | appended bytes o yes_sent e ↦
            let these = ap bytes_or_none (sym o ∙ encoded) ∙ same in
            told yes_sent (e ∙ ap (λ l. tx_pending w.transport ++ l) these)
        | no_encoding o unsent e ↦ absurd (some-none (sym encoded ∙ o))
        | no_room bytes o full unsent e ↦
            let these = ap bytes_or_none (sym o ∙ encoded) ∙ same in
            untold unsent (omega (arith, full, ap length these))
      ]

-- The queue behind a QUEUE_EVENT that it takes, or as before.
abbrev pub with_event : {E : Type 0} → Frame → Firmware E → Queue
with_event frame y =
    (push (read_u64_le frame.payload) (some (drop 9 frame.payload)) report_size y.queue).1
