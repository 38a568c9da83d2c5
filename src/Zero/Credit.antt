-- ===== src/Zero/Credit.antt =====
-- One queued event and its answer, all the way: from `encode_queue_event` of zero/app/uart_protocol.py
-- through the QUEUE_EVENT handler of pico/src/main.c and back to `validate_buffer_status`.
use mathlib.Core.List.{append_assoc, append-nil}
use pico_keyboard_rt_recorde.Base.{
  ℕ, ◌+◌, ◌-◌, ◌/◌, ◌%◌, ◌≤◌, ◌<◌, ◌≡◌, refl, sym, ap, ap₂, ◌∙◌, ◌⊎◌, inl, inr, some, List, [], ◌∷◌,
  ◌++◌, length, arith, All, length-append,
}
use pico_keyboard_rt_recorde.Protocol.{
  Frame, mode_armed, mode_playing, type_known, frame_payload_valid,
}
use pico_keyboard_rt_recorde.Protocol.Codec.{ok, encode_frame, decode_frame}
use pico_keyboard_rt_recorde.Protocol.RoundTrip.{wire, decode-wire}
use pico_keyboard_rt_recorde.Hid.{report_size}
use pico_keyboard_rt_recorde.Transport.{tx_ring_capacity}
use pico_keyboard_rt_recorde.Transport.TxRing.{IsTxValid, tx_pending}
use pico_keyboard_rt_recorde.Transport.Parse.{length-wire}
use pico_keyboard_rt_recorde.Transport.Resync.{joined}
use pico_keyboard_rt_recorde.PlaybackQueue.{queue_capacity, IsValid, event_of}
use pico_keyboard_rt_recorde.PlaybackQueue.Refine.{contents}
use pico_keyboard_rt_recorde.Firmware.{Board, Firmware}
use pico_keyboard_rt_recorde.Firmware.Words.{read_le}
use pico_keyboard_rt_recorde.Firmware.Commands.{dispatch_command}
use pico_keyboard_rt_recorde.Firmware.Credit.{status_wire, event_in, with_event}
use pico_keyboard_rt_recorde.Firmware.Credit.Answer.{queue_event_answered}
use pico_keyboard_rt_recorde.Zero.{buffer_status, Message, returned}
use pico_keyboard_rt_recorde.Zero.Encode.{encode_queue_event}
use pico_keyboard_rt_recorde.Zero.Validate.{validate_buffer_status}
use pico_keyboard_rt_recorde.Zero.Transport.{send_queue_event}
use pico_keyboard_rt_recorde.Zero.Downlink.{Reads, frame_for, event-Reads}
use pico_keyboard_rt_recorde.Zero.Decoder.{decoder, sync, candidate}
use pico_keyboard_rt_recorde.Zero.Decoder.Chunks.{AtRest, feed_all}
use pico_keyboard_rt_recorde.Zero.Uplink.{Sending, IsSending, stream, messages, stream_delivered}

-- BUFFER_STATUS as the Zero sees it.
abbrev pub status_message : ℕ → ℕ → Message
status_message mode n =
    let free = queue_capacity - n in
    record {
      message_type = buffer_status;
      payload = mode ∷ n % 256 ∷ n / 256 ∷ free % 256 ∷ free / 256 ∷ [];
    }

abbrev pub status_sending : ℕ → ℕ → Sending
status_sending mode n = record {
  noise = [];
  message = status_message mode n;
  encoded = status_wire mode n;
}

pub status-IsSending :
    (mode n : ℕ) → mode ≤ 4 → n ≤ queue_capacity → IsSending (status_sending mode n)
unfolding encode_frame type_known wire frame_payload_valid
status-IsSending mode n m h = record {
  quiet = tt;
  kind = refl;
  shaped = refl;
  byte_sized =
      (omega (arith, m), (omega arith, (omega (arith, h), (omega arith, (omega arith, tt)))));
  by_pico = refl;
}

-- The Zero reads out of BUFFER_STATUS what the Pico put in.
pub status-validated :
    (mode n : ℕ)
    → mode ≤ 4
    → n ≤ queue_capacity
    → validate_buffer_status (status_message mode n) ≡ returned (mode, n, queue_capacity - n)
unfolding validate_buffer_status read_le
status-validated mode n m h = ground arith

pub length-status : (mode n : ℕ) → length (status_wire mode n) ≡ 12
length-status mode n = length-wire buffer_status 5 (status_message mode n).payload refl

pub append-sending :
    (ss : List Sending) (s : Sending)
    → All IsSending ss
    → IsSending s
    → s.noise ≡ []
    → All IsSending (ss ++ s ∷ []) × (stream (ss ++ s ∷ []) ≡ stream ss ++ s.encoded)
append-sending [] s g h quiet =
    ((h, tt), ap (λ l. l ++ (s.encoded ++ [])) quiet ∙ append-nil s.encoded)
append-sending (x ∷ ss) s (g, gs) h quiet =
    let (all, bytes) = append-sending ss s gs h quiet in
    (
      (g, all),
      ap (λ l. x.noise ++ (x.encoded ++ l)) bytes
          ∙ ap (λ l. x.noise ++ l) (sym (append_assoc x.encoded (stream ss) s.encoded))
          ∙ sym (append_assoc x.noise (x.encoded ++ stream ss) s.encoded),
    )

messages-append :
    (ss : List Sending) (s : Sending) → messages (ss ++ s ∷ []) ≡ messages ss ++ s.message ∷ []
messages-append [] s = refl
messages-append (x ∷ ss) s = ap (◌∷◌ x.message) (messages-append ss s)

pub rested : AtRest decoder
unfolding sync candidate
rested = record { synced = refl; waiting = refl }

module _ {E : Type 0} (board : Board E) where
  -- What one accepted event does to the queue and to the bytes on their way to the Zero.
  pub record Stepped (o : ℕ) (report : List ℕ) (ss : List Sending) (y : Firmware E) : Type 0 where
    pub queued :
        contents (dispatch_command board (frame_for (send_queue_event o report)) y).queue
        ≡ contents y.queue ++ event_of o (some report) report_size ∷ []
    pub pending :
        tx_pending
          (dispatch_command board (frame_for (send_queue_event o report)) y).world.transport
        ≡ stream (ss ++ status_sending y.world.mode (length (contents y.queue) + 1) ∷ [])
    pub sendings :
        All IsSending (ss ++ status_sending y.world.mode (length (contents y.queue) + 1) ∷ [])
    pub same_mode :
        (dispatch_command board (frame_for (send_queue_event o report)) y).world.mode ≡ y.world.mode

  pub event-Stepped :
      (o : ℕ) (report bytes : List ℕ) (ss : List Sending) (y : Firmware E)
      → Reads (send_queue_event o report) bytes
      → IsValid y.queue
      → IsTxValid y.world.transport
      → (y.world.mode ≡ mode_armed) ⊎ (y.world.mode ≡ mode_playing)
      → length (contents y.queue) < queue_capacity
      → tx_pending y.world.transport ≡ stream ss
      → All IsSending ss
      → length (stream ss) + 12 ≤ tx_ring_capacity
      → Stepped o report ss y
  event-Stepped o report bytes ss y r v t armed room sent g fits =
      let f = frame_for (send_queue_event o report) in
      let y' = dispatch_command board f y in
      elim (queue_event_answered board f y refl v t) [
        | inl (inl (p, q), _) ↦ absurd (elim armed [ inl a ↦ p a | inr a ↦ q a ])
        | inl (inr full, _) ↦ absurd (omega (arith, full, room))
        | inr (inl (_, _, full, _)) ↦
            let size = length-status y.world.mode (length (contents (with_event f y))) in
            absurd (omega (arith, full, fits, ap length sent, size))
        | inr (inr (_, _, c)) ↦
            let n = length (contents y.queue) + 1 in
            let more : length (contents y'.queue) ≡ n =
              omega
                (arith, ap length c.taken, length-append (contents y.queue) (event_in f ∷ [])) in
            let mode : y.world.mode ≤ 4 = elim armed [
              | inl a ↦ omega (arith, a)
              | inr a ↦ omega (arith, a)
            ] in
            let status = status_sending y.world.mode n in
            let last = status-IsSending y.world.mode n mode (omega (arith, room)) in
            let (all, joint) = append-sending ss status g last refl in
            record {
              queued =
                  c.taken
                  ∙ ap₂ (λ a b. contents y.queue ++ event_of a (some b) report_size ∷ []) r.meant.1
                      r.meant.2;
              pending =
                  c.answered
                  ∙ ap (λ k. tx_pending y.world.transport ++ status_wire y.world.mode k) more
                  ∙ ap (λ l. l ++ status.encoded) sent
                  ∙ sym joint;
              sendings = all;
              same_mode = c.same_mode;
            }
      ]

  -- What a queued event leads to.
  pub record RoundTrip (o : ℕ) (report bytes : List ℕ) (ss : List Sending) (y : Firmware E)
      : Type 0 where
    pub frame : Frame
    pub decoded : decode_frame bytes ≡ ok frame
    pub queued :
        contents (dispatch_command board frame y).queue
        ≡ contents y.queue ++ event_of o (some report) report_size ∷ []
    pub answer : Message
    pub arrived :
        (chunks : List (List ℕ))
        → joined chunks ≡ tx_pending (dispatch_command board frame y).world.transport
        → feed_all chunks decoder ≡ (messages ss ++ answer ∷ [], decoder)
    pub understood :
        let n = length (contents y.queue) + 1 in
        validate_buffer_status answer ≡ returned (y.world.mode, n, queue_capacity - n)

  -- The round trip of one event: the bytes that the Zero encodes for an offset and a report decode on the
  -- Pico to a command that puts an event with this offset and this report last into the playback queue;
  -- and the Zero, to which the bytes that then wait for the line come in any chunks, decodes the messages
  -- that waited before and after them one more, in which it reads the Pico's mode, the new number of queued
  -- events and exactly the room that is left, with no error and no byte left over. The Pico is ARMED or
  -- PLAYING, its queue is not full, the counters are valid, and the bytes that wait before are a stream of
  -- frames that the Pico encoded, with room for 12 bytes behind them.
  pub event_credited :
      (o : ℕ) (report bytes : List ℕ) (ss : List Sending) (y : Firmware E)
      → encode_queue_event o report ≡ returned bytes
      → All (λ b. b < 256) report
      → IsValid y.queue
      → IsTxValid y.world.transport
      → (y.world.mode ≡ mode_armed) ⊎ (y.world.mode ≡ mode_playing)
      → length (contents y.queue) < queue_capacity
      → tx_pending y.world.transport ≡ stream ss
      → All IsSending ss
      → length (stream ss) + 12 ≤ tx_ring_capacity
      → RoundTrip o report bytes ss y
  event_credited o report bytes ss y e small v t armed room sent g fits =
      let r = event-Reads o report e small in
      let f = frame_for (send_queue_event o report) in
      let decoded =
        ap decode_frame r.laid_out
        ∙ decode-wire f.type f.payload_len f.payload r.command.sized r.command.fits in
      let n = length (contents y.queue) + 1 in
      let mode : y.world.mode ≤ 4 = elim armed [
        | inl a ↦ omega (arith, a)
        | inr a ↦ omega (arith, a)
      ] in
      let status = status_sending y.world.mode n in
      let c = event-Stepped o report bytes ss y r v t armed room sent g fits in
      record {
        frame = f;
        decoded = decoded;
        queued = c.queued;
        answer = status.message;
        arrived = λ chunks waiting.
            stream_delivered chunks (ss ++ status ∷ []) [] [] c.sendings rested
              (waiting ∙ c.pending)
            ∙ ap (λ l. (l, decoder)) (messages-append ss status);
        understood = status-validated y.world.mode n mode (omega (arith, room));
      }
