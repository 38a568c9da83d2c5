-- ===== src/Zero/Downlink/Commands.antt =====
-- What each command of zero/app/transport.py looks like to the decoder and the handlers of the Pico
-- (pico/src/uart_protocol.c, pico/src/main.c).
use pico_keyboard_rt_recorde.Base.{
  ℕ, zero, suc, ◌/◌, ◌^◌, ◌<◌, ◌≡◌, refl, ap, ◌∙◌, true, List, [], ◌∷◌, ◌++◌, length, drop, get_or,
  arith, All, length-append, dec_lt, ℕ_discrete,
}
use pico_keyboard_rt_recorde.Protocol.{Frame, type_known, type_is_command, frame_payload_valid}
use pico_keyboard_rt_recorde.Protocol.RoundTrip.{wire, frame_of}
use pico_keyboard_rt_recorde.Firmware.Words.{le_bytes, read_u64_le, read_u64_le-le_bytes}
use pico_keyboard_rt_recorde.Firmware.Interrupts.Delivery.{IsCommand}
use pico_keyboard_rt_recorde.Zero.{
  queue_clear, queue_event, queue_end, play_start, play_abort, mode_set, returned,
}
use pico_keyboard_rt_recorde.Zero.Encode
use pico_keyboard_rt_recorde.Zero.Encode.Agreement.{encode_frame-wire}
use pico_keyboard_rt_recorde.Zero.Transport.{
  Command, set_mode, send_queue_event, send_queue_clear, send_queue_end, send_play_start,
  send_play_abort, written,
}

-- The frame that the Pico is meant to see.
abbrev pub frame_for : Command → Frame
frame_for (set_mode target) = frame_of mode_set 1 (target ∷ [])
frame_for (send_queue_event offset_us report) =
    frame_of queue_event 17 (le_bytes 8 offset_us ++ 8 ∷ report)
frame_for send_queue_clear = frame_of queue_clear 0 []
frame_for send_queue_end = frame_of queue_end 0 []
frame_for send_play_start = frame_of play_start 0 []
frame_for send_play_abort = frame_of play_abort 0 []

-- The handlers of the Pico read the command's arguments out of a frame.
abbrev pub Means : Command → Frame → Type 0
Means (set_mode target) f = (f.type ≡ mode_set) × (get_or f.payload 0 0 ≡ target)
Means (send_queue_event offset_us report) f =
    (f.type ≡ queue_event) × (read_u64_le f.payload ≡ offset_us) × (drop 9 f.payload ≡ report)
Means send_queue_clear f = f.type ≡ queue_clear
Means send_queue_end f = f.type ≡ queue_end
Means send_play_start f = f.type ≡ play_start
Means send_play_abort f = f.type ≡ play_abort

-- A command together with the bytes that were written for it.
pub record Writing : Type 0 where
  pub command : Command
  pub bytes : List ℕ

abbrev pub report_in : Command → List ℕ
report_in (send_queue_event _ report) = report
report_in (set_mode _) = []
report_in send_queue_clear = []
report_in send_queue_end = []
report_in send_play_start = []
report_in send_play_abort = []

pub record IsWriting (w : Writing) : Type 0 where
  pub by_zero : written w.command ≡ returned w.bytes
  pub byte_sized : All (λ b. b < 256) (report_in w.command)

pub record Reads (c : Command) (bytes : List ℕ) : Type 0 where
  pub laid_out : bytes ≡ wire (frame_for c).type (frame_for c).payload_len (frame_for c).payload
  pub command : IsCommand (frame_for c)
  pub meant : Means c (frame_for c)

le_bytes-small : (n v : ℕ) → All (λ b. b < 256) (le_bytes n v)
unfolding le_bytes
le_bytes-small zero v = tt
le_bytes-small (suc n) v = (omega arith, le_bytes-small n (v / 256))

All-append :
    (xs ys : List ℕ) → All (λ b. b < 256) xs → All (λ b. b < 256) ys → All (λ b. b < 256) (xs ++ ys)
All-append [] ys g h = h
All-append (x ∷ xs) ys (g, gs) h = (g, All-append xs ys gs h)

-- A command without a payload.
bare :
    (t : ℕ) {bytes : List ℕ}
    → type_is_command t ≡ true
    → frame_payload_valid (frame_of t 0 []) ≡ true
    → Encode.encode_frame t [] ≡ returned bytes
    → (bytes ≡ wire t 0 []) × IsCommand (frame_of t 0 [])
bare t command shaped e = (
  (encode_frame-wire t [] tt e).0,
  record { command = command; shaped = shaped; sized = refl; fits = omega arith; versioned = refl },
)

length-le_bytes : (n v : ℕ) → length (le_bytes n v) ≡ n
unfolding le_bytes
length-le_bytes zero v = refl
length-le_bytes (suc n) v = omega (arith, length-le_bytes n (v / 256))

pub event-Reads :
    (o : ℕ) (r : List ℕ) {bytes : List ℕ}
    → Encode.encode_queue_event o r ≡ returned bytes
    → All (λ b. b < 256) r
    → Reads (send_queue_event o r) bytes
unfolding Encode.encode_queue_event type_is_command frame_payload_valid type_known
event-Reads o r {bytes} e g = elim (dec_lt o (2 ^ 64)) [
  | no p ↦ absurd (ground arith)
  | yes p ↦ elim (ℕ_discrete (length r) 8) [
    | no q ↦ absurd (ground arith)
    | yes q ↦
        let payload = le_bytes 8 o ++ 8 ∷ r in
        let size : length payload ≡ 17 =
          omega (arith, length-append (le_bytes 8 o) (8 ∷ r), length-le_bytes 8 o, q) in
        let e' : Encode.encode_frame queue_event payload ≡ returned bytes = ground arith in
        let (w, _) =
          encode_frame-wire queue_event payload
            (All-append (le_bytes 8 o) (8 ∷ r) (le_bytes-small 8 o) (omega arith, g)) e' in
        record {
          laid_out = w ∙ ap (λ n. wire queue_event n payload) size;
          command = record {
            command = refl;
            shaped = unfold le_bytes in refl;
            sized = size;
            fits = omega arith;
            versioned = refl;
          };
          meant = (refl, read_u64_le-le_bytes o (8 ∷ r) p, unfold le_bytes in refl);
        }
  ]
]

mode-Reads :
    (target : ℕ) {bytes : List ℕ}
    → written (set_mode target) ≡ returned bytes
    → Reads (set_mode target) bytes
unfolding written type_is_command frame_payload_valid type_known
mode-Reads target {bytes} e = elim (dec_lt target 3) [
  | no p ↦ absurd (ground arith)
  | yes p ↦
      let e' : Encode.encode_frame mode_set (target ∷ []) ≡ returned bytes = ground arith in
      record {
        laid_out = (encode_frame-wire mode_set (target ∷ []) (omega (arith, p), tt) e').0;
        command = record {
          command = refl;
          shaped = refl;
          sized = refl;
          fits = omega arith;
          versioned = refl;
        };
        meant = (refl, refl);
      }
]

-- Every command that is written reads as that command.
pub written-Reads : (w : Writing) → IsWriting w → Reads w.command w.bytes
unfolding written Encode.encode_queue_clear Encode.encode_queue_end Encode.encode_play_start
    Encode.encode_play_abort type_is_command frame_payload_valid type_known
written-Reads w g = reads w.command g.by_zero g.byte_sized
  where
    from_bare :
        (c : Command) {bytes : List ℕ}
        → Means c (frame_for c)
        → (bytes ≡ wire (frame_for c).type (frame_for c).payload_len (frame_for c).payload)
          × IsCommand (frame_for c)
        → Reads c bytes
    from_bare c m (l, k) = record { laid_out = l; command = k; meant = m }

    reads :
        (c : Command) {bytes : List ℕ}
        → written c ≡ returned bytes
        → All (λ b. b < 256) (report_in c)
        → Reads c bytes
    reads (set_mode target) e small = mode-Reads target e
    reads (send_queue_event o r) e small = event-Reads o r e small
    reads send_queue_clear e small = from_bare send_queue_clear refl (bare queue_clear refl refl e)
    reads send_queue_end e small = from_bare send_queue_end refl (bare queue_end refl refl e)
    reads send_play_start e small = from_bare send_play_start refl (bare play_start refl refl e)
    reads send_play_abort e small = from_bare send_play_abort refl (bare play_abort refl refl e)
