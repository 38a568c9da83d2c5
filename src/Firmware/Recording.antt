-- ===== src/Firmware/Recording.antt =====
-- The RECORD_EVENT frames that `send_record_event` of pico/src/main.c queues for the Zero: what becomes of
-- a list of events when the transmit ring may be full.
pub mod Forward
use pico_keyboard_rt_recorde.Base.{
  ℕ, ◌+◌, ◌≤◌, ◌<◌, ◌≡◌, refl, sym, ap, ◌∙◌, ◌⊎◌, inl, inr, Bool, true, false, Option, none, some,
  List, [], ◌∷◌, ◌++◌, length, arith, take, take-append, All, u16, u32, update, ◌%◌, ◌/◌,
  length-append, length-window,
}
use mathlib.Core.Path.{subst}
use mathlib.Core.List.{append_assoc, append-nil}
use pico_keyboard_rt_recorde.Protocol.{record_event, type_known, protocol_version}
use pico_keyboard_rt_recorde.Protocol.Codec.{encode_frame, covered}
use pico_keyboard_rt_recorde.Protocol.Crc.{crc16}
use pico_keyboard_rt_recorde.Protocol.RoundTrip.{wire}
use pico_keyboard_rt_recorde.Hid.{report_bytes}
use pico_keyboard_rt_recorde.Capture.{Event}
use pico_keyboard_rt_recorde.Transport.{Transport, Stats, tx_ring_capacity, parser_capacity}
use pico_keyboard_rt_recorde.Transport.Send.{store_tx, drop_tx, queue_encoded, queue_frame}
use pico_keyboard_rt_recorde.Transport.TxRing.{
  IsTxValid, tx_count, tx_pending, Outcome, appended, no_encoding, no_room, queue_encoded_whole,
}
use pico_keyboard_rt_recorde.Transport.Parse.{length-wire}
use pico_keyboard_rt_recorde.Dispatch.Delivery.{record_all}
use pico_keyboard_rt_recorde.Firmware.Words.{le_bytes}

-- The payload of RECORD_EVENT.
abbrev pub event_payload : Event → List ℕ
event_payload e = le_bytes 8 e.timestamp_us ++ e.report_len ∷ report_bytes e.report

abbrev bytes_or_none : Option (List ℕ) → List ℕ
bytes_or_none none = []
bytes_or_none (some bytes) = bytes

-- The C struct has six key codes.
abbrev pub IsBoot : Event → Type 0
IsBoot e = length e.report.keycode ≡ 6

abbrev pub event_wire : Event → List ℕ
event_wire e = wire record_event 17 (event_payload e)

abbrev pub wires : List Event → List ℕ
wires [] = []
wires (e ∷ es) = event_wire e ++ wires es

-- `send_record_event` on the transport.
abbrev pub queue_event : Event → Transport → Transport
queue_event e t = (queue_frame record_event (some (event_payload e)) 17 t).1

abbrev frame_size : ℕ
frame_size = 24

take_all : (n : ℕ) (xs : List ℕ) → length xs ≡ n → take n xs ≡ xs
take_all n xs h =
    ap (λ k. take k xs) (sym h) ∙ ap (take (length xs)) (sym (append-nil xs)) ∙ take-append xs []

event-encoded :
    (e : Event)
    → IsBoot e
    → encode_frame record_event (some (event_payload e)) 17 parser_capacity ≡ some (event_wire e)
unfolding encode_frame type_known wire covered le_bytes report_bytes
event-encoded e h = rw (take_all 6 e.report.keycode h) refl

pub length-event_wire : (e : Event) → IsBoot e → length (event_wire e) ≡ frame_size
unfolding le_bytes report_bytes
length-event_wire e h =
    let h' : length (event_payload e) ≡ 17 = omega (arith, h) in
    omega (arith, h', length-wire record_event 17 (event_payload e) h')

length-pending : (t : Transport) → length (tx_pending t) ≡ tx_count t
length-pending t = length-window t.tx_bytes tx_ring_capacity t.tx_tail (tx_count t)

store_tx-stats : (bs : List ℕ) (t : Transport) → (store_tx bs t).stats ≡ t.stats
unfolding store_tx
store_tx-stats [] t = refl
store_tx-stats (b ∷ bs) t = store_tx-stats bs (record t {
  tx_bytes = update t.tx_bytes (t.tx_head % tx_ring_capacity) b;
  tx_head = u16 (t.tx_head + 1);
})

-- What the call did to the counters: nothing, or one more dropped frame.
queue_encoded-stats :
    (bytes : List ℕ) (t : Transport)
    → let (queued, t') = queue_encoded (some bytes) t in
      ((queued ≡ true) × (t'.stats.tx_dropped ≡ t.stats.tx_dropped))
      ⊎ ((queued ≡ false) × (t'.stats.tx_dropped ≡ u32 (t.stats.tx_dropped + 1)))
unfolding queue_encoded drop_tx
queue_encoded-stats bytes t =
    ground (arith, ap (λ (s : Stats). s.tx_dropped) (store_tx-stats bytes t))

-- One event: its frame is queued, or there is no room for it and it is counted.
data Fate (e : Event) (t t' : Transport) : Type 0 where
  sent :
      tx_pending t' ≡ tx_pending t ++ event_wire e
      → t'.stats.tx_dropped ≡ t.stats.tx_dropped
      → Fate e t t'
  lost :
      tx_ring_capacity < length (tx_pending t) + frame_size
      → tx_pending t' ≡ tx_pending t
      → t'.stats.tx_dropped ≡ u32 (t.stats.tx_dropped + 1)
      → Fate e t t'

queue_encoded-Fate :
    (e : Event) (t : Transport)
    → IsBoot e
    → IsTxValid t
    → let t' = (queue_encoded (some (event_wire e)) t).1 in IsTxValid t' × Fate e t t'
queue_encoded-Fate e t b v =
    let (v', outcome) = queue_encoded_whole (some (event_wire e)) t v in
    let stats = queue_encoded-stats (event_wire e) t in
    let size = length-event_wire e b in
    (
      v',
      elim outcome [
        | appended bytes o y p ↦ elim stats [
          | inl (q, d) ↦ sent (p ∙ ap (λ x. tx_pending t ++ bytes_or_none x) (sym o)) d
          | inr (q, d) ↦ absurd (cc)
        ]
        | no_encoding o n p ↦ absurd (cc)
        | no_room bytes o full n p ↦ elim stats [
          | inl (q, d) ↦ absurd (cc)
          | inr (q, d) ↦ lost (omega (arith, full, size, ap length (ap bytes_or_none o))) p d
        ]
      ],
    )

queue_event-Fate :
    (e : Event) (t : Transport)
    → IsBoot e
    → IsTxValid t
    → IsTxValid (queue_event e t) × Fate e t (queue_event e t)
unfolding queue_frame
queue_event-Fate e t b v =
    subst (λ o. IsTxValid (queue_encoded o t).1 × Fate e t (queue_encoded o t).1)
      (sym (event-encoded e b)) (queue_encoded-Fate e t b v)

-- Behind a frame that found no room, none of the same size finds room.
every_lost :
    (es : List Event) (t : Transport)
    → All IsBoot es
    → IsTxValid t
    → tx_ring_capacity < length (tx_pending t) + frame_size
    → let t' = record_all queue_event es t in
      IsTxValid t'
      × (tx_pending t' ≡ tx_pending t)
      × (u32 t'.stats.tx_dropped ≡ u32 (t.stats.tx_dropped + length es))
every_lost [] t b v full = (v, refl, omega arith)
every_lost (e ∷ es) t b v full =
    let (v', fate) = queue_event-Fate e t b.0 v in
    elim fate [
      | sent p d ↦ absurd (
          omega (
            arith,
            full,
            v'.bounded,
            length-pending (queue_event e t),
            ap length p,
            length-append (tx_pending t) (event_wire e),
            length-event_wire e b.0,
          ))
      | lost _ p d ↦
          let (w, q, c) =
            every_lost es (queue_event e t) b.1 v' (omega (arith, full, ap length p)) in
          (w, q ∙ p, c ∙ omega (arith, d))
    ]

-- What became of the events `es` that were handed to the UART. The oldest ones are sent: their frames stand
-- whole, in order, behind the bytes that waited. The others are lost, which happens only when the ring has
-- no room for a frame any more, and the count of dropped frames, a uint32_t, grew by their number.
pub record Queued (es : List Event) (t t' : Transport) : Type 0 where
  pub valid : IsTxValid t'
  pub kept : List Event
  pub dropped : List Event
  pub split : es ≡ kept ++ dropped
  pub bytes : tx_pending t' ≡ tx_pending t ++ wires kept
  pub full : (dropped ≡ []) ⊎ (tx_ring_capacity < length (tx_pending t') + frame_size)
  pub counted : u32 t'.stats.tx_dropped ≡ u32 (t.stats.tx_dropped + length dropped)

pub record_all-Queued :
    (es : List Event) (t : Transport)
    → All IsBoot es
    → IsTxValid t
    → Queued es t (record_all queue_event es t)
record_all-Queued [] t b v = record {
  valid = v;
  kept = [];
  dropped = [];
  split = refl;
  bytes = sym (append-nil (tx_pending t));
  full = inl refl;
  counted = omega arith;
}
record_all-Queued (e ∷ es) t b v =
    let (v', fate) = queue_event-Fate e t b.0 v in
    elim fate [
      | sent p d ↦
          let rest = record_all-Queued es (queue_event e t) b.1 v' in
          record {
            valid = rest.valid;
            kept = e ∷ rest.kept;
            dropped = rest.dropped;
            split = ap (λ l. e ∷ l) rest.split;
            bytes =
                rest.bytes
                ∙ ap (λ l. l ++ wires rest.kept) p
                ∙ append_assoc (tx_pending t) (event_wire e) (wires rest.kept);
            full = rest.full;
            counted = rest.counted ∙ ap (λ n. u32 (n + length rest.dropped)) d;
          }
      | lost full p d ↦
          let (w, q, c) = every_lost (e ∷ es) t b v full in
          record {
            valid = w;
            kept = [];
            dropped = e ∷ es;
            split = refl;
            bytes = q ∙ sym (append-nil (tx_pending t));
            full = inr (omega (arith, full, ap length q));
            counted = c;
          }
    ]
