-- ===== src/Transport/TxRing.antt =====
-- The transmit ring of pico/src/uart_transport.c as a list: its free-running counters wrap at 2^16, and
-- the slots are the counters modulo the capacity.
use pico_keyboard_rt_recorde.Base.{
  ℕ, ◌+◌, ◌-◌, ◌%◌, ◌^◌, ◌≤◌, ◌<◌, ◌≡◌, refl, sym, ap, ◌∙◌, ◌⊎◌, inl, inr, Bool, true, false,
  Option, none, some, List, [], ◌∷◌, ◌++◌, ltb, ◌==◌, length, arith, window, window-push,
  window-pop, window-nil, length-window, update, u16, dec_lt, ℕ_discrete, lt→ltb,
}
use mathlib.Core.List.{append_assoc, append-nil}
use pico_keyboard_rt_recorde.Protocol.Codec.{Bytes, encode_frame}
use pico_keyboard_rt_recorde.Transport.{Transport, parser_capacity, tx_ring_capacity, distance16}
use pico_keyboard_rt_recorde.Transport.Send.{
  store_tx, drop_tx, queue_encoded, queue_frame, pop_tx_byte,
}

abbrev pub tx_count : Transport → ℕ
tx_count t = distance16 t.tx_head t.tx_tail

-- The bytes on their way to the UART, oldest first.
abbrev pub tx_pending : Transport → List ℕ
tx_pending t = window t.tx_bytes tx_ring_capacity t.tx_tail (tx_count t)

-- The counters are uint16_t values at most a ring apart.
pub record IsTxValid (t : Transport) : Type 0 where
  pub head_in : t.tx_head < 2 ^ 16
  pub tail_in : t.tx_tail < 2 ^ 16
  pub bounded : tx_count t ≤ tx_ring_capacity

abbrev stored : ℕ → Transport → Transport
stored b t = record t {
  tx_bytes = update t.tx_bytes (t.tx_head % tx_ring_capacity) b;
  tx_head = u16 (t.tx_head + 1);
}

count-stored :
    (b : ℕ) (t : Transport)
    → IsTxValid t
    → tx_count t < tx_ring_capacity
    → tx_count (stored b t) ≡ tx_count t + 1
count-stored b t v h = omega (arith, v.head_in, v.tail_in)

stored-IsTxValid :
    (b : ℕ) (t : Transport) → IsTxValid t → tx_count t < tx_ring_capacity → IsTxValid (stored b t)
stored-IsTxValid b t v h = record {
  head_in = omega arith;
  tail_in = v.tail_in;
  bounded = omega (arith, count-stored b t v h);
}

tx_pending-stored :
    (b : ℕ) (t : Transport)
    → IsTxValid t
    → tx_count t < tx_ring_capacity
    → tx_pending (stored b t) ≡ tx_pending t ++ b ∷ []
tx_pending-stored b t v h =
    ap (window (stored b t).tx_bytes tx_ring_capacity t.tx_tail) (count-stored b t v h)
    ∙ window-push t.tx_bytes tx_ring_capacity b (tx_count t) t.tx_tail
        (t.tx_head % tx_ring_capacity) h (omega (arith, v.head_in, v.tail_in))

-- The copying loop appends, when the bytes fit.
store_tx-pending :
    (bs : List ℕ) (t : Transport)
    → IsTxValid t
    → tx_count t + length bs ≤ tx_ring_capacity
    → IsTxValid (store_tx bs t) × (tx_pending (store_tx bs t) ≡ tx_pending t ++ bs)
unfolding store_tx
store_tx-pending [] t v h = (v, sym (append-nil (tx_pending t)))
store_tx-pending (b ∷ bs) t v h =
    let space : tx_count t < tx_ring_capacity = omega arith in
    let more : tx_count (stored b t) + length bs ≤ tx_ring_capacity =
      omega (arith, count-stored b t v space) in
    let (w, e) = store_tx-pending bs (stored b t) (stored-IsTxValid b t v space) more in
    (
      w,
      e
          ∙ ap (λ l. l ++ bs) (tx_pending-stored b t v space)
          ∙ append_assoc (tx_pending t) (b ∷ []) bs,
    )

-- What became of an encoder's result: appended whole, or refused with the waiting bytes as they were.
pub data Outcome (o : Option (List ℕ)) (t : Transport) (r : Bool × Transport) : Type 0 where
  appended :
      (bytes : List ℕ)
      → o ≡ some bytes
      → r.0 ≡ true
      → tx_pending r.1 ≡ tx_pending t ++ bytes
      → Outcome o t r
  no_encoding : o ≡ none → r.0 ≡ false → tx_pending r.1 ≡ tx_pending t → Outcome o t r
  no_room :
      (bytes : List ℕ)
      → o ≡ some bytes
      → tx_ring_capacity < length (tx_pending t) + length bytes
      → r.0 ≡ false
      → tx_pending r.1 ≡ tx_pending t
      → Outcome o t r

drop_tx-IsTxValid : (t : Transport) → IsTxValid t → IsTxValid (drop_tx t)
unfolding drop_tx
drop_tx-IsTxValid t v = record { head_in = v.head_in; tail_in = v.tail_in; bounded = v.bounded }

pub queue_encoded_whole :
    (o : Option (List ℕ)) (t : Transport)
    → IsTxValid t
    → IsTxValid (queue_encoded o t).1 × Outcome o t (queue_encoded o t)
unfolding queue_encoded drop_tx
queue_encoded_whole none t v = (drop_tx-IsTxValid t v, no_encoding refl refl refl)
queue_encoded_whole (some bytes) t v = elim (dec_lt tx_ring_capacity (tx_count t + length bytes)) [
  | yes p ↦
      let full = lt→ltb tx_ring_capacity (tx_count t + length bytes) p in
      let size = length-window t.tx_bytes tx_ring_capacity t.tx_tail (tx_count t) in
      rw full (drop_tx-IsTxValid t v, no_room bytes refl (rw size p) refl refl)
  | no p ↦
      let fits : ltb tx_ring_capacity (tx_count t + length bytes) ≡ false = ground arith in
      let (w, e) = store_tx-pending bytes t v (omega arith) in
      rw fits (w, appended bytes refl refl e)
]

-- A frame is queued whole or not at all: if it can be encoded and its bytes fit beside those that
-- wait, they are appended; otherwise the waiting bytes stay as they are. The counters stay valid, across
-- their wrap-around at 2^16 too. They are valid before.
pub queue_frame_whole :
    (type : ℕ) (payload : Bytes) (n : ℕ) (t : Transport)
    → IsTxValid t
    → let r = queue_frame type payload n t in
      IsTxValid r.1 × Outcome (encode_frame type payload n parser_capacity) t r
unfolding queue_frame
queue_frame_whole type payload n t v =
    queue_encoded_whole (encode_frame type payload n parser_capacity) t v

-- On valid counters, `pop_tx_byte` gives the oldest waiting byte and leaves the others, or says that none
-- waits; the counters stay valid.
pub pop_tx_byte_refines :
    (t : Transport)
    → IsTxValid t
    → let (byte, t') = pop_tx_byte t in
      IsTxValid t'
      × (((byte ≡ none) × (tx_pending t ≡ []) × (t' ≡ t))
          ⊎ ((b : ℕ) × (byte ≡ some b) × (tx_pending t ≡ b ∷ tx_pending t')))
unfolding pop_tx_byte
pop_tx_byte_refines t v = elim (ℕ_discrete t.tx_tail t.tx_head) [
  | yes e ↦
      let same : (t.tx_tail == t.tx_head) ≡ true = ground arith in
      let none_left : tx_count t ≡ 0 = omega (arith, v.head_in, v.tail_in, e) in
      rw same (
        v,
        inl (refl, window-nil t.tx_bytes tx_ring_capacity t.tx_tail (tx_count t) none_left, refl),
      )
  | no e ↦
      let differ : (t.tx_tail == t.tx_head) ≡ false = ground arith in
      let less : distance16 t.tx_head (u16 (t.tx_tail + 1)) ≡ tx_count t - 1 =
        omega (arith, v.head_in, v.tail_in, e) in
      let some_left : 0 < tx_count t = omega (arith, v.head_in, v.tail_in, e) in
      let first =
        window-pop t.tx_bytes tx_ring_capacity t.tx_tail (u16 (t.tx_tail + 1)) (tx_count t)
          some_left (omega arith) in
      rw differ (
        record {
          head_in = v.head_in;
          tail_in = omega arith;
          bounded = omega (arith, less, v.bounded);
        },
        inr (
          t.tx_bytes (t.tx_tail % tx_ring_capacity),
          refl,
          first
              ∙ ap
                  (λ n.
                    t.tx_bytes (t.tx_tail % tx_ring_capacity)
                    ∷ window t.tx_bytes tx_ring_capacity (u16 (t.tx_tail + 1)) n)
                  (sym less),
        ),
      )
]
