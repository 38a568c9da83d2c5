-- ===== src/Transport/ValidRings.antt =====
-- Every operation on a ring of pico/src/uart_transport.c keeps the transport well formed.
use pico_keyboard_rt_recorde.Base.{
  ℕ, ◌+◌, ◌%◌, ◌<◌, ◌≡◌, ◌≢◌, refl, inl, inr, Bool, true, false, Option, none, some, List, [], ◌∷◌,
  Array, leb, ◌==◌, if◌then◌else◌, arith, Bool-cases, u16, update,
}
use pico_keyboard_rt_recorde.Protocol.Codec.{Bytes, encode_frame}
use pico_keyboard_rt_recorde.Transport.{
  Transport, Stats, parser_capacity, rx_ring_capacity, tx_ring_capacity, distance16, latch_fault,
  take_fault,
}
use pico_keyboard_rt_recorde.Transport.Send.{
  store_tx, drop_tx, queue_encoded, queue_frame, pop_tx_byte,
}
use pico_keyboard_rt_recorde.Transport.Commands.{pop_command}
use pico_keyboard_rt_recorde.Transport.Receive.{rx_push_isr, hardware_error_isr}
use pico_keyboard_rt_recorde.Transport.TxRing.{IsTxValid, queue_frame_whole}
use pico_keyboard_rt_recorde.Transport.Valid.{IsValid}

-- A step that writes the transmit ring and the counters only.
abbrev pub OnlyTx : Transport → Transport → Type 0
OnlyTx t t' =
    (a : Array ℕ) × (h : ℕ) × (s : Stats) × (t' ≡ record t { tx_bytes = a; tx_head = h; stats = s })

store_tx-OnlyTx : (bs : List ℕ) (t : Transport) → OnlyTx t (store_tx bs t)
unfolding store_tx
store_tx-OnlyTx [] t = (t.tx_bytes, t.tx_head, t.stats, refl)
store_tx-OnlyTx (b ∷ bs) t =
    let (a, h, s, e) = store_tx-OnlyTx bs (record t {
      tx_bytes = update t.tx_bytes (t.tx_head % tx_ring_capacity) b;
      tx_head = u16 (t.tx_head + 1);
    }) in
    (a, h, s, e)

OnlyTx-either :
    (t : Transport) (c : Bool) (x y : Bool × Transport)
    → OnlyTx t x.1
    → OnlyTx t y.1
    → OnlyTx t (if c then x else y).1
OnlyTx-either t true x y p q = p
OnlyTx-either t false x y p q = q

drop_tx-OnlyTx : (t : Transport) → OnlyTx t (drop_tx t)
unfolding drop_tx
drop_tx-OnlyTx t = (t.tx_bytes, t.tx_head, _, refl)

pub queue_encoded-OnlyTx : (o : Option (List ℕ)) (t : Transport) → OnlyTx t (queue_encoded o t).1
unfolding queue_encoded
queue_encoded-OnlyTx none t = drop_tx-OnlyTx t
queue_encoded-OnlyTx (some bytes) t =
    OnlyTx-either t _ (false, drop_tx t) (true, store_tx bytes t) (drop_tx-OnlyTx t)
      (store_tx-OnlyTx bytes t)

OnlyTx-IsValid : (t t' : Transport) → OnlyTx t t' → IsTxValid t' → IsValid t → IsValid t'
OnlyTx-IsValid t t' (a, h, s, e) tx v = record {
  tx = tx;
  command = rw e (record {
    head_in = v.command.head_in;
    tail_in = v.command.tail_in;
    bounded = v.command.bounded;
  });
  rx = rw e (record { head_in = v.rx.head_in; tail_in = v.rx.tail_in; bounded = v.rx.bounded });
  parser = rw e v.parser;
}

pub queue_frame-IsValid :
    (type n : ℕ) (payload : Bytes) (t : Transport)
    → IsValid t
    → IsValid (queue_frame type payload n t).1
unfolding queue_frame
queue_frame-IsValid type n payload t v =
    OnlyTx-IsValid t (queue_frame type payload n t).1
      (queue_encoded-OnlyTx (encode_frame type payload n parser_capacity) t)
      (queue_frame_whole type payload n t v.tx).0 v

pub pop_tx_byte-IsValid : (t : Transport) → IsValid t → IsValid (pop_tx_byte t).1
unfolding pop_tx_byte
pop_tx_byte-IsValid t v = elim (Bool-cases (t.tx_tail == t.tx_head)) [
  | inl e ↦ rw e v
  | inr e ↦
      let differ : t.tx_tail ≢ t.tx_head = λ same. absurd (ground arith) in
      rw e (record {
        tx = record {
          head_in = v.tx.head_in;
          tail_in = omega arith;
          bounded = omega (arith, v.tx.head_in, v.tx.tail_in, v.tx.bounded, differ);
        };
        command = record {
          head_in = v.command.head_in;
          tail_in = v.command.tail_in;
          bounded = v.command.bounded;
        };
        rx = record { head_in = v.rx.head_in; tail_in = v.rx.tail_in; bounded = v.rx.bounded };
        parser = v.parser;
      })
]

pub pop_command-IsValid : (t : Transport) → IsValid t → IsValid (pop_command t).1
unfolding pop_command
pop_command-IsValid t v = elim (Bool-cases (t.command_tail == t.command_head)) [
  | inl e ↦ rw e v
  | inr e ↦
      let differ : t.command_tail ≢ t.command_head = λ same. absurd (ground arith) in
      rw e (record {
        tx = record { head_in = v.tx.head_in; tail_in = v.tx.tail_in; bounded = v.tx.bounded };
        command = record {
          head_in = v.command.head_in;
          tail_in = omega arith;
          bounded = omega (arith, v.command.head_in, v.command.tail_in, v.command.bounded, differ);
        };
        rx = record { head_in = v.rx.head_in; tail_in = v.rx.tail_in; bounded = v.rx.bounded };
        parser = v.parser;
      })
]

-- The fault and the counters are no part of it.
pub count-IsValid :
    (f : Bool) (s : Stats) (t : Transport)
    → IsValid t
    → IsValid (record t { fault_pending = f; stats = s })
count-IsValid f s t v = record {
  tx = record { head_in = v.tx.head_in; tail_in = v.tx.tail_in; bounded = v.tx.bounded };
  command = record {
    head_in = v.command.head_in;
    tail_in = v.command.tail_in;
    bounded = v.command.bounded;
  };
  rx = record { head_in = v.rx.head_in; tail_in = v.rx.tail_in; bounded = v.rx.bounded };
  parser = v.parser;
}

pub take_fault-IsValid : (t : Transport) → IsValid t → IsValid (take_fault t).1
unfolding take_fault
take_fault-IsValid t v = count-IsValid false t.stats t v

pub hardware_error_isr-IsValid : (t : Transport) → IsValid t → IsValid (hardware_error_isr t)
unfolding hardware_error_isr latch_fault
hardware_error_isr-IsValid t v = count-IsValid true _ t v

pub rx_push_isr-IsValid : (b : ℕ) (t : Transport) → IsValid t → IsValid (rx_push_isr b t)
unfolding rx_push_isr latch_fault
rx_push_isr-IsValid b t v =
    elim (Bool-cases (leb rx_ring_capacity (distance16 t.rx_head t.rx_tail))) [
      | inl e ↦ rw e (count-IsValid true _ t v)
      | inr e ↦
          let room : distance16 t.rx_head t.rx_tail < rx_ring_capacity = ground arith in
          rw e (record {
            tx = record { head_in = v.tx.head_in; tail_in = v.tx.tail_in; bounded = v.tx.bounded };
            command = record {
              head_in = v.command.head_in;
              tail_in = v.command.tail_in;
              bounded = v.command.bounded;
            };
            rx = record {
              head_in = omega arith;
              tail_in = v.rx.tail_in;
              bounded = omega (arith, v.rx.head_in, v.rx.tail_in, room);
            };
            parser = v.parser;
          })
    ]
