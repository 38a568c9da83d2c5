-- ===== src/Transport/Valid.antt =====
-- Well-formedness of the whole transport of pico/src/uart_transport.c, and that every operation keeps it.
use pico_keyboard_rt_recorde.Base.{
  ℕ, zero, suc, ◌+◌, ◌*◌, ◌≤◌, ◌<◌, ◌≡◌, ◌≢◌, refl, inl, inr, not, ◌&&◌, Bool, true, false, ◌==◌,
  if◌then◌else◌, arith, Bool-cases, u16, prefix,
}
use pico_keyboard_rt_recorde.Protocol.{magic}
use pico_keyboard_rt_recorde.Protocol.Codec.{
  DecodeResult, ok, too_short, bad_magic, bad_version, bad_length, bad_crc, decode_frame,
}
use pico_keyboard_rt_recorde.Transport.{
  Transport, init, parser_capacity, distance16, note_decode_error, latch_fault,
}
use pico_keyboard_rt_recorde.Transport.Commands.{push_command}
use pico_keyboard_rt_recorde.Transport.Receive.{
  accept_byte, after_store, store_byte, reset_full, handle_result, poll_byte, poll_loop, poll,
}
use pico_keyboard_rt_recorde.Transport.TxRing.{IsTxValid}
use pico_keyboard_rt_recorde.Transport.CommandRing.{IsCommandValid}
use pico_keyboard_rt_recorde.Transport.Drain.{IsRxValid}
use pico_keyboard_rt_recorde.Transport.Closed.{Closed, poll_rule}

-- The counters of all rings, and room for the next byte in the parser.
pub record IsValid (t : Transport) : Type 0 where
  pub tx : IsTxValid t
  pub command : IsCommandValid t
  pub rx : IsRxValid t
  pub parser : t.parser_len < parser_capacity

pub init-IsValid : IsValid init
init-IsValid = record {
  tx = omega arith;
  command = omega arith;
  rx = omega arith;
  parser = omega arith;
}

-- The three rings, without the parser.
pub record Rings (t : Transport) : Type 0 where
  pub tx : IsTxValid t
  pub command : IsCommandValid t
  pub rx : IsRxValid t

Rings-Closed : Closed Rings
unfolding push_command
Rings-Closed = record {
  free = λ p k f s t h. record {
    tx = record { head_in = h.tx.head_in; tail_in = h.tx.tail_in; bounded = h.tx.bounded };
    command = record {
      head_in = h.command.head_in;
      tail_in = h.command.tail_in;
      bounded = h.command.bounded;
    };
    rx = record { head_in = h.rx.head_in; tail_in = h.rx.tail_in; bounded = h.rx.bounded };
  };
  pushed = λ f t h room. record {
    tx = record { head_in = h.tx.head_in; tail_in = h.tx.tail_in; bounded = h.tx.bounded };
    command = record {
      head_in = omega arith;
      tail_in = h.command.tail_in;
      bounded = omega (arith, h.command.head_in, h.command.tail_in);
    };
    rx = record { head_in = h.rx.head_in; tail_in = h.rx.tail_in; bounded = h.rx.bounded };
  };
}

Rings-moved :
    (t : Transport)
    → Rings t
    → t.rx_tail ≢ t.rx_head
    → Rings (record t { rx_tail = u16 (t.rx_tail + 1) })
Rings-moved t h differ = record {
  tx = record { head_in = h.tx.head_in; tail_in = h.tx.tail_in; bounded = h.tx.bounded };
  command = record {
    head_in = h.command.head_in;
    tail_in = h.command.tail_in;
    bounded = h.command.bounded;
  };
  rx = record {
    head_in = h.rx.head_in;
    tail_in = omega arith;
    bounded = omega (arith, h.rx.head_in, h.rx.tail_in, h.rx.bounded, differ);
  };
}

handle_result-parser_len : (r : DecodeResult) (t : Transport) → (handle_result r t).parser_len ≡ 0
unfolding handle_result
handle_result-parser_len (ok f) t = refl
handle_result-parser_len too_short t = refl
handle_result-parser_len bad_magic t = refl
handle_result-parser_len bad_version t = refl
handle_result-parser_len bad_length t = refl
handle_result-parser_len bad_crc t = refl

-- Behind each byte the parser has room for the next one.
after_store-parser_len :
    (t : Transport) → t.parser_len ≤ parser_capacity → (after_store t).parser_len < parser_capacity
unfolding after_store
after_store-parser_len t h =
    let n = t.parser 3 + t.parser 4 * 256 in
    ground (arith, handle_result-parser_len (decode_frame (prefix t.parser (7 + n))) t)

stored-parser_len :
    (b : ℕ) (t : Transport) → (store_byte b (reset_full t)).parser_len ≤ parser_capacity
unfolding store_byte reset_full latch_fault
stored-parser_len b t = ground arith

parser_len_either :
    (c : Bool) (x y : Transport)
    → x.parser_len < parser_capacity
    → y.parser_len < parser_capacity
    → (if c then x else y).parser_len < parser_capacity
parser_len_either true x y p q = p
parser_len_either false x y p q = q

note_decode_error-parser_len :
    (r : DecodeResult) (t : Transport) → (note_decode_error r t).parser_len ≡ t.parser_len
unfolding note_decode_error latch_fault
note_decode_error-parser_len r t = refl

accept_byte-parser_len :
    (b : ℕ) (t : Transport)
    → t.parser_len < parser_capacity
    → (accept_byte b t).parser_len < parser_capacity
unfolding accept_byte
accept_byte-parser_len b t h =
    parser_len_either (t.parser_len == 0 && not (b == magic)) _ _
      (rw (note_decode_error-parser_len bad_magic t) h)
      (after_store-parser_len (store_byte b (reset_full t)) (stored-parser_len b t))

poll_loop-parser_len :
    (n : ℕ) (t : Transport)
    → t.parser_len < parser_capacity
    → (poll_loop n t).parser_len < parser_capacity
unfolding poll_loop poll_byte
poll_loop-parser_len zero t h = h
poll_loop-parser_len (suc n) t h = elim (Bool-cases (t.rx_tail == t.rx_head)) [
  | inl e ↦ rw (e, poll_loop) h
  | inr e ↦ rw (e, poll_loop) (poll_loop-parser_len n _ (accept_byte-parser_len _ _ h))
]

rings : (t : Transport) → IsValid t → Rings t
rings t v = record { tx = v.tx; command = v.command; rx = v.rx }

pub poll-IsValid : (t : Transport) → IsValid t → IsValid (poll t)
unfolding poll
poll-IsValid t v =
    let r = poll_rule Rings Rings-Closed Rings-moved t (rings t v) in
    record {
      tx = r.tx;
      command = r.command;
      rx = r.rx;
      parser = poll_loop-parser_len (distance16 t.rx_head t.rx_tail) t v.parser;
    }
