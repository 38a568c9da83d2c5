-- ===== src/Firmware/Interrupts.antt =====
-- `uart0_irq_handler` of pico/src/uart_transport_pico.c against `pico_uart_transport_poll`: what becomes of
-- received bytes when interrupts come between the polls.
pub mod Delivery
use pico_keyboard_rt_recorde.Base.{
  ℕ, ◌+◌, ◌%◌, ◌^◌, ◌≤◌, ◌<◌, ◌≡◌, refl, sym, ap, ◌∙◌, inl, inr, true, false, Array, List, [], ◌∷◌,
  ◌++◌, length, leb, arith, window, window-push, window-nil, length-append, length-window, update,
  u16, All,
}
use mathlib.Core.List.{append_assoc, append-nil}
use pico_keyboard_rt_recorde.Protocol.{
  Frame, protocol_version, max_payload, type_is_command, frame_payload_valid,
}
use pico_keyboard_rt_recorde.Protocol.RoundTrip.{wire, frame_of}
use pico_keyboard_rt_recorde.Transport.{
  Transport, rx_ring_capacity, command_capacity, distance16, latch_fault,
}
use pico_keyboard_rt_recorde.Transport.Receive.{rx_push_isr, poll}
use pico_keyboard_rt_recorde.Transport.CommandRing.{IsCommandValid, waiting}
use pico_keyboard_rt_recorde.Transport.Parse.{feed, feed-append, frame_delivered}
use pico_keyboard_rt_recorde.Transport.Drain.{
  at_ring, feed-at_ring, rx_count, received, IsRxValid, poll_drains,
}
use pico_keyboard_rt_recorde.Firmware.Loop.{receive_all, uart0_irq_handler}

-- A transport that differs in its receive ring only, where the bytes `bs` wait.
pub record Holds (bs : List ℕ) (t t' : Transport) : Type 0 where
  pub array : Array ℕ
  pub head : ℕ
  pub tail : ℕ
  pub same : t' ≡ at_ring array head tail t
  pub valid : IsRxValid t'
  pub bytes : received t' ≡ bs

rx_push_isr-Holds :
    (b : ℕ) (t : Transport)
    → IsRxValid t
    → rx_count t < rx_ring_capacity
    → Holds (received t ++ b ∷ []) t (rx_push_isr b t)
unfolding rx_push_isr
rx_push_isr-Holds b t v h =
    let room : leb rx_ring_capacity (rx_count t) ≡ false = ground arith in
    let slots = update t.rx_bytes (t.rx_head % rx_ring_capacity) b in
    let more : distance16 (u16 (t.rx_head + 1)) t.rx_tail ≡ rx_count t + 1 =
      omega (arith, v.head_in, v.tail_in) in
    rw room (record {
      array = slots;
      head = u16 (t.rx_head + 1);
      tail = t.rx_tail;
      same = refl;
      valid = record { head_in = omega arith; tail_in = v.tail_in; bounded = omega (arith, more) };
      bytes =
          ap (window slots rx_ring_capacity t.rx_tail) more
          ∙ window-push t.rx_bytes rx_ring_capacity b (rx_count t) t.rx_tail
              (t.rx_head % rx_ring_capacity) h (omega (arith, v.head_in, v.tail_in));
    })

length-received : (t : Transport) → length (received t) ≡ rx_count t
length-received t = length-window t.rx_bytes rx_ring_capacity t.rx_tail (rx_count t)

-- One interrupt appends the bytes that it reads, when they fit.
receive_all-Holds :
    (bs : List ℕ) (t : Transport)
    → IsRxValid t
    → length (received t ++ bs) ≤ rx_ring_capacity
    → Holds (received t ++ bs) t (receive_all bs t)
unfolding receive_all
receive_all-Holds [] t v h = record {
  array = t.rx_bytes;
  head = t.rx_head;
  tail = t.rx_tail;
  same = refl;
  valid = v;
  bytes = sym (append-nil (received t));
}
receive_all-Holds (b ∷ bs) t v h =
    let fits : rx_count t < rx_ring_capacity =
      omega (arith, h, length-append (received t) (b ∷ bs), length-received t) in
    let one = rx_push_isr-Holds b t v fits in
    let split : received (rx_push_isr b t) ++ bs ≡ received t ++ b ∷ bs =
      ap (λ l. l ++ bs) one.bytes ∙ append_assoc (received t) (b ∷ []) bs in
    let rest = receive_all-Holds bs (rx_push_isr b t) one.valid (rw split h) in
    record {
      array = rest.array;
      head = rest.head;
      tail = rest.tail;
      same = rest.same ∙ ap (at_ring rest.array rest.head rest.tail) one.same;
      valid = rest.valid;
      bytes = rest.bytes ∙ split;
    }

-- What happens to the receive side: an interrupt with bytes that arrived intact, or a poll.
pub data Turn : Type 0 where
  arrived : List ℕ → Turn
  polled : Turn

unfoldable pub run_turns : List Turn → Transport → Transport
run_turns [] t = t
run_turns (arrived bs ∷ rest) t = run_turns rest (uart0_irq_handler false bs t)
run_turns (polled ∷ rest) t = run_turns rest (poll t)

-- All bytes of the interrupts, in their order.
abbrev pub bytes_of : List Turn → List ℕ
bytes_of [] = []
bytes_of (arrived bs ∷ rest) = bs ++ bytes_of rest
bytes_of (polled ∷ rest) = bytes_of rest

-- A poll leaves an empty ring behind the parser's work.
poll-Holds : (t : Transport) → IsRxValid t → Holds [] (feed (received t) t) (poll t)
poll-Holds t v =
    let (drained, more) = poll_drains 0 t v in
    let none_left : distance16 t.rx_head t.rx_head ≡ 0 = omega (arith, v.head_in) in
    rw drained (record {
      array = t.rx_bytes;
      head = t.rx_head;
      tail = t.rx_head;
      same = refl;
      valid = record {
        head_in = v.head_in;
        tail_in = v.head_in;
        bounded = omega (arith, none_left);
      };
      bytes = window-nil t.rx_bytes rx_ring_capacity t.rx_head _ none_left;
    })

-- The parser does not read the ring.
rebase :
    (bs cs : List ℕ) (a : Array ℕ) (h x : ℕ) (t t' r : Transport)
    → t' ≡ at_ring a h x t
    → Holds cs (feed bs t') r
    → Holds cs (feed bs t) r
rebase bs cs a h x t t' r e k = record {
  array = k.array;
  head = k.head;
  tail = k.tail;
  same = k.same ∙ ap (at_ring k.array k.head k.tail) (ap (feed bs) e ∙ feed-at_ring a h x bs t);
  valid = k.valid;
  bytes = k.bytes;
}

-- Up to the receive ring, what the turns and a last poll do is to feed the bytes to the parser.
pub turns_feed :
    (turns : List Turn) (t : Transport)
    → IsRxValid t
    → length (received t ++ bytes_of turns) ≤ rx_ring_capacity
    → Holds [] (feed (received t ++ bytes_of turns) t) (poll (run_turns turns t))
unfolding run_turns uart0_irq_handler
turns_feed [] t v h = rw (append-nil (received t)) (poll-Holds t v)
turns_feed (arrived bs ∷ rest) t v h =
    let split = append_assoc (received t) bs (bytes_of rest) in
    let fits : length (received t ++ bs) ≤ rx_ring_capacity =
      omega (arith, h, ap length split, length-append (received t ++ bs) (bytes_of rest)) in
    let one = receive_all-Holds bs t v fits in
    let t' = receive_all bs t in
    let joined : received t' ++ bytes_of rest ≡ received t ++ (bs ++ bytes_of rest) =
      ap (λ l. l ++ bytes_of rest) one.bytes ∙ split in
    rw (← joined) (
      rebase _ [] one.array one.head one.tail t t' _ one.same
        (turns_feed rest t' one.valid (rw joined h)))
turns_feed (polled ∷ rest) t v h =
    let one = poll-Holds t v in
    let t' = poll t in
    let left : received t' ++ bytes_of rest ≡ bytes_of rest =
      ap (λ l. l ++ bytes_of rest) one.bytes in
    let fewer : length (received t' ++ bytes_of rest) ≤ rx_ring_capacity =
      omega (arith, h, ap length left, length-append (received t) (bytes_of rest)) in
    let all = turns_feed rest t' one.valid fewer in
    let went = rw left at all in
    rw (feed-append (received t) (bytes_of rest) t) (
      rebase (bytes_of rest) [] one.array one.head one.tail (feed (received t) t) t' _ one.same
        went)
