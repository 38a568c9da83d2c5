-- ===== src/Transport/Drain.antt =====
-- `pico_uart_transport_poll` as a whole: the parser's steps on the bytes that wait in the receive ring.
use pico_keyboard_rt_recorde.Base.{
  ℕ, zero, suc, ◌+◌, ◌-◌, ◌*◌, ◌%◌, ◌^◌, ◌≤◌, ◌<◌, ◌≡◌, refl, sym, ap, ◌∙◌, not, ◌&&◌, Bool, true,
  false, Array, List, [], ◌∷◌, prefix, ◌==◌, if◌then◌else◌, arith, window, window-nil, window-pop,
  ℕ_discrete, u16,
}
use pico_keyboard_rt_recorde.Protocol.{magic, Frame}
use pico_keyboard_rt_recorde.Protocol.Codec.{
  DecodeResult, ok, too_short, bad_magic, bad_version, bad_length, bad_crc, decode_frame,
}
use pico_keyboard_rt_recorde.Transport.{
  Transport, rx_ring_capacity, distance16, note_decode_error, count_error, latch_fault,
}
use pico_keyboard_rt_recorde.Transport.Commands.{
  enqueue_command, refuse_frame, overflow_commands, push_command,
}
use pico_keyboard_rt_recorde.Transport.Receive.{
  accept_byte, after_store, store_byte, reset_full, handle_result, poll_byte, poll_loop, poll,
}
use pico_keyboard_rt_recorde.Transport.Parse.{feed}

-- The same transport with another receive ring.
abbrev pub at_ring : Array ℕ → ℕ → ℕ → Transport → Transport
at_ring a h x t = record t { rx_bytes = a; rx_head = h; rx_tail = x }

enqueue-at_ring :
    (a : Array ℕ) (h x : ℕ) (f : Frame) (t : Transport)
    → enqueue_command f (at_ring a h x t) ≡ at_ring a h x (enqueue_command f t)
unfolding enqueue_command refuse_frame overflow_commands push_command latch_fault
enqueue-at_ring a h x f t = ground arith

handle_result-at_ring :
    (a : Array ℕ) (h x : ℕ) (r : DecodeResult) (t : Transport)
    → handle_result r (at_ring a h x t) ≡ at_ring a h x (handle_result r t)
unfolding handle_result note_decode_error count_error latch_fault
handle_result-at_ring a h x (ok f) t =
    ap (λ (z : Transport). record z { parser_len = 0 }) (enqueue-at_ring a h x f t)
handle_result-at_ring a h x too_short t = refl
handle_result-at_ring a h x bad_magic t = refl
handle_result-at_ring a h x bad_version t = refl
handle_result-at_ring a h x bad_length t = refl
handle_result-at_ring a h x bad_crc t = refl

after_store-at_ring :
    (a : Array ℕ) (h x : ℕ) (t : Transport)
    → after_store (at_ring a h x t) ≡ at_ring a h x (after_store t)
unfolding after_store note_decode_error count_error latch_fault
after_store-at_ring a h x t =
    let n = t.parser 3 + t.parser 4 * 256 in
    ground (arith, handle_result-at_ring a h x (decode_frame (prefix t.parser (7 + n))) t)

reset_full-at_ring :
    (a : Array ℕ) (h x : ℕ) (t : Transport)
    → reset_full (at_ring a h x t) ≡ at_ring a h x (reset_full t)
unfolding reset_full latch_fault
reset_full-at_ring a h x t = ground arith

stored-at_ring :
    (a : Array ℕ) (h x b : ℕ) (t : Transport)
    → after_store (store_byte b (reset_full (at_ring a h x t)))
      ≡ at_ring a h x (after_store (store_byte b (reset_full t)))
unfolding store_byte
stored-at_ring a h x b t =
    ap (λ z. after_store (store_byte b z)) (reset_full-at_ring a h x t)
    ∙ after_store-at_ring a h x (store_byte b (reset_full t))

refused-at_ring :
    (a : Array ℕ) (h x : ℕ) (t : Transport)
    → note_decode_error bad_magic (at_ring a h x t) ≡ at_ring a h x (note_decode_error bad_magic t)
unfolding note_decode_error count_error latch_fault
refused-at_ring a h x t = refl

either :
    (a : Array ℕ) (h x : ℕ) (c : Bool) (s s' r r' : Transport)
    → s ≡ at_ring a h x s'
    → r ≡ at_ring a h x r'
    → (if c then s else r) ≡ at_ring a h x (if c then s' else r')
either a h x true s s' r r' e f = e
either a h x false s s' r r' e f = f

accept_byte-at_ring :
    (a : Array ℕ) (h x b : ℕ) (t : Transport)
    → accept_byte b (at_ring a h x t) ≡ at_ring a h x (accept_byte b t)
unfolding accept_byte
accept_byte-at_ring a h x b t =
    either a h x (t.parser_len == 0 && not (b == magic)) _ _ _ _ (refused-at_ring a h x t)
      (stored-at_ring a h x b t)

pub feed-at_ring :
    (a : Array ℕ) (h x : ℕ) (bs : List ℕ) (t : Transport)
    → feed bs (at_ring a h x t) ≡ at_ring a h x (feed bs t)
unfolding feed
feed-at_ring a h x [] t = refl
feed-at_ring a h x (b ∷ bs) t =
    ap (feed bs) (accept_byte-at_ring a h x b t) ∙ feed-at_ring a h x bs (accept_byte b t)

-- The loop drains the ring that starts at `x`.
poll_loop-at_ring :
    (n : ℕ) (a : Array ℕ) (h x : ℕ) (t : Transport)
    → h < 2 ^ 16
    → x < 2 ^ 16
    → distance16 h x ≤ n
    → poll_loop n (at_ring a h x t)
      ≡ at_ring a h h (feed (window a rx_ring_capacity x (distance16 h x)) t)
unfolding poll_loop poll_byte feed
poll_loop-at_ring zero a h x t hh hx le =
    let same : x ≡ h = omega arith in
    rw (window-nil a rx_ring_capacity x (distance16 h x) (omega arith))
      (ap (λ z. at_ring a h z t) same)
poll_loop-at_ring (suc n) a h x t hh hx le = elim (ℕ_discrete x h) [
  | yes e ↦
      let stop : (x == h) ≡ true = ground arith in
      rw (stop, poll_loop)
        (rw (window-nil a rx_ring_capacity x (distance16 h x) (omega (arith, e)))
          (ap (λ z. at_ring a h z t) e))
  | no e ↦
      let go : (x == h) ≡ false = ground arith in
      let x' = u16 (x + 1) in
      let b = a (x % rx_ring_capacity) in
      let less : distance16 h x' ≡ distance16 h x - 1 = omega (arith, hh, hx, e) in
      let first : window a rx_ring_capacity x (distance16 h x)
          ≡ b ∷ window a rx_ring_capacity x' (distance16 h x') =
        window-pop a rx_ring_capacity x x' (distance16 h x) (omega (arith, hh, hx, e)) (omega arith)
        ∙ ap (λ m. b ∷ window a rx_ring_capacity x' m) (sym less) in
      rw (go, poll_loop)
        (rw first (
          ap (poll_loop n) (accept_byte-at_ring a h x' b t)
          ∙ poll_loop-at_ring n a h x' (accept_byte b t) hh (omega arith)
              (omega (arith, less, le, e, hh, hx))))
]

abbrev pub rx_count : Transport → ℕ
rx_count t = distance16 t.rx_head t.rx_tail

-- The received bytes that wait for the parser, oldest first.
abbrev pub received : Transport → List ℕ
received t = window t.rx_bytes rx_ring_capacity t.rx_tail (rx_count t)

-- The counters are uint16_t values at most a ring apart.
pub record IsRxValid (t : Transport) : Type 0 where
  pub head_in : t.rx_head < 2 ^ 16
  pub tail_in : t.rx_tail < 2 ^ 16
  pub bounded : rx_count t ≤ rx_ring_capacity

-- `poll` runs the parser over the bytes that wait in the receive ring, oldest first, each once, and leaves
-- the ring empty: the result does not depend on the ring's position, on the wrap-around of its counters, or
-- on how many more turns the loop is allowed. The counters are valid.
pub poll_drains :
    (k : ℕ) (t : Transport)
    → IsRxValid t
    → (poll t ≡ record (feed (received t) t) {
      rx_bytes = t.rx_bytes;
      rx_head = t.rx_head;
      rx_tail = t.rx_head;
    })
      × (poll_loop (rx_count t + k) t ≡ poll t)
unfolding poll
poll_drains k t v =
    let once =
      poll_loop-at_ring (rx_count t) t.rx_bytes t.rx_head t.rx_tail t v.head_in v.tail_in
        (omega arith) in
    (
      once,
      poll_loop-at_ring (rx_count t + k) t.rx_bytes t.rx_head t.rx_tail t v.head_in v.tail_in
            (omega arith)
          ∙ sym once,
    )
