-- ===== src/Firmware/Transmit.antt =====
-- `pico_uart_transport_tx_task` of pico/src/uart_transport_pico.c: from the transmit ring to the UART.
use pico_keyboard_rt_recorde.Base.{
  ℕ, zero, suc, ◌+◌, ◌<◌, ◌≡◌, refl, sym, ap, ◌∙◌, ◌⊎◌, inl, inr, false, List, [], ◌∷◌, ◌++◌,
  length, arith, length-window, Bool-cases,
}
use mathlib.Core.List.{append_assoc}
use pico_keyboard_rt_recorde.Transport.{Transport, tx_ring_capacity}
use pico_keyboard_rt_recorde.Transport.Send.{pop_tx_byte}
use pico_keyboard_rt_recorde.Transport.TxRing.{IsTxValid, tx_count, tx_pending, pop_tx_byte_refines}
use pico_keyboard_rt_recorde.Firmware.{Board, World}
use pico_keyboard_rt_recorde.Firmware.Loop.{tx_loop, tx_task}

-- `out` sees the bytes that were written to the UART, oldest first.
pub record Wired {E : Type 0} (board : Board E) (out : E → List ℕ) : Type 0 where
  pub written : (byte : ℕ) (e : E) → out (board.uart_putc_raw byte e) ≡ out e ++ byte ∷ []
  pub asked : (e : E) → out (board.uart_is_writable e).1 ≡ out e

-- How a transmit task ends: the bytes written and the bytes waiting are, in their order, those of before; and
-- it ends on a UART that is not writable or on an empty ring.
pub record Sent {E : Type 0} (board : Board E) (out : E → List ℕ) (w w' : World E) : Type 0 where
  pub valid : IsTxValid w'.transport
  pub conserved : out w'.board ++ tx_pending w'.transport ≡ out w.board ++ tx_pending w.transport
  pub ended :
      (e : E) × (w'.board ≡ (board.uart_is_writable e).1)
      × (((board.uart_is_writable e).0 ≡ false) ⊎ (tx_pending w'.transport ≡ []))

length-tx_pending : (t : Transport) → length (tx_pending t) ≡ tx_count t
length-tx_pending t = length-window t.tx_bytes tx_ring_capacity t.tx_tail (tx_count t)

module _ {E : Type 0} (board : Board E) (out : E → List ℕ) (wired : Wired board out) where
  -- With more turns than bytes, the loop does not run out of turns.
  tx_loop-Sent :
      (n k : ℕ) (w : World E)
      → IsTxValid w.transport
      → length (tx_pending w.transport) < n
      → Sent board out w (tx_loop board n w) × (tx_loop board (n + k) w ≡ tx_loop board n w)
  unfolding tx_loop
  tx_loop-Sent zero k w v h = absurd (omega arith)
  tx_loop-Sent (suc n) k w v h =
      let (ready, e) = board.uart_is_writable w.board in
      let more : suc n + k ≡ suc (n + k) = omega arith in
      let kept : out e ++ tx_pending w.transport ≡ out w.board ++ tx_pending w.transport =
        ap (λ l. l ++ tx_pending w.transport) (wired.asked w.board) in
      rw more (elim (Bool-cases ready) [
        | inr f ↦
            rw (f, tx_loop)
              (record { valid = v; conserved = kept; ended = (w.board, refl, inl f) }, refl)
        | inl t ↦
            let (v', outcome) = pop_tx_byte_refines w.transport v in
            elim outcome [
              | inl (nothing, empty, same) ↦
                  rw (t, nothing, tx_loop)
                    (
                      record { valid = v; conserved = kept; ended = (w.board, refl, inr empty) },
                      refl,
                    )
              | inr (b, found, first) ↦
                  let w' = record w {
                    transport = (pop_tx_byte w.transport).1;
                    board = board.uart_putc_raw b e;
                  } in
                  let rest = tx_pending w'.transport in
                  let fewer : length rest < n = omega (arith, h, ap length first) in
                  let (s, again) = tx_loop-Sent n k w' v' fewer in
                  let moved : out w'.board ++ rest ≡ out w.board ++ tx_pending w.transport =
                    ap (λ l. l ++ rest) (wired.written b e)
                    ∙ append_assoc (out e) (b ∷ []) rest
                    ∙ ap (λ l. out e ++ l) (sym first)
                    ∙ kept in
                  rw (t, found, tx_loop)
                    (
                      record { valid = s.valid; conserved = s.conserved ∙ moved; ended = s.ended },
                      again,
                    )
            ]
      ])

  -- The transmit task writes waiting bytes to the UART in their order: what was written before, followed by
  -- what waits, is the same after it, so no byte is lost, repeated or reordered. It ends only when the UART
  -- says that it is not writable, or when no byte waits; more turns of its loop would change nothing. The
  -- counters of the transmit ring are valid before and after. A byte that is written to the UART comes last
  -- on the line, and the test for room writes none.
  pub tx_task_conserves :
      (k : ℕ) (w : World E)
      → IsTxValid w.transport
      → Sent board out w (tx_task board w)
        × (tx_loop board (suc (tx_count w.transport) + k) w ≡ tx_task board w)
  unfolding tx_task
  tx_task_conserves k w v =
      tx_loop-Sent (suc (tx_count w.transport)) k w v (omega (arith, length-tx_pending w.transport))
