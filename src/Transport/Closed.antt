-- ===== src/Transport/Closed.antt =====
-- An induction principle for `pico_uart_transport_poll`: what a change of the parser, of the fault or of
-- the counters keeps, and a command that is pushed where there is room, the whole parser keeps.
use pico_keyboard_rt_recorde.Base.{
  ℕ, zero, suc, ◌+◌, ◌*◌, ◌<◌, ◌≢◌, not, ◌&&◌, ◌||◌, Bool, true, false, Array, leb, ◌==◌,
  if◌then◌else◌, arith, inl, inr, Bool-cases, u8, u16, prefix, update,
}
use pico_keyboard_rt_recorde.Protocol.{Frame, magic, type_is_command, frame_payload_valid}
use pico_keyboard_rt_recorde.Protocol.Codec.{
  DecodeResult, ok, too_short, bad_magic, bad_version, bad_length, bad_crc, decode_frame,
}
use pico_keyboard_rt_recorde.Transport.{
  Transport, Stats, command_capacity, distance8, note_decode_error, latch_fault,
}
use pico_keyboard_rt_recorde.Transport.Commands.{
  enqueue_command, refuse_frame, overflow_commands, push_command,
}
use pico_keyboard_rt_recorde.Transport.Receive.{
  accept_byte, after_store, store_byte, reset_full, handle_result, poll_byte, poll_loop, poll,
}

pub record Closed (Q : Transport → Type 0) : Type 0 where
  pub free :
      (p : Array ℕ) (k : ℕ) (f : Bool) (s : Stats) (t : Transport)
      → Q t
      → Q (record t { parser = p; parser_len = k; fault_pending = f; stats = s })
  pub pushed :
      (f : Frame) (t : Transport)
      → Q t
      → distance8 t.command_head t.command_tail < command_capacity
      → Q (push_command f t)

module _ (Q : Transport → Type 0) (closed : Closed Q) where
  if_rule : (b : Bool) (x y : Transport) → Q x → Q y → Q (if b then x else y)
  if_rule true x y c d = c
  if_rule false x y c d = d

  -- The fault and the counters.
  pub count_rule :
      (f : Bool) (s : Stats) (t : Transport) → Q t → Q (record t { fault_pending = f; stats = s })
  count_rule f s t h = closed.free t.parser t.parser_len f s t h

  parser_rule :
      (p : Array ℕ) (k : ℕ) (t : Transport) → Q t → Q (record t { parser = p; parser_len = k })
  parser_rule p k t h = closed.free p k t.fault_pending t.stats t h

  enqueue_rule : (f : Frame) (t : Transport) → Q t → Q (enqueue_command f t)
  unfolding enqueue_command refuse_frame overflow_commands latch_fault
  enqueue_rule f t h =
      elim (Bool-cases (leb command_capacity (distance8 t.command_head t.command_tail))) [
        | inl full ↦ rw full (
            if_rule (not (type_is_command f.type) || not (frame_payload_valid f)) _ _
              (count_rule true _ t h) (count_rule true _ t h))
        | inr room ↦ rw room (
            if_rule (not (type_is_command f.type) || not (frame_payload_valid f)) _ _
              (count_rule true _ t h) (closed.pushed f t h (ground arith)))
      ]

  error_rule : (r : DecodeResult) (t : Transport) → Q t → Q (note_decode_error r t)
  unfolding note_decode_error latch_fault
  error_rule r t h = count_rule true _ t h

  reset_rule : (t : Transport) → Q t → Q (record t { parser_len = 0 })
  reset_rule t h = parser_rule t.parser 0 t h

  handle_rule : (r : DecodeResult) (t : Transport) → Q t → Q (handle_result r t)
  unfolding handle_result
  handle_rule (ok f) t h = reset_rule _ (enqueue_rule f t h)
  handle_rule too_short t h = reset_rule _ (error_rule too_short t h)
  handle_rule bad_magic t h = reset_rule _ (error_rule bad_magic t h)
  handle_rule bad_version t h = reset_rule _ (error_rule bad_version t h)
  handle_rule bad_length t h = reset_rule _ (error_rule bad_length t h)
  handle_rule bad_crc t h = reset_rule _ (error_rule bad_crc t h)

  after_store_rule : (t : Transport) → Q t → Q (after_store t)
  unfolding after_store
  after_store_rule t h =
      let n = t.parser 3 + t.parser 4 * 256 in
      if_rule _ _ _ (reset_rule _ (error_rule bad_version t h)) (
        if_rule _ _ _ h (
          if_rule _ _ _ (reset_rule _ (error_rule bad_length t h))
            (if_rule _ _ _ h (handle_rule (decode_frame (prefix t.parser (7 + n))) t h))))

  reset_full_rule : (t : Transport) → Q t → Q (reset_full t)
  unfolding reset_full latch_fault
  reset_full_rule t h = if_rule _ _ t (closed.free t.parser 0 true _ t h) h

  store_byte_rule : (b : ℕ) (t : Transport) → Q t → Q (store_byte b t)
  unfolding store_byte
  store_byte_rule b t h = parser_rule (update t.parser t.parser_len b) (u8 (t.parser_len + 1)) t h

  pub accept_rule : (b : ℕ) (t : Transport) → Q t → Q (accept_byte b t)
  unfolding accept_byte
  accept_rule b t h =
      if_rule (t.parser_len == 0 && not (b == magic)) _ _ (error_rule bad_magic t h)
        (after_store_rule _ (store_byte_rule b _ (reset_full_rule t h)))

module _ (Q : Transport → Type 0) (closed : Closed Q)
    (moved : (t : Transport)
      → Q t
      → t.rx_tail ≢ t.rx_head
      → Q (record t { rx_tail = u16 (t.rx_tail + 1) })) where
  poll_loop_rule : (n : ℕ) (t : Transport) → Q t → Q (poll_loop n t)
  unfolding poll_loop poll_byte
  poll_loop_rule zero t h = h
  poll_loop_rule (suc n) t h = elim (Bool-cases (t.rx_tail == t.rx_head)) [
    | inl e ↦ rw (e, poll_loop) h
    | inr e ↦
        rw (e, poll_loop)
          (poll_loop_rule n _
            (accept_rule Q closed _ _ (moved t h (λ same. absurd (ground arith)))))
  ]

  -- The loop also moves the read counter of a ring that is not empty.
  pub poll_rule : (t : Transport) → Q t → Q (poll t)
  unfolding poll
  poll_rule t h = poll_loop_rule _ t h
