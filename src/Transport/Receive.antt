-- ===== src/Transport/Receive.antt =====
-- The receive side of pico/src/uart_transport.c: the two functions that run in the UART interrupt, and
-- the parser that runs in the main loop.
use pico_keyboard_rt_recorde.Base.{
  ℕ, zero, suc, ◌+◌, ◌*◌, ◌%◌, ◌&&◌, not, true, false, ltb, leb, ◌==◌, if◌then◌else◌, prefix,
  update, u8, u16, u32,
}
use pico_keyboard_rt_recorde.Protocol.{magic, protocol_version, max_payload, header_len}
use pico_keyboard_rt_recorde.Protocol.Codec.{
  DecodeResult, ok, bad_magic, bad_version, bad_length, decode_frame,
}
use pico_keyboard_rt_recorde.Transport.{
  Transport, rx_ring_capacity, parser_capacity, distance16, latch_fault, note_decode_error,
}
use pico_keyboard_rt_recorde.Transport.Commands.{enqueue_command}

unfoldable pub rx_push_isr : ℕ → Transport → Transport
unfolding latch_fault
rx_push_isr byte t =
    if leb rx_ring_capacity (distance16 t.rx_head t.rx_tail)
    then latch_fault
        (record t { stats = record t.stats { rx_overflow = u32 (t.stats.rx_overflow + 1) } })
    else record t {
      rx_bytes = update t.rx_bytes (t.rx_head % rx_ring_capacity) byte;
      rx_head = u16 (t.rx_head + 1);
    }

unfoldable pub hardware_error_isr : Transport → Transport
unfolding latch_fault
hardware_error_isr t =
    latch_fault
      (record t { stats = record t.stats { hardware_errors = u32 (t.stats.hardware_errors + 1) } })

-- The parser holds a whole frame.
unfoldable pub handle_result : DecodeResult → Transport → Transport
unfolding note_decode_error enqueue_command
handle_result (ok frame) t = record (enqueue_command frame t) { parser_len = 0 }
handle_result result t = record (note_decode_error result t) { parser_len = 0 }

-- The tests after a byte was stored.
unfoldable pub after_store : Transport → Transport
unfolding handle_result note_decode_error
after_store t =
    let payload_len = t.parser 3 + t.parser 4 * 256 in
    if t.parser_len == 2 && not (t.parser 1 == protocol_version)
    then record (note_decode_error bad_version t) { parser_len = 0 }
    else if ltb t.parser_len header_len
    then t
    else if ltb max_payload payload_len
    then record (note_decode_error bad_length t) { parser_len = 0 }
    else if ltb t.parser_len (7 + payload_len)
    then t
    else handle_result (decode_frame (prefix t.parser (7 + payload_len))) t

-- The guard that a full parser buffer starts over.
unfoldable pub reset_full : Transport → Transport
unfolding latch_fault
reset_full t =
    if leb parser_capacity t.parser_len
    then record (latch_fault (record t {
      stats = record t.stats {
        invalid_frames = u32 (t.stats.invalid_frames + 1);
        bad_lengths = u32 (t.stats.bad_lengths + 1);
      };
    })) { parser_len = 0 }
    else t

unfoldable pub store_byte : ℕ → Transport → Transport
store_byte byte t = record t {
  parser = update t.parser t.parser_len byte;
  parser_len = u8 (t.parser_len + 1);
}

-- The loop's body, once the byte was read.
unfoldable pub accept_byte : ℕ → Transport → Transport
unfolding note_decode_error reset_full store_byte after_store
accept_byte byte t =
    if t.parser_len == 0 && not (byte == magic)
    then note_decode_error bad_magic t
    else after_store (store_byte byte (reset_full t))

-- One turn of the loop of `poll`.
unfoldable pub poll_byte : Transport → Transport
unfolding accept_byte
poll_byte t =
    let byte = t.rx_bytes (t.rx_tail % rx_ring_capacity) in
    accept_byte byte (record t { rx_tail = u16 (t.rx_tail + 1) })

-- The loop on fuel.
unfoldable pub poll_loop : ℕ → Transport → Transport
unfolding poll_byte
poll_loop zero t = t
poll_loop (suc n) t = elim (t.rx_tail == t.rx_head) [ true ↦ t | false ↦ poll_loop n (poll_byte t) ]

-- The pending bytes are counted by the distance of the two counters.
unfoldable pub poll : Transport → Transport
unfolding poll_loop
poll t = poll_loop (distance16 t.rx_head t.rx_tail) t
