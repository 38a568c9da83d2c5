-- ===== src/Transport/Send.antt =====
-- The transmit ring of pico/src/uart_transport.c: encoded frames on their way to the UART.
use pico_keyboard_rt_recorde.Base.{
  ℕ, ◌+◌, ◌%◌, Bool, true, false, Option, none, some, List, [], ◌∷◌, ltb, ◌==◌, if◌then◌else◌,
  update, u16, u32, length,
}
use pico_keyboard_rt_recorde.Protocol.Codec.{Bytes, encode_frame}
use pico_keyboard_rt_recorde.Transport.{Transport, parser_capacity, tx_ring_capacity, distance16}

-- The copying loop; the list is `encoded[i..length)`.
unfoldable pub store_tx : List ℕ → Transport → Transport
store_tx [] t = t
store_tx (b ∷ bs) t = store_tx bs (record t {
  tx_bytes = update t.tx_bytes (t.tx_head % tx_ring_capacity) b;
  tx_head = u16 (t.tx_head + 1);
})

unfoldable pub drop_tx : Transport → Transport
drop_tx t = record t { stats = record t.stats { tx_dropped = u32 (t.stats.tx_dropped + 1) } }

-- What `queue_frame` does with the encoder's result.
unfoldable pub queue_encoded : Option (List ℕ) → Transport → Bool × Transport
unfolding store_tx drop_tx
queue_encoded none t = (false, drop_tx t)
queue_encoded (some encoded) t =
    if ltb tx_ring_capacity (distance16 t.tx_head t.tx_tail + length encoded)
    then (false, drop_tx t)
    else (true, store_tx encoded t)

unfoldable pub queue_frame : ℕ → Bytes → ℕ → Transport → Bool × Transport
unfolding queue_encoded
queue_frame type payload payload_len t =
    queue_encoded (encode_frame type payload payload_len parser_capacity) t

-- `none` is the return value false.
unfoldable pub pop_tx_byte : Transport → Option ℕ × Transport
pop_tx_byte t = if t.tx_tail == t.tx_head then (none, t) else (
  some (t.tx_bytes (t.tx_tail % tx_ring_capacity)),
  record t { tx_tail = u16 (t.tx_tail + 1) },
)
