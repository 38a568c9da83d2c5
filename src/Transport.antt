-- ===== src/Transport.antt =====
-- pico/include/uart_transport.h and the parts of pico/src/uart_transport.c that all its functions
-- share: the state, its initial value, the fault latch and the error counters. The rings are indexed by
-- free-running counters: 16-bit ones for bytes, 8-bit ones for commands.
pub mod Commands
pub mod Send
pub mod Receive
pub mod TxRing
pub mod CommandRing
pub mod ParseSteps
pub mod Parse
pub mod Drain
pub mod Resync
pub mod Closed
pub mod Valid
pub mod ValidRings
use pico_keyboard_rt_recorde.Base.{
  ℕ, ◌+◌, ◌-◌, ◌^◌, Bool, true, false, List, [], Array, u8, u16, u32, if◌then◌else◌,
}
use pico_keyboard_rt_recorde.Protocol.{Frame}
use pico_keyboard_rt_recorde.Protocol.Codec.{
  DecodeResult, ok, too_short, bad_magic, bad_version, bad_length, bad_crc,
}

abbrev pub rx_ring_capacity : ℕ
rx_ring_capacity = 512

abbrev pub command_capacity : ℕ
command_capacity = 8

abbrev pub tx_ring_capacity : ℕ
tx_ring_capacity = 2048

abbrev pub parser_capacity : ℕ
parser_capacity = 71

-- `pico_uart_transport_stats_t`; every counter is a uint32_t.
pub record Stats : Type 0 where
  pub rx_overflow : ℕ
  pub hardware_errors : ℕ
  pub invalid_frames : ℕ
  pub bad_magics : ℕ
  pub bad_versions : ℕ
  pub bad_lengths : ℕ
  pub bad_crcs : ℕ
  pub unknown_type : ℕ
  pub command_overflow : ℕ
  pub tx_dropped : ℕ

-- `pico_uart_transport_t`
pub record Transport : Type 0 where
  pub rx_bytes : Array ℕ
  pub rx_head : ℕ
  pub rx_tail : ℕ
  pub commands : Array Frame
  pub command_head : ℕ
  pub command_tail : ℕ
  pub tx_bytes : Array ℕ
  pub tx_head : ℕ
  pub tx_tail : ℕ
  pub parser : Array ℕ
  pub parser_len : ℕ
  pub fault_pending : Bool
  pub stats : Stats

-- Distance between two counters of a ring, as the code takes it: modulo the counters' width.
abbrev pub distance16 : ℕ → ℕ → ℕ
distance16 head tail = u16 (head + 2 ^ 16 - tail)

abbrev pub distance8 : ℕ → ℕ → ℕ
distance8 head tail = u8 (head + 2 ^ 8 - tail)

-- `memset` to zero.
abbrev pub zero_stats : Stats
zero_stats = record {
  rx_overflow = 0;
  hardware_errors = 0;
  invalid_frames = 0;
  bad_magics = 0;
  bad_versions = 0;
  bad_lengths = 0;
  bad_crcs = 0;
  unknown_type = 0;
  command_overflow = 0;
  tx_dropped = 0;
}

abbrev pub zero_frame : Frame
zero_frame = record { version = 0; type = 0; payload_len = 0; payload = [] }

abbrev pub init : Transport
init = record {
  rx_bytes = λ _. 0;
  rx_head = 0;
  rx_tail = 0;
  commands = λ _. zero_frame;
  command_head = 0;
  command_tail = 0;
  tx_bytes = λ _. 0;
  tx_head = 0;
  tx_tail = 0;
  parser = λ _. 0;
  parser_len = 0;
  fault_pending = false;
  stats = zero_stats;
}

unfoldable pub latch_fault : Transport → Transport
latch_fault t = record t { fault_pending = true }

-- The counter that `switch (result)` of `note_decode_error` raises.
unfoldable pub count_error : DecodeResult → Stats → Stats
count_error bad_magic s = record s { bad_magics = u32 (s.bad_magics + 1) }
count_error bad_version s = record s { bad_versions = u32 (s.bad_versions + 1) }
count_error bad_length s = record s { bad_lengths = u32 (s.bad_lengths + 1) }
count_error bad_crc s = record s { bad_crcs = u32 (s.bad_crcs + 1) }
count_error too_short s = s
count_error (ok _) s = s

unfoldable pub note_decode_error : DecodeResult → Transport → Transport
unfolding latch_fault count_error
note_decode_error result t =
    let s = record t.stats { invalid_frames = u32 (t.stats.invalid_frames + 1) } in
    latch_fault (record t { stats = count_error result s })

unfoldable pub take_fault : Transport → Bool × Transport
take_fault t = (t.fault_pending, record t { fault_pending = false })

unfoldable pub get_stats : Transport → Stats
get_stats t = t.stats
