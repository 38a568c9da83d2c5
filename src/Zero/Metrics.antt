-- ===== src/Zero/Metrics.antt =====
-- `validate_play_metrics` of zero/app/uart_protocol.py, and what it reads out of the PLAY_METRICS that
-- `playback_complete` of pico/src/main.c sends.
use pico_keyboard_rt_recorde.Base.{
  ℕ, ◌-◌, ◌^◌, ◌<◌, ◌≡◌, refl, ap, ◌∙◌, not, Bool, true, false, List, ◌++◌, length, get_or, drop,
  ltb, leb, ◌==◌, if◌then◌else◌, ℤ, pos, negsuc, signed64, unsigned32, unsigned64, arith,
}
use pico_keyboard_rt_recorde.Scheduler.{Metrics}
use pico_keyboard_rt_recorde.Firmware.{metrics_payload}
use pico_keyboard_rt_recorde.Firmware.Words.{le_bytes, read_le}
use pico_keyboard_rt_recorde.Zero.{
  play_metrics, Message, unexpected_type, payload_length, invalid_flag, Attempt, returned, raised,
}

pub record PlayMetrics : Type 0 where
  pub dispatched_count : ℕ
  pub underrun_count : ℕ
  pub min_lateness_us : ℤ
  pub max_lateness_us : ℤ
  pub sum_lateness_us : ℤ
  pub p95_lateness_us : ℤ
  pub p99_lateness_us : ℤ
  pub samples_truncated : Bool

-- A four-byte word as a signed number.
abbrev pub signed32 : ℕ → ℤ
signed32 w = if ltb w (2 ^ 31) then pos w else negsuc (2 ^ 32 - w - 1)

-- `struct.unpack("<IIiiqiiB", …)` without the last byte.
unfoldable pub unpacked : List ℕ → Bool → PlayMetrics
unpacked payload samples_truncated = record {
  dispatched_count = read_le 4 payload;
  underrun_count = read_le 4 (drop 4 payload);
  min_lateness_us = signed32 (read_le 4 (drop 8 payload));
  max_lateness_us = signed32 (read_le 4 (drop 12 payload));
  sum_lateness_us = signed64 (read_le 8 (drop 16 payload));
  p95_lateness_us = signed32 (read_le 4 (drop 24 payload));
  p99_lateness_us = signed32 (read_le 4 (drop 28 payload));
  samples_truncated = samples_truncated;
}

unfoldable pub validate_play_metrics : Message → Attempt PlayMetrics
unfolding unpacked
validate_play_metrics frame =
    let flag = get_or frame.payload 32 0 in
    if not (frame.message_type == play_metrics)
    then raised unexpected_type
    else if not (length frame.payload == 33)
    then raised payload_length
    else if not (leb flag 1)
    then raised invalid_flag
    else returned (unpacked frame.payload (not (flag == 0)))

-- An int32_t, and an int64_t.
abbrev pub Int32 : ℤ → Type 0
Int32 (pos n) = n < 2 ^ 31
Int32 (negsuc n) = n < 2 ^ 31

abbrev pub Int64 : ℤ → Type 0
Int64 (pos n) = n < 2 ^ 63
Int64 (negsuc n) = n < 2 ^ 63

-- The fields have the widths of the C structure.
pub record IsSized (m : Metrics) : Type 0 where
  pub dispatched : m.dispatched_count < 2 ^ 32
  pub underruns : m.underrun_count < 2 ^ 32
  pub least : Int32 m.min_lateness_us
  pub greatest : Int32 m.max_lateness_us
  pub sum : Int64 m.sum_lateness_us
  pub p95 : Int32 m.p95_lateness_us
  pub p99 : Int32 m.p99_lateness_us

word32 : (v : ℕ) (rest : List ℕ) → v < 2 ^ 32 → read_le 4 (le_bytes 4 v ++ rest) ≡ v
unfolding read_le le_bytes
word32 v rest h = omega arith

word64 : (v : ℕ) (rest : List ℕ) → v < 2 ^ 64 → read_le 8 (le_bytes 8 v ++ rest) ≡ v
unfolding read_le le_bytes
word64 v rest h = omega arith

signed32-unsigned32 : (z : ℤ) → Int32 z → signed32 (unsigned32 z) ≡ z
signed32-unsigned32 (pos n) h = ground arith
signed32-unsigned32 (negsuc n) h = ground arith

signed64-unsigned64 : (z : ℤ) → Int64 z → signed64 (unsigned64 z) ≡ z
signed64-unsigned64 (pos n) h = ground arith
signed64-unsigned64 (negsuc n) h = ground arith

int32 :
    (z : ℤ) (rest : List ℕ) → Int32 z → signed32 (read_le 4 (le_bytes 4 (unsigned32 z) ++ rest)) ≡ z
int32 z rest h = ap signed32 (word32 (unsigned32 z) rest (below z)) ∙ signed32-unsigned32 z h
  where
    below : (z : ℤ) → unsigned32 z < 2 ^ 32
    below (pos n) = omega arith
    below (negsuc n) = omega arith

int64 :
    (z : ℤ) (rest : List ℕ) → Int64 z → signed64 (read_le 8 (le_bytes 8 (unsigned64 z) ++ rest)) ≡ z
int64 z rest h = ap signed64 (word64 (unsigned64 z) rest (below z)) ∙ signed64-unsigned64 z h
  where
    below : (z : ℤ) → unsigned64 z < 2 ^ 64
    below (pos n) = omega arith
    below (negsuc n) = omega arith

-- The same numbers, field by field.
abbrev pub as_read : Metrics → PlayMetrics
as_read m = record {
  dispatched_count = m.dispatched_count;
  underrun_count = m.underrun_count;
  min_lateness_us = m.min_lateness_us;
  max_lateness_us = m.max_lateness_us;
  sum_lateness_us = m.sum_lateness_us;
  p95_lateness_us = m.p95_lateness_us;
  p99_lateness_us = m.p99_lateness_us;
  samples_truncated = m.samples_truncated;
}

flag_read :
    (b : Bool) → let flag : ℕ = if b then 1 else 0 in (leb flag 1 ≡ true) × (not (flag == 0) ≡ b)
flag_read true = (refl, refl)
flag_read false = (refl, refl)

unpacked-metrics_payload :
    (m : Metrics) → IsSized m → unpacked (metrics_payload m) m.samples_truncated ≡ as_read m
unfolding unpacked metrics_payload le_bytes
unpacked-metrics_payload m h =
    let p = metrics_payload m in
    λ i. record {
      dispatched_count = word32 m.dispatched_count (drop 4 p) h.dispatched i;
      underrun_count = word32 m.underrun_count (drop 8 p) h.underruns i;
      min_lateness_us = int32 m.min_lateness_us (drop 12 p) h.least i;
      max_lateness_us = int32 m.max_lateness_us (drop 16 p) h.greatest i;
      sum_lateness_us = int64 m.sum_lateness_us (drop 24 p) h.sum i;
      p95_lateness_us = int32 m.p95_lateness_us (drop 28 p) h.p95 i;
      p99_lateness_us = int32 m.p99_lateness_us (drop 32 p) h.p99 i;
      samples_truncated = m.samples_truncated;
    }

-- The Zero reads out of PLAY_METRICS exactly the metrics that the Pico wrote into it, signed values
-- included. The metrics fit into the fields of the C structure.
pub validate-metrics_payload :
    (m : Metrics)
    → IsSized m
    → validate_play_metrics (record { message_type = play_metrics; payload = metrics_payload m })
      ≡ returned (as_read m)
unfolding validate_play_metrics metrics_payload le_bytes
validate-metrics_payload m h =
    let (small, same) = flag_read m.samples_truncated in
    rw small (ap (λ b. returned (unpacked (metrics_payload m) b)) same)
    ∙ ap returned (unpacked-metrics_payload m h)
