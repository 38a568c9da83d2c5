-- ===== src/Scheduler/Samples.antt =====
-- The lateness log of pico/src/playback_scheduler.c: recording, the insertion sort and the percentiles.
pub mod Sorted
pub mod Sort
pub mod Extremes
pub mod Statistics
use pico_keyboard_rt_recorde.Base.{
  ℕ, zero, suc, ◌+◌, ◌-◌, ◌*◌, ◌/◌, ltb, ◌==◌, if◌then◌else◌, Array, update, u32, Bool, true, ℤ,
  pos, ltb_ℤ, ◌+ℤ◌,
}
use pico_keyboard_rt_recorde.Scheduler.{Scheduler, max_samples}

-- The extremes and the sum; the first lateness of a run is both extremes.
unfoldable pub add_lateness : ℤ → Scheduler → Scheduler
add_lateness late s = record s {
  min_lateness_us =
      if s.dispatched_count == 0
      then late
      else if ltb_ℤ late s.min_lateness_us
      then late
      else s.min_lateness_us;
  max_lateness_us =
      if s.dispatched_count == 0
      then late
      else if ltb_ℤ s.max_lateness_us late
      then late
      else s.max_lateness_us;
  sum_lateness_us = s.sum_lateness_us +ℤ late;
  dispatched_count = u32 (s.dispatched_count + 1);
}

unfoldable pub log_sample : ℤ → Scheduler → Scheduler
log_sample late s =
    if ltb s.sample_count max_samples
    then record s {
      lateness_samples = update s.lateness_samples s.sample_count late;
      sample_count = s.sample_count + 1;
    }
    else record s { samples_truncated = true }

unfoldable pub record_lateness : ℤ → Scheduler → Scheduler
unfolding add_lateness log_sample
record_lateness late s = log_sample late (add_lateness late s)

-- The inner loop, from `j` down, and the store behind it.
unfoldable pub sink : ℤ → ℕ → Array ℤ → Array ℤ
sink key zero a = update a 0 key
sink key (suc j) a =
    let rest = sink key j (update a (suc j) (a j)) in
    if ltb_ℤ key (a j) then rest else update a (suc j) key

-- The outer loop, with `n` rounds left.
unfoldable pub sort_rounds : ℕ → ℕ → Array ℤ → Array ℤ
unfolding sink
sort_rounds zero i a = a
sort_rounds (suc n) i a = sort_rounds n (i + 1) (sink (a i) i a)

unfoldable pub sort_samples : Array ℤ → ℕ → Array ℤ
unfolding sort_rounds
sort_samples a count = sort_rounds (count - 1) 1 a

-- `rank` behind both clamps.
unfoldable pub rank : ℕ → ℕ → ℕ
rank count p =
    let r = u32 (u32 (p * count) + 99) / 100 in
    let r' = if ltb r 1 then 1 else r in if ltb count r' then count else r'

unfoldable pub percentile : Array ℤ → ℕ → ℕ → ℤ
unfolding rank
percentile sorted count p = if count == 0 then pos 0 else sorted (rank count p - 1)
