-- ===== src/Scheduler/Samples/Sort.antt =====
-- `sort_samples` as a whole, and what the percentiles that are read from its result mean.
use mathlib.Core.List.{Perm}
use mathlib.Core.List.Perm
use pico_keyboard_rt_recorde.Base.{
  ℕ, zero, suc, ◌+◌, ◌-◌, ◌*◌, ◌≤◌, ◌<◌, ◌≡◌, refl, ◌∙◌, Array, prefix, ℤ, ◌≤ℤ◌, arith, [], ◌∷◌,
}
use pico_keyboard_rt_recorde.Scheduler.{max_samples}
use pico_keyboard_rt_recorde.Scheduler.Samples.{sink, sort_rounds, sort_samples, rank, percentile}
use pico_keyboard_rt_recorde.Scheduler.Samples.Sorted.{
  IsSortedTo, sink_sorts, sink_above, sink-perm, prefix-suc,
}

-- Entries that agree from `k` on extend a permutation of the first `k`.
prefix-perm_extend :
    {A : Type 0} (a b : Array A) (k d : ℕ)
    → ((m : ℕ) → k ≤ m → b m ≡ a m)
    → Perm (prefix b k) (prefix a k)
    → Perm (prefix b (d + k)) (prefix a (d + k))
prefix-perm_extend a b k zero h p = let e : 0 + k ≡ k = omega arith in rw e p
prefix-perm_extend a b k (suc d) h p =
    let e : suc d + k ≡ suc (d + k) = omega arith in
    rw (e, prefix-suc b (d + k), prefix-suc a (d + k), h (d + k) (omega arith))
      (Perm.append_right (a (d + k) ∷ []) (prefix-perm_extend a b k d h p))

-- What the outer loop has done when it stops.
record Sorts (n : ℕ) (a b : Array ℤ) : Type 0 where
  sorted : IsSortedTo b n
  perm : Perm (prefix b n) (prefix a n)
  above : (m : ℕ) → n ≤ m → b m ≡ a m

sort_rounds-Sorts :
    (n i m : ℕ) (a : Array ℤ) → n + i ≡ m → IsSortedTo a i → Sorts m a (sort_rounds n i a)
unfolding sort_rounds
sort_rounds-Sorts zero i m a e s =
    let e' : i ≡ m = omega arith in
    rw (← e') (record { sorted = s; perm = Perm.refl (prefix a i); above = λ k h. refl })
sort_rounds-Sorts (suc n) i m a e s =
    let b = sink (a i) i a in
    let e' : n + suc i ≡ m = omega arith in
    let next : i + 1 ≡ suc i = omega arith in
    let kept : (k : ℕ) → suc i ≤ k → b k ≡ a k = λ k h. sink_above (a i) i a k h in
    let one : Perm (prefix b (suc i)) (prefix a (suc i)) =
      rw (prefix-suc a i) (sink-perm (a i) i a) in
    let all = prefix-perm_extend a b (suc i) n kept one in
    rw next (
      let rest = sort_rounds-Sorts n (suc i) m b e' (sink_sorts (a i) i a s) in
      record {
        sorted = rest.sorted;
        perm = Perm.trans rest.perm (rw e' at all);
        above = λ k h. rest.above k h ∙ kept k (omega arith);
      })

-- One entry is in order.
one_sorted : (a : Array ℤ) → IsSortedTo a 1
one_sorted a i j p q =
    let e : i ≡ 0 = omega arith in let f : j ≡ 0 = omega arith in rw (e, f) (omega arith)

-- `sort_samples` puts the first `count` entries in ascending order; they are the entries that were there,
-- each as often as before, and nothing behind them is touched.
pub sort_samples_lem :
    (a : Array ℤ) (count : ℕ)
    → let b = sort_samples a count in
      IsSortedTo b count
      × Perm (prefix b count) (prefix a count)
      × ((m : ℕ) → count ≤ m → b m ≡ a m)
unfolding sort_samples sort_rounds
sort_samples_lem a zero = (λ i j p q. absurd (omega arith), Perm.refl (prefix a 0), λ m h. refl)
sort_samples_lem a (suc n) =
    let e : suc n - 1 ≡ n = omega arith in
    rw e (
      let s = sort_rounds-Sorts n 1 (suc n) a (omega arith) (one_sorted a) in
      (s.sorted, s.perm, s.above))

times_le : (p count : ℕ) → 1 ≤ p → p ≤ 100 → (count ≤ p * count) × (p * count ≤ 100 * count)
times_le p count h k = (grind arith, grind arith)

-- The rank is ceil(p * count / 100), and lies in the log.
rank_bounds :
    (count p : ℕ)
    → 0 < count
    → count ≤ max_samples
    → 1 ≤ p
    → p ≤ 100
    → let r = rank count p in
      (1 ≤ r) × (r ≤ count) × (p * count ≤ r * 100) × (r * 100 < p * count + 100)
unfolding rank
rank_bounds count p h m lo hi = ground (arith, times_le p count lo hi)

-- The percentile of the sorted log is the sample of the nearest rank: with r = ceil(p * count / 100) at
-- least r samples are at most that value, and the samples from rank r on are at least that value.
pub percentile_nearest_rank :
    (a : Array ℤ) (count p : ℕ)
    → 0 < count
    → count ≤ max_samples
    → 1 ≤ p
    → p ≤ 100
    → let b = sort_samples a count in
      let v = percentile b count p in
      (r : ℕ) × (1 ≤ r)
      × (r ≤ count)
      × (p * count ≤ r * 100)
      × (r * 100 < p * count + 100)
      × (v ≡ b (r - 1))
      × ((k : ℕ) → k < r → b k ≤ℤ v)
      × ((k : ℕ) → r ≤ k + 1 → k < count → v ≤ℤ b k)
unfolding percentile
percentile_nearest_rank a count p h m lo hi =
    let (one, within, low, high) = rank_bounds count p h m lo hi in
    let r = rank count p in
    let b = sort_samples a count in
    let sorted = (sort_samples_lem a count).0 in
    let e : percentile b count p ≡ b (r - 1) = ground arith in
    (
      r,
      one,
      within,
      low,
      high,
      e,
      λ k lt. rw e (sorted k (r - 1) (omega arith) (omega arith)),
      λ k le lt. rw e (sorted (r - 1) k (omega arith) lt),
    )
