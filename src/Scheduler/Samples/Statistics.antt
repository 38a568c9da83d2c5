-- ===== src/Scheduler/Samples/Statistics.antt =====
-- The running statistics of pico/src/playback_scheduler.c against the list of the latenesses of a run.
use mathlib.Core.Path.{subst}
use mathlib.Core.List.{Perm}
use pico_keyboard_rt_recorde.Base.{
  ℕ, suc, ◌+◌, ◌-◌, ◌^◌, ◌≤◌, ◌<◌, ◌≡◌, refl, sym, ap, ap₂, ◌∙◌, ◌⊎◌, inl, inr, Bool, true, false,
  List, [], ◌∷◌, ◌++◌, length, take, ltb, ◌==◌, if◌then◌else◌, Array, update, update_self, prefix,
  prefix-update, ℤ, ltb_ℤ, ◌+ℤ◌, arith, length-append, dec_lt,
}
use mathlib.Core.List.{append_assoc, append-nil}
use pico_keyboard_rt_recorde.Scheduler.{Scheduler, Metrics, max_samples}
use pico_keyboard_rt_recorde.Scheduler.Samples.{
  record_lateness, add_lateness, log_sample, sort_samples, percentile,
}
use pico_keyboard_rt_recorde.Scheduler.Samples.Extremes.{
  sum, IsLeast, IsGreatest, sum-snoc, IsLeast-snoc, IsGreatest-snoc, take-snoc_of_lt,
  take-snoc_of_le,
}
use pico_keyboard_rt_recorde.Scheduler.Samples.Sorted.{IsSortedTo}
use pico_keyboard_rt_recorde.Scheduler.Samples.Sort.{sort_samples_lem}
use pico_keyboard_rt_recorde.Scheduler.Run.{fresh_run, ended, metrics}

-- The dispatches of a run, one lateness each.
unfoldable pub record_all : List ℤ → Scheduler → Scheduler
record_all [] s = s
record_all (late ∷ rest) s = record_all rest (record_lateness late s)

-- The number of samples and the flag, by the length of the list.
abbrev pub clipped : ℕ → ℕ
clipped n = if ltb n max_samples then n else max_samples

-- What the scheduler knows of the latenesses so far.
record IsLogged (done : List ℤ) (s : Scheduler) : Type 0 where
  counted : s.dispatched_count ≡ length done
  summed : s.sum_lateness_us ≡ sum done
  least : (done ≡ []) ⊎ IsLeast s.min_lateness_us done
  greatest : (done ≡ []) ⊎ IsGreatest s.max_lateness_us done
  sampled : prefix s.lateness_samples s.sample_count ≡ take max_samples done
  size : s.sample_count ≡ clipped (length done)
  cut : s.samples_truncated ≡ ltb max_samples (length done)

prefix-update_next :
    (a : Array ℤ) (n : ℕ) (x : ℤ) → prefix (update a n x) (suc n) ≡ prefix a n ++ x ∷ []
unfolding prefix
prefix-update_next a n x = ap₂ (λ l y. l ++ y ∷ []) (prefix-update a n x) (update_self a n x)

add_lateness-fields :
    (late : ℤ) (done : List ℤ) (s : Scheduler)
    → IsLogged done s
    → length done < 2 ^ 32 - 1
    → let s' = add_lateness late s in
      (s'.dispatched_count ≡ length (done ++ late ∷ []))
      × (s'.sum_lateness_us ≡ sum (done ++ late ∷ []))
      × IsLeast s'.min_lateness_us (done ++ late ∷ [])
      × IsGreatest s'.max_lateness_us (done ++ late ∷ [])
unfolding add_lateness
add_lateness-fields late [] s h few =
    let first : s.dispatched_count ≡ 0 = h.counted in
    rw first (
      refl,
      ap (λ t. t +ℤ late) h.summed ∙ sym (sum-snoc [] late),
      (inl refl, (omega arith, tt)),
      (inl refl, (omega arith, tt)),
    )
add_lateness-fields late (x ∷ xs) s h few =
    let later : (s.dispatched_count == 0) ≡ false = ground (arith, h.counted) in
    let min = if ltb_ℤ late s.min_lateness_us then late else s.min_lateness_us in
    let max = if ltb_ℤ s.max_lateness_us late then late else s.max_lateness_us in
    (
      omega (arith, h.counted, few, length-append (x ∷ xs) (late ∷ [])),
      ap (λ t. t +ℤ late) h.summed ∙ sym (sum-snoc (x ∷ xs) late),
      subst (λ m. IsLeast m (x ∷ xs ++ late ∷ [])) (sym (ap (λ b. if b then late else min) later))
          (elim h.least [
            | inl e ↦ absurd (omega (arith, ap length e))
            | inr g ↦ IsLeast-snoc s.min_lateness_us late (x ∷ xs) g
          ]),
      subst (λ m. IsGreatest m (x ∷ xs ++ late ∷ []))
          (sym (ap (λ b. if b then late else max) later))
          (elim h.greatest [
            | inl e ↦ absurd (omega (arith, ap length e))
            | inr g ↦ IsGreatest-snoc s.max_lateness_us late (x ∷ xs) g
          ]),
    )

room_left :
    (c n l : ℕ) (b : Bool)
    → c ≡ clipped n
    → b ≡ ltb max_samples n
    → l ≡ n + 1
    → n < max_samples
    → (ltb c max_samples ≡ true) × (c + 1 ≡ clipped l) × (b ≡ ltb max_samples l)
room_left c n l b p q r lt = ground arith

no_room_left :
    (c n l : ℕ)
    → c ≡ clipped n
    → l ≡ n + 1
    → max_samples ≤ n
    → (ltb c max_samples ≡ false) × (c ≡ clipped l) × (true ≡ ltb max_samples l)
no_room_left c n l p r le = ground arith

record_lateness-IsLogged :
    (late : ℤ) (done : List ℤ) (s : Scheduler)
    → IsLogged done s
    → length done < 2 ^ 32 - 1
    → IsLogged (done ++ late ∷ []) (record_lateness late s)
unfolding record_lateness log_sample add_lateness
record_lateness-IsLogged late done s h few =
    let (counted, summed, least, greatest) = add_lateness-fields late done s h few in
    let longer = length-append done (late ∷ []) in
    elim (dec_lt (length done) max_samples) [
      | yes p ↦
          let (room, size, cut) =
            room_left s.sample_count (length done) _ s.samples_truncated h.size h.cut longer p in
          rw room (record {
            counted = counted;
            summed = summed;
            least = inr least;
            greatest = inr greatest;
            sampled =
                ap (prefix (update s.lateness_samples s.sample_count late)) (omega arith)
                ∙ prefix-update_next s.lateness_samples s.sample_count late
                ∙ ap (λ l. l ++ late ∷ []) h.sampled
                ∙ sym (take-snoc_of_lt max_samples done late p);
            size = size;
            cut = cut;
          })
      | no p ↦
          let (full, size, cut) =
            no_room_left s.sample_count (length done) _ h.size longer (omega arith) in
          rw full (record {
            counted = counted;
            summed = summed;
            least = inr least;
            greatest = inr greatest;
            sampled = h.sampled ∙ sym (take-snoc_of_le max_samples done late (omega arith));
            size = size;
            cut = cut;
          })
    ]

record_all-IsLogged :
    (ls done : List ℤ) (s : Scheduler)
    → IsLogged done s
    → length done + length ls < 2 ^ 32
    → IsLogged (done ++ ls) (record_all ls s)
unfolding record_all
record_all-IsLogged [] done s h few = rw append-nil h
record_all-IsLogged (x ∷ ls) done s h few =
    let one = record_lateness-IsLogged x done s h (omega (arith, few)) in
    let longer = length-append done (x ∷ []) in
    subst (λ l. IsLogged l (record_all ls (record_lateness x s))) (append_assoc done (x ∷ []) ls)
      (record_all-IsLogged ls (done ++ x ∷ []) (record_lateness x s) one
        (omega (arith, few, longer)))

fresh_run-IsLogged : (start_us : ℕ) (s : Scheduler) → IsLogged [] (fresh_run start_us s)
unfolding fresh_run prefix
fresh_run-IsLogged start_us s = record {
  counted = refl;
  summed = refl;
  least = inl refl;
  greatest = inl refl;
  sampled = refl;
  size = refl;
  cut = refl;
}

-- The metrics that describe the latenesses `ls`.
pub record Describes (ls : List ℤ) (m : Metrics) : Type 0 where
  pub counted : m.dispatched_count ≡ length ls
  pub least : IsLeast m.min_lateness_us ls
  pub greatest : IsGreatest m.max_lateness_us ls
  pub summed : m.sum_lateness_us ≡ sum ls
  pub cut : m.samples_truncated ≡ ltb max_samples (length ls)
  pub sorted : Array ℤ
  pub ascending : IsSortedTo sorted (clipped (length ls))
  pub same_samples : Perm (prefix sorted (clipped (length ls))) (take max_samples ls)
  pub p95 : m.p95_lateness_us ≡ percentile sorted (clipped (length ls)) 95
  pub p99 : m.p99_lateness_us ≡ percentile sorted (clipped (length ls)) 99

-- The metrics of a run whose dispatches have recorded a list of latenesses, one after the other, describe
-- that list: its length, its least and its greatest value, its sum, and whether it is longer than 2048; the
-- two percentiles are taken from an ascending arrangement of its first 2048. The list is not empty and
-- shorter than 2^32.
pub metrics_describe :
    (start_us : ℕ) (x : ℤ) (ls : List ℤ) (s : Scheduler)
    → length (x ∷ ls) < 2 ^ 32
    → Describes (x ∷ ls) (metrics (ended (record_all (x ∷ ls) (fresh_run start_us s))))
unfolding metrics ended
metrics_describe start_us x ls s few =
    let r = record_all (x ∷ ls) (fresh_run start_us s) in
    let h =
      record_all-IsLogged (x ∷ ls) [] (fresh_run start_us s) (fresh_run-IsLogged start_us s)
        (omega (arith, few)) in
    let (ascending, same, _) = sort_samples_lem r.lateness_samples r.sample_count in
    let b = sort_samples r.lateness_samples r.sample_count in
    record {
      counted = h.counted;
      least = elim h.least [ inl e ↦ absurd (omega (arith, ap length e)) | inr g ↦ g ];
      greatest = elim h.greatest [ inl e ↦ absurd (omega (arith, ap length e)) | inr g ↦ g ];
      summed = h.summed;
      cut = h.cut;
      sorted = b;
      ascending = subst (IsSortedTo b) h.size ascending;
      same_samples =
          subst (λ l. Perm (prefix b (clipped (length (x ∷ ls)))) l) h.sampled
            (subst (λ n. Perm (prefix b n) (prefix r.lateness_samples r.sample_count)) h.size same);
      p95 = ap (λ n. percentile b n 95) h.size;
      p99 = ap (λ n. percentile b n 99) h.size;
    }
