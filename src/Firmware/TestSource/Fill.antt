-- ===== src/Firmware/TestSource/Fill.antt =====
-- `fill_available_slots` of pico/src/playback_test_source.c keeps the synthetic events in their order.
use pico_keyboard_rt_recorde.Base.{
  ℕ, zero, suc, ◌+◌, ◌*◌, ◌-◌, ◌%◌, ◌^◌, ◌≤◌, ◌<◌, ◌≡◌, refl, sym, ap, ◌∙◌, ◌⊎◌, inl, inr, ◌&&◌,
  Bool, true, some, List, [], ◌∷◌, ◌++◌, ltb, length, arith, u64, Bool-cases,
}
use mathlib.Core.List.{append_assoc, append-nil}
use pico_keyboard_rt_recorde.Hid.{report_size, report_bytes}
use pico_keyboard_rt_recorde.PlaybackQueue.{
  Event, Queue, queue_capacity, IsValid, event_of, push-IsValid, free_capacity,
}
use pico_keyboard_rt_recorde.PlaybackQueue.Refine.{contents, length-contents, push_refines}
use pico_keyboard_rt_recorde.PlaybackQueue.Spec
use pico_keyboard_rt_recorde.Firmware.TestSource.{
  TestSource, total_events, interval_us, synthetic_report, push_synthetic_event, fill_loop,
  fill_available_slots,
}

-- Event number `i`: a key press if `i` is even and a release if it is odd, every 10 ms.
abbrev pub synthetic : ℕ → Event
synthetic i = event_of (i * interval_us) (some (report_bytes (synthetic_report i))) report_size

-- The events from number `i` on.
abbrev pub synthetics : ℕ → ℕ → List Event
synthetics i zero = []
synthetics i (suc n) = synthetic i ∷ synthetics (i + 1) n

-- How a refill from `(s, q)` to `(s', q')` ends.
pub record Filled (s : TestSource) (q : Queue) (s' : TestSource) (q' : Queue) : Type 0 where
  pub number : ℕ
  pub valid : IsValid q'
  pub counted : s'.pushed_count ≡ s.pushed_count + number
  pub appended : contents q' ≡ contents q ++ synthetics s.pushed_count number
  pub ended : (s'.pushed_count ≡ total_events) ⊎ (length (contents q') ≡ queue_capacity)
  pub staged : s' ≡ record s { pushed_count = s'.pushed_count }

-- One push into a queue with room.
push_synthetic_event_lem :
    (s : TestSource) (q : Queue)
    → IsValid q
    → s.pushed_count < total_events
    → length (contents q) < queue_capacity
    → let (s', q') = push_synthetic_event s.pushed_count (s, q) in
      IsValid q'
      × (s' ≡ record s { pushed_count = s.pushed_count + 1 })
      × (contents q' ≡ contents q ++ synthetic s.pushed_count ∷ [])
unfolding push_synthetic_event
push_synthetic_event_lem s q v lt room =
    let i = s.pushed_count in
    let exact : u64 (i * interval_us) ≡ i * interval_us = omega (arith, lt) in
    let next : (i + 1) % 2 ^ 32 ≡ i + 1 = omega (arith, lt) in
    let report = some (report_bytes (synthetic_report i)) in
    let t = u64 (i * interval_us) in
    let space : ltb (length (contents q)) queue_capacity ≡ true = ground arith in
    let both = ap (λ (r : Bool × List Event). r.1) (push_refines t report report_size v) in
    let last : (Spec.push t report report_size (contents q)).1
        ≡ contents q ++ event_of t report report_size ∷ [] =
      rw space refl in
    (
      push-IsValid t report report_size v,
      ap (λ k. record s { pushed_count = k }) next,
      both ∙ last ∙ ap (λ u. contents q ++ event_of u report report_size ∷ []) exact,
    )

room_left : (q : Queue) → IsValid q → free_capacity q ≡ queue_capacity - length (contents q)
unfolding free_capacity
room_left q v = ap (λ n. queue_capacity - n) (sym (length-contents q))

-- A refill that does nothing.
nothing-Filled :
    (s : TestSource) (q : Queue)
    → IsValid q
    → (s.pushed_count ≡ total_events) ⊎ (length (contents q) ≡ queue_capacity)
    → Filled s q s q
nothing-Filled s q v h = record {
  number = 0;
  valid = v;
  counted = omega arith;
  appended = sym (append-nil (contents q));
  ended = h;
  staged = refl;
}

-- One more event in front of a refill.
one-Filled :
    (s : TestSource) (q q₁ : Queue) (s' : TestSource) (q' : Queue)
    → contents q₁ ≡ contents q ++ synthetic s.pushed_count ∷ []
    → Filled (record s { pushed_count = s.pushed_count + 1 }) q₁ s' q'
    → Filled s q s' q'
one-Filled s q q₁ s' q' e f = record {
  number = suc f.number;
  valid = f.valid;
  counted = omega (arith, f.counted);
  appended =
      f.appended
      ∙ ap (λ l. l ++ synthetics (s.pushed_count + 1) f.number) e
      ∙ append_assoc (contents q) (synthetic s.pushed_count ∷ [])
          (synthetics (s.pushed_count + 1) f.number);
  ended = f.ended;
  staged = f.staged;
}

fill_loop-Filled :
    (n k : ℕ) (s : TestSource) (q : Queue)
    → IsValid q
    → s.pushed_count ≤ total_events
    → total_events - s.pushed_count < n
    → (let (s', q') = fill_loop n (s, q) in Filled s q s' q')
      × (fill_loop (n + k) (s, q) ≡ fill_loop n (s, q))
unfolding fill_loop
fill_loop-Filled zero k s q v le h = absurd (omega arith)
fill_loop-Filled (suc n) k s q v le h =
    let more : suc n + k ≡ suc (n + k) = omega arith in
    let free = room_left q v in
    let bounded : length (contents q) ≤ queue_capacity =
      omega (arith, v.bounded, length-contents q) in
    rw more (elim (Bool-cases (ltb s.pushed_count total_events && ltb 0 (free_capacity q))) [
      | inr f ↦
          let full : (s.pushed_count ≡ total_events) ⊎ (length (contents q) ≡ queue_capacity) =
            ground (arith, f, free, bounded) in
          rw (f, fill_loop) (nothing-Filled s q v full, refl)
      | inl t ↦
          let some_left : s.pushed_count < total_events = ground (arith, t) in
          let space : length (contents q) < queue_capacity = ground (arith, t, free) in
          let (s₁, q₁) = push_synthetic_event s.pushed_count (s, q) in
          let (v', same, last) = push_synthetic_event_lem s q v some_left space in
          let (rest, again) =
            fill_loop-Filled n k (record s { pushed_count = s.pushed_count + 1 }) q₁ v'
              (omega arith) (omega (arith, h, some_left)) in
          rw (t, fill_loop, same) (one-Filled s q q₁ _ _ last rest, again)
    ])

-- A refill appends the next synthetic events, in their order and without a gap, to those that are queued,
-- counts them, and ends only when all 1000 events were pushed or the queue is full; more turns of its loop
-- would change nothing. The queue is valid, and no more than 1000 events were pushed before.
pub fill_available_slots_lem :
    (k : ℕ) (s : TestSource) (q : Queue)
    → IsValid q
    → s.pushed_count ≤ total_events
    → (let (s', q') = fill_available_slots (s, q) in Filled s q s' q')
      × (fill_loop (suc (total_events - s.pushed_count) + k) (s, q) ≡ fill_available_slots (s, q))
unfolding fill_available_slots
fill_available_slots_lem k s q v le =
    fill_loop-Filled (suc (total_events - s.pushed_count)) k s q v le (omega arith)
