-- ===== src/Dispatch/Fuel.antt =====
-- The loops of physical_report_dispatch.c end by their own tests.
use pico_keyboard_rt_recorde.Base.{
  ℕ, zero, suc, ◌≤◌, ◌<◌, ◌≡◌, refl, ap, ◌∙◌, inl, inr, not, ◌||◌, none, some, if◌then◌else◌, arith,
  Option-cases,
}
use pico_keyboard_rt_recorde.Capture.{Capture, Event, peek, pop, mark_head_recorded}
use pico_keyboard_rt_recorde.Dispatch.{
  Output, call_report, no_sender, record_head, record_loop, pass_loop,
}

-- Whatever `peek` finds is taken out by `pop`, which lowers the count.
pub count-pop : (c : Capture) {e : Event} → peek c ≡ some e → (pop c).1.count < c.count
unfolding peek pop
count-pop c h = ground arith

peek-none_of_zero : (c : Capture) → c.count ≡ 0 → peek c ≡ none
unfolding peek
peek-none_of_zero c h = ground arith

module _ {W : Type 0} (out : Output W) where
  count-record_head : (e : Event) (c : Capture) (w : W) → (record_head out e c w).0.count ≡ c.count
  unfolding record_head mark_head_recorded
  count-record_head e c w = ground arith

  peek-record_head : (e : Event) (c : Capture) (w : W) → peek (record_head out e c w).0 ≡ peek c
  unfolding record_head mark_head_recorded peek
  peek-record_head e c w = ground arith

  pass_loop_fuel :
      (n m : ℕ) (c : Capture) (w : W)
      → c.count ≤ n
      → c.count ≤ m
      → pass_loop out n c w ≡ pass_loop out m c w
  unfolding pass_loop
  pass_loop_fuel zero zero c w p q = refl
  pass_loop_fuel zero (suc m) c w p q = rw (peek-none_of_zero c (omega arith), pass_loop)
  pass_loop_fuel (suc n) zero c w p q = rw (peek-none_of_zero c (omega arith), pass_loop)
  pass_loop_fuel (suc n) (suc m) c w p q = elim (Option-cases (peek c)) [
    | inl e ↦ rw (e, pass_loop)
    | inr (e, found) ↦
        let (taken, w') = call_report out.send_pass_report e.report w in
        let less = count-pop c found in
        rw (found, pass_loop)
          (ap (λ (r : Capture × W). if not taken then (c, w') else r)
            (pass_loop_fuel n m (pop c).1 w' (omega arith) (omega arith)))
  ]

  record_loop_fuel :
      (n m : ℕ) (c : Capture) (w : W)
      → c.count ≤ n
      → c.count ≤ m
      → record_loop out n c w ≡ record_loop out m c w
  unfolding record_loop
  record_loop_fuel zero zero c w p q = refl
  record_loop_fuel zero (suc m) c w p q = rw (peek-none_of_zero c (omega arith), record_loop)
  record_loop_fuel (suc n) zero c w p q = rw (peek-none_of_zero c (omega arith), record_loop)
  record_loop_fuel (suc n) (suc m) c w p q = elim (Option-cases (peek c)) [
    | inl e ↦ rw (e, record_loop)
    | inr (e, found) ↦
        let (c', w') = record_head out e c w in
        let (taken, w'') = call_report out.send_pass_report e.report w' in
        let less = count-pop c' (peek-record_head e c w ∙ found) in
        let same = count-record_head e c w in
        rw (found, record_loop)
          (ap
            (λ (r : Capture × W).
              if not out.hid_output_ready || no_sender out.send_pass_report
              then (c', w')
              else if not taken
              then (c', w'')
              else r)
            (record_loop_fuel n m (pop c').1 w'' (omega arith) (omega arith)))
  ]

  -- The loops of PASS and of RECORD end by their tests: once the fuel is at least the number of queued
  -- reports, the result does not depend on the fuel.
  pub loops_enough_fuel :
      (n m : ℕ) (c : Capture) (w : W)
      → c.count ≤ n
      → c.count ≤ m
      → (pass_loop out n c w ≡ pass_loop out m c w)
        × (record_loop out n c w ≡ record_loop out m c w)
  loops_enough_fuel n m c w p q = (pass_loop_fuel n m c w p q, record_loop_fuel n m c w p q)
