-- ===== src/Scheduler/Task/Cases.antt =====
-- The cases of the steps of `pico_playback_scheduler_task`, as rules for any predicate of their results.
use mathlib.Core.Path.{subst}
use pico_keyboard_rt_recorde.Protocol.{reason_finished}
use pico_keyboard_rt_recorde.Base.{
  ℕ, ◌≤◌, ◌<◌, ◌≡◌, refl, sym, ap, inl, inr, Bool, true, false, none, some, ltb, if◌then◌else◌,
  arith, Bool-cases, Option-cases,
}
use pico_keyboard_rt_recorde.PlaybackQueue.{Event, peek}
use pico_keyboard_rt_recorde.Scheduler.{System, Sdk, Callbacks}
use pico_keyboard_rt_recorde.Scheduler.Run.{
  set_world, drop_alarm, end_run, begin_underrun, run_dry, set_deadline, arm_next,
}
use pico_keyboard_rt_recorde.Scheduler.Task.{
  call_send, complete_dispatch, exchange_alarm, read_clock, dispatch_head, turn_due, turn_armed,
  turn,
}

not_lt : (a b : ℕ) → ltb a b ≡ false → b ≤ a
not_lt a b h = ground arith

is_lt : (a b : ℕ) → ltb a b ≡ true → a < b
is_lt a b h = ground arith

module _ {W : Type 0} (sdk : Sdk W) (cb : Callbacks W) where
  pub arm_next_cases {ℓ} :
      (P : Bool × System W → Type ℓ) (y : System W)
      → (peek (drop_alarm sdk y).queue ≡ none → P (false, run_dry sdk cb (drop_alarm sdk y)))
      → ((e : Event)
          → peek (drop_alarm sdk y).queue ≡ some e
          → P (true, set_deadline sdk e (drop_alarm sdk y)))
      → P (arm_next sdk cb y)
  unfolding arm_next
  arm_next_cases P y dry armed = elim (Option-cases (peek (drop_alarm sdk y).queue)) [
    | inl e ↦ rw (e, arm_next) (dry e)
    | inr (e, found) ↦ rw (found, arm_next) (armed e found)
  ]

  pub dispatch_head_cases {ℓ} :
      (P : Bool × System W → Type ℓ) (y : System W)
      → (peek y.queue ≡ none → P (false, run_dry sdk cb y))
      → ((e : Event)
          → peek y.queue ≡ some e
          → (call_send cb.send_report e.report y.world).0 ≡ false
          → P (false, set_world (call_send cb.send_report e.report y.world).1 y))
      → ((e : Event)
          → peek y.queue ≡ some e
          → (call_send cb.send_report e.report y.world).0 ≡ true
          → P (
              arm_next sdk cb (
                complete_dispatch sdk cb
                  (set_world (call_send cb.send_report e.report y.world).1 y))))
      → P (dispatch_head sdk cb y)
  unfolding dispatch_head
  dispatch_head_cases P y dry refused taken = elim (Option-cases (peek y.queue)) [
    | inl e ↦ rw (e, dispatch_head) (dry e)
    | inr (e, found) ↦
        rw (found, dispatch_head)
          (elim (Bool-cases (call_send cb.send_report e.report y.world).0) [
            | inl t ↦ rw t (taken e found t)
            | inr f ↦ rw f (refused e found f)
          ])
  ]

  pub turn_due_cases {ℓ} :
      (P : Bool × System W → Type ℓ) (y : System W)
      → ((exchange_alarm sdk y).0 ≡ true → P (dispatch_head sdk cb (exchange_alarm sdk y).1))
      → ((exchange_alarm sdk y).0 ≡ false
          → (read_clock sdk (exchange_alarm sdk y).1).0 < y.scheduler.next_deadline_us
          → P (false, (read_clock sdk (exchange_alarm sdk y).1).1))
      → ((exchange_alarm sdk y).0 ≡ false
          → y.scheduler.next_deadline_us ≤ (read_clock sdk (exchange_alarm sdk y).1).0
          → P (dispatch_head sdk cb (read_clock sdk (exchange_alarm sdk y).1).1))
      → P (turn_due sdk cb y)
  unfolding turn_due
  turn_due_cases P y fired early due = elim (Bool-cases (exchange_alarm sdk y).0) [
    | inl t ↦ rw t (fired t)
    | inr f ↦
        let now = (read_clock sdk (exchange_alarm sdk y).1).0 in
        rw f (elim (Bool-cases (ltb now y.scheduler.next_deadline_us)) [
          | inl t ↦ rw t (early f (is_lt _ _ t))
          | inr g ↦ rw g (due f (not_lt _ _ g))
        ])
  ]

  turn_waiting :
      (y : System W)
      → y.scheduler.waiting_for_event ≡ true
      → turn sdk cb y ≡ turn_armed sdk cb (arm_next sdk cb y)
  unfolding turn
  turn_waiting y e =
      ap (λ b. if b then turn_armed sdk cb (arm_next sdk cb y) else turn_due sdk cb y) e

  turn_ready :
      (y : System W) → y.scheduler.waiting_for_event ≡ false → turn sdk cb y ≡ turn_due sdk cb y
  unfolding turn
  turn_ready y e =
      ap (λ b. if b then turn_armed sdk cb (arm_next sdk cb y) else turn_due sdk cb y) e

  turn_armed_cases {ℓ} :
      (P : Bool × System W → Type ℓ) (r : Bool × System W)
      → (r.0 ≡ false → P (false, r.1))
      → (r.0 ≡ true → P (turn_due sdk cb r.1))
      → P (turn_armed sdk cb r)
  unfolding turn_armed
  turn_armed_cases P (true, y) dry armed = armed refl
  turn_armed_cases P (false, y) dry armed = dry refl

  pub turn_cases {ℓ} :
      (P : Bool × System W → Type ℓ) (y : System W)
      → (y.scheduler.waiting_for_event ≡ false → P (turn_due sdk cb y))
      → (y.scheduler.waiting_for_event ≡ true
          → (arm_next sdk cb y).0 ≡ false
          → P (false, (arm_next sdk cb y).1))
      → (y.scheduler.waiting_for_event ≡ true
          → (arm_next sdk cb y).0 ≡ true
          → P (turn_due sdk cb (arm_next sdk cb y).1))
      → P (turn sdk cb y)
  turn_cases P y ready dry armed = elim (Bool-cases y.scheduler.waiting_for_event) [
    | inl t ↦ rw (turn_waiting y t) (turn_armed_cases P (arm_next sdk cb y) (dry t) (armed t))
    | inr f ↦ rw (turn_ready y f) (ready f)
  ]

  pub run_dry_cases {ℓ} :
      (P : System W → Type ℓ) (y : System W)
      → (y.scheduler.sequence_ended ≡ true → P (end_run cb reason_finished y))
      → (y.scheduler.sequence_ended ≡ false → P (begin_underrun sdk cb y))
      → P (run_dry sdk cb y)
  unfolding run_dry
  run_dry_cases P y ended going = elim (Bool-cases y.scheduler.sequence_ended) [
    | inl t ↦
        subst (λ b. P (if b then end_run cb reason_finished y else begin_underrun sdk cb y)) (sym t)
          (ended t)
    | inr f ↦
        subst (λ b. P (if b then end_run cb reason_finished y else begin_underrun sdk cb y)) (sym f)
          (going f)
  ]
