-- ===== src/Scheduler/Task/Rule.antt =====
-- One rule for all that holds across a call of `pico_playback_scheduler_task`: `I` holds while a deadline
-- is set, `J` before the next deadline is chosen, and `K` when the call returns.
use pico_keyboard_rt_recorde.Base.{
  ℕ, zero, suc, ◌≡◌, inl, inr, Bool, true, false, none, some, Bool-cases,
}
use pico_keyboard_rt_recorde.PlaybackQueue.{Event, peek}
use pico_keyboard_rt_recorde.Scheduler.{System, Sdk, Callbacks}
use pico_keyboard_rt_recorde.Scheduler.Run.{set_world, drop_alarm, run_dry, set_deadline, arm_next}
use pico_keyboard_rt_recorde.Scheduler.Task.{
  call_send, complete_dispatch, exchange_alarm, read_clock, dispatch_head, turn_due, turn,
  task_loop, task,
}
use pico_keyboard_rt_recorde.Scheduler.Task.Cases.{
  arm_next_cases, dispatch_head_cases, turn_due_cases, turn_cases,
}

module _ {W : Type 0} (sdk : Sdk W) (cb : Callbacks W) (I J K : System W → Type 0) where
  -- What each step of a turn has to keep.
  pub record Keeps : Type 0 where
    pub weaken : (y : System W) → I y → J y
    pub rest : (y : System W) → I y → K y
    pub dropped : (y : System W) → J y → J (drop_alarm sdk y)
    pub dry : (y : System W) → J y → peek y.queue ≡ none → K (run_dry sdk cb y)
    pub armed : (y : System W) (e : Event) → J y → peek y.queue ≡ some e → I (set_deadline sdk e y)
    pub exchanged : (y : System W) → I y → I (exchange_alarm sdk y).1
    pub clocked : (y : System W) → I y → I (read_clock sdk y).1
    pub refused :
        (y : System W) (e : Event)
        → I y
        → peek y.queue ≡ some e
        → (call_send cb.send_report e.report y.world).0 ≡ false
        → K (set_world (call_send cb.send_report e.report y.world).1 y)
    pub taken :
        (y : System W) (e : Event)
        → I y
        → peek y.queue ≡ some e
        → (call_send cb.send_report e.report y.world).0 ≡ true
        → J (complete_dispatch sdk cb (set_world (call_send cb.send_report e.report y.world).1 y))

-- What holds behind a step: `I` if the loop goes on, `K` if it returns.
abbrev pub After : {W : Type 0} → (I K : System W → Type 0) → Bool × System W → Type 0
After I K (true, y) = I y
After I K (false, y) = K y

After-true :
    {W : Type 0} (I K : System W → Type 0) (r : Bool × System W) → After I K r → r.0 ≡ true → I r.1
After-true I K (true, y) h e = h
After-true I K (false, y) h e = absurd (cc)

After-false :
    {W : Type 0} (I K : System W → Type 0) (r : Bool × System W) → After I K r → r.0 ≡ false → K r.1
After-false I K (true, y) h e = absurd (cc)
After-false I K (false, y) h e = h

-- What a call of the task needs: `J`, and `I` if a deadline is set, and `K` if nothing is to be done.
pub record Before {W : Type 0} (I J K : System W → Type 0) (y : System W) : Type 0 where
  pub base : J y
  pub ready : y.scheduler.waiting_for_event ≡ false → I y
  pub idle : y.scheduler.running ≡ false → K y

module _ {W : Type 0} {sdk : Sdk W} {cb : Callbacks W} {I J K : System W → Type 0}
    (keeps : Keeps sdk cb I J K) where
  pub arm_next_rule : (y : System W) → J y → After I K (arm_next sdk cb y)
  arm_next_rule y h =
      arm_next_cases sdk cb (After I K) y (keeps.dry (drop_alarm sdk y) (keeps.dropped y h))
        (λ e. keeps.armed (drop_alarm sdk y) e (keeps.dropped y h))

  dispatch_head_rule : (y : System W) → I y → After I K (dispatch_head sdk cb y)
  dispatch_head_rule y h =
      dispatch_head_cases sdk cb (After I K) y (keeps.dry y (keeps.weaken y h))
        (λ e. keeps.refused y e h) (λ e found t. arm_next_rule _ (keeps.taken y e h found t))

  turn_due_rule : (y : System W) → I y → After I K (turn_due sdk cb y)
  turn_due_rule y h =
      let x = keeps.exchanged y h in
      let c = keeps.clocked (exchange_alarm sdk y).1 x in
      turn_due_cases sdk cb (After I K) y (λ f. dispatch_head_rule _ x) (λ f lt. keeps.rest _ c)
        (λ f le. dispatch_head_rule _ c)

  pub turn_rule : (y : System W) → Before I J K y → After I K (turn sdk cb y)
  turn_rule y b =
      turn_cases sdk cb (After I K) y (λ f. turn_due_rule y (b.ready f))
        (λ t. After-false I K (arm_next sdk cb y) (arm_next_rule y b.base))
        (λ t armed.
          turn_due_rule (arm_next sdk cb y).1
            (After-true I K (arm_next sdk cb y) (arm_next_rule y b.base) armed))

  -- The loop from a state with a deadline.
  loop_again : (n : ℕ) (y : System W) → I y → K (task_loop sdk cb n y)
  unfolding task_loop
  loop_again zero y i = keeps.rest y i
  loop_again (suc n) y i = elim (Bool-cases y.scheduler.running) [
    | inr f ↦ rw (f, task_loop) (keeps.rest y i)
    | inl t ↦
        let a =
          turn_rule y
            (record { base = keeps.weaken y i; ready = λ _. i; idle = λ _. keeps.rest y i }) in
        rw (t, task_loop)
          (elim (Bool-cases (turn sdk cb y).0) [
            | inr stop ↦ rw stop (After-false I K (turn sdk cb y) a stop)
            | inl more ↦
                rw more (loop_again n (turn sdk cb y).1 (After-true I K (turn sdk cb y) a more))
          ])
  ]

  -- The loop with some fuel left.
  loop_rule : (n : ℕ) (y : System W) → Before I J K y → K (task_loop sdk cb (suc n) y)
  unfolding task_loop
  loop_rule n y b = elim (Bool-cases y.scheduler.running) [
    | inr f ↦ rw (f, task_loop) (b.idle f)
    | inl t ↦
        let a = turn_rule y b in
        rw (t, task_loop)
          (elim (Bool-cases (turn sdk cb y).0) [
            | inr stop ↦ rw stop (After-false I K (turn sdk cb y) a stop)
            | inl more ↦
                let i = After-true I K (turn sdk cb y) a more in
                rw more (loop_again n (turn sdk cb y).1 i)
          ])
  ]

  -- A call of the task, from a state that meets its needs.
  pub task_rule : (y : System W) → Before I J K y → K (task sdk cb y)
  unfolding task
  task_rule y b = loop_rule y.queue.count y b
