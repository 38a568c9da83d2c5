-- ===== src/Scheduler/Task/Fuel.antt =====
-- The loop of `pico_playback_scheduler_task` ends: a turn that goes on has taken an event out.
use pico_keyboard_rt_recorde.Base.{
  ℕ, zero, suc, ◌+◌, ◌<◌, ◌≡◌, refl, ◌∙◌, inl, inr, true, some, arith, Bool-cases,
}
use pico_keyboard_rt_recorde.PlaybackQueue.{Event, Queue, peek, pop}
use pico_keyboard_rt_recorde.Scheduler.{System, Sdk, Callbacks}
use pico_keyboard_rt_recorde.Scheduler.Run.{set_world, drop_alarm, set_deadline, arm_next}
use pico_keyboard_rt_recorde.Scheduler.Task.{
  call_send, complete_dispatch, exchange_alarm, read_clock, dispatch_head, turn_due, turn,
  task_loop, task,
}
use pico_keyboard_rt_recorde.Scheduler.Task.Cases.{
  arm_next_cases, dispatch_head_cases, turn_due_cases, turn_cases,
}

count-pop : (q : Queue) {e : Event} → peek q ≡ some e → (pop q).1.count < q.count
unfolding peek pop
count-pop q h = ground arith

module _ {W : Type 0} (sdk : Sdk W) where
  pub queue-drop_alarm : (y : System W) → (drop_alarm sdk y).queue ≡ y.queue
  unfolding drop_alarm
  queue-drop_alarm y = ground arith

  pub queue-set_deadline : (e : Event) (y : System W) → (set_deadline sdk e y).queue ≡ y.queue
  unfolding set_deadline
  queue-set_deadline e y = ground arith

module _ {W : Type 0} (sdk : Sdk W) (cb : Callbacks W) where
  -- An `arm_next` that finds a head leaves the queue as it is.
  pub queue-arm_next :
      (y : System W) → (arm_next sdk cb y).0 ≡ true → (arm_next sdk cb y).1.queue ≡ y.queue
  queue-arm_next y =
      arm_next_cases sdk cb (λ r. r.0 ≡ true → r.1.queue ≡ y.queue) y (λ e h. cc)
        (λ e found h. queue-set_deadline sdk e (drop_alarm sdk y) ∙ queue-drop_alarm sdk y)

  pub queue-complete_dispatch :
      (y : System W) → (complete_dispatch sdk cb y).queue ≡ (pop y.queue).1
  unfolding complete_dispatch
  queue-complete_dispatch y = refl

  -- A dispatch that goes on has taken the head out.
  count-dispatch_head :
      (y : System W)
      → (dispatch_head sdk cb y).0 ≡ true
      → (dispatch_head sdk cb y).1.queue.count < y.queue.count
  count-dispatch_head y =
      dispatch_head_cases sdk cb (λ r. r.0 ≡ true → r.1.queue.count < y.queue.count) y (λ e h. cc)
        (λ e found f h. cc)
        (λ e found t h.
          let w = (call_send cb.send_report e.report y.world).1 in
          rw
            (queue-arm_next (complete_dispatch sdk cb (set_world w y)) h
              ∙ queue-complete_dispatch (set_world w y))
            (count-pop y.queue found))

  count-turn_due :
      (y : System W)
      → (turn_due sdk cb y).0 ≡ true
      → (turn_due sdk cb y).1.queue.count < y.queue.count
  unfolding exchange_alarm read_clock
  count-turn_due y =
      turn_due_cases sdk cb (λ r. r.0 ≡ true → r.1.queue.count < y.queue.count) y
        (λ f. count-dispatch_head (exchange_alarm sdk y).1) (λ f lt h. cc)
        (λ f le. count-dispatch_head (read_clock sdk (exchange_alarm sdk y).1).1)

  -- A turn after which the loop goes on leaves fewer events in the queue.
  pub count-turn :
      (y : System W) → (turn sdk cb y).0 ≡ true → (turn sdk cb y).1.queue.count < y.queue.count
  count-turn y =
      turn_cases sdk cb (λ r. r.0 ≡ true → r.1.queue.count < y.queue.count) y
        (λ f. count-turn_due y) (λ t f h. cc)
        (λ t armed h.
          let less = count-turn_due (arm_next sdk cb y).1 h in rw (queue-arm_next y armed) at less)

  -- With more fuel than there are queued events the loop ends by its own tests: any further fuel gives
  -- the same result.
  pub task_loop_fuel :
      (n m : ℕ) (y : System W)
      → y.queue.count < n
      → y.queue.count < m
      → task_loop sdk cb n y ≡ task_loop sdk cb m y
  unfolding task_loop
  task_loop_fuel zero m y p q = absurd (omega arith)
  task_loop_fuel (suc n) zero y p q = absurd (omega arith)
  task_loop_fuel (suc n) (suc m) y p q = elim (Bool-cases y.scheduler.running) [
    | inr f ↦ rw (f, task_loop)
    | inl t ↦
        rw (t, task_loop)
          (elim (Bool-cases (turn sdk cb y).0) [
            | inr stop ↦ rw stop
            | inl more ↦
                let less = count-turn y more in
                rw more (task_loop_fuel n m (turn sdk cb y).1 (omega arith) (omega arith))
          ])
  ]

  -- `pico_playback_scheduler_task` returns, whatever the clock, the alarm and the callbacks do: the number
  -- of queued events bounds its turns, and a loop that is allowed any number of further turns has the same
  -- result.
  pub task_enough_fuel :
      (k : ℕ) (y : System W) → task_loop sdk cb (suc y.queue.count + k) y ≡ task sdk cb y
  unfolding task
  task_enough_fuel k y =
      task_loop_fuel (suc y.queue.count + k) (suc y.queue.count) y (omega arith) (omega arith)
