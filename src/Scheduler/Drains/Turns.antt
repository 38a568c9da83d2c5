-- ===== src/Scheduler/Drains/Turns.antt =====
-- The turns of `pico_playback_scheduler_task` of pico/src/playback_scheduler.c when all events are due.
use pico_keyboard_rt_recorde.Base.{
  ℕ, zero, suc, ◌≤◌, ◌<◌, ◌≡◌, refl, ◌∙◌, ◌⊎◌, inl, inr, Bool, true, false, some, arith, ◌==◌, ◌&&◌,
  not, if◌then◌else◌,
}
use pico_keyboard_rt_recorde.PlaybackQueue.{Event, Queue, free_capacity, peek, pop, pop-IsValid}
use pico_keyboard_rt_recorde.PlaybackQueue.Refine.{peek-some, peek-none}
use pico_keyboard_rt_recorde.Scheduler.{Scheduler, System, Sdk, Callbacks}
use pico_keyboard_rt_recorde.Scheduler.Run.{set_world, arm_next}
use pico_keyboard_rt_recorde.Scheduler.Task.{
  call_buffer_available, complete_dispatch, exchange_alarm, read_clock, dispatch_head, turn_due,
  turn, task_loop,
}
use pico_keyboard_rt_recorde.Scheduler.Task.Cases.{dispatch_head_cases, turn_due_cases, turn_cases}
use pico_keyboard_rt_recorde.Scheduler.Task.Fuel.{count-turn}
use pico_keyboard_rt_recorde.Scheduler.Task.Rule.{After}
use pico_keyboard_rt_recorde.Scheduler.Drains.Due.{
  IsGenerous, IsPast, IsDue, RanDry, record-same, moved, arm_next-After,
}

module _ {W : Type 0} {sdk : Sdk W} {cb : Callbacks W} {now : ℕ} {Late : W → Type 0}
    (g : IsGenerous sdk cb now Late) (s : Scheduler) where
  exchange-IsDue : (y : System W) → IsDue now Late s y → IsDue now Late s (exchange_alarm sdk y).1
  unfolding exchange_alarm
  exchange-IsDue y h = record {
    waiting_past =
        moved g s {y = y} refl refl refl refl (g.interrupt_late y.world h.waiting_past.late)
          h.waiting_past;
    deadline = h.deadline;
  }

  read_clock-IsDue : (y : System W) → IsDue now Late s y → IsDue now Late s (read_clock sdk y).1
  unfolding read_clock
  read_clock-IsDue y h = record {
    waiting_past =
        moved g s {y = y} refl refl refl refl (g.time_late y.world h.waiting_past.late)
          h.waiting_past;
    deadline = h.deadline;
  }

  granted :
      (b : Bool) (q : Queue) (w : W)
      → Late w
      → Late (if b then call_buffer_available cb.on_buffer_available q w else w)
  granted true q w l = g.buffer_late q w l
  granted false q w l = l

  -- A dispatch takes the head out.
  complete-IsPast :
      (y : System W) (e : Event) (w : W)
      → IsDue now Late s y
      → Late w
      → peek y.queue ≡ some e
      → IsPast now Late s (complete_dispatch sdk cb (set_world w y))
  unfolding complete_dispatch
  complete-IsPast y e w h l found =
      let first = peek-some h.waiting_past.valid found in
      let past = rw first at (h.waiting_past.past) in
      record {
        valid = pop-IsValid h.waiting_past.valid;
        past = past.1;
        epoch = (record-same _ y.scheduler).0 ∙ h.waiting_past.epoch;
        ending = (record-same _ y.scheduler).1 ∙ h.waiting_past.ending;
        running = (record-same _ y.scheduler).2 ∙ h.waiting_past.running;
        late = g.time_late _ (
            granted (free_capacity y.queue == 0 && not y.scheduler.sequence_ended) (pop y.queue).1 w
              l);
      }

  dispatch_head-After :
      (y : System W)
      → IsDue now Late s y
      → After (IsDue now Late s) (RanDry sdk cb s) (dispatch_head sdk cb y)
  dispatch_head-After y h =
      dispatch_head_cases sdk cb (After (IsDue now Late s) (RanDry sdk cb s)) y
        (λ e. record {
          before = y;
          played = peek-none y.queue e;
          valid = h.waiting_past.valid;
          ending = h.waiting_past.ending;
          by_run_dry = refl;
        })
        (λ e found refused.
          absurd (taken_and_not (g.willing e.report y.world h.waiting_past.late) refused))
        (λ e found t.
          arm_next-After g s _
            (complete-IsPast y e _ h (g.send_late e.report y.world h.waiting_past.late) found))
    where
      taken_and_not : {b : Bool} → b ≡ true → b ≡ false → ⊥
      taken_and_not p q = cc

  clock_past : (y : System W) → Late y.world → now ≤ (read_clock sdk y).0
  unfolding read_clock
  clock_past y l = g.clock y.world l

  turn_due-After :
      (y : System W)
      → IsDue now Late s y
      → After (IsDue now Late s) (RanDry sdk cb s) (turn_due sdk cb y)
  turn_due-After y h =
      let x = exchange-IsDue y h in
      turn_due_cases sdk cb (After (IsDue now Late s) (RanDry sdk cb s)) y
        (λ f. dispatch_head-After (exchange_alarm sdk y).1 x)
        (λ f early. absurd (
          omega
            (arith, early, h.deadline, clock_past (exchange_alarm sdk y).1 x.waiting_past.late)))
        (λ f due. dispatch_head-After _ (read_clock-IsDue (exchange_alarm sdk y).1 x))

  true-After :
      (r : Bool × System W)
      → After (IsDue now Late s) (RanDry sdk cb s) r
      → ((r.0 ≡ true) × IsDue now Late s r.1) ⊎ ((r.0 ≡ false) × RanDry sdk cb s r.1)
  true-After (true, y) a = inl (refl, a)
  true-After (false, y) a = inr (refl, a)

  turn-After :
      (y : System W)
      → IsPast now Late s y
      → (y.scheduler.waiting_for_event ≡ false → IsDue now Late s y)
      → After (IsDue now Late s) (RanDry sdk cb s) (turn sdk cb y)
  turn-After y h due =
      let armed = true-After (arm_next sdk cb y) (arm_next-After g s y h) in
      turn_cases sdk cb (After (IsDue now Late s) (RanDry sdk cb s)) y
        (λ ready. turn_due-After y (due ready))
        (λ waits stop. elim armed [ inl (e, _) ↦ absurd (cc) | inr (_, dry) ↦ dry ])
        (λ waits go. elim armed [
          | inl (_, set) ↦ turn_due-After (arm_next sdk cb y).1 set
          | inr (e, _) ↦ absurd (cc)
        ])

  pub loop-RanDry :
      (n : ℕ) (y : System W)
      → IsPast now Late s y
      → (y.scheduler.waiting_for_event ≡ false → IsDue now Late s y)
      → y.queue.count < n
      → RanDry sdk cb s (task_loop sdk cb n y)
  unfolding task_loop
  loop-RanDry zero y h due fuel = absurd (omega arith)
  loop-RanDry (suc n) y h due fuel =
      rw (h.running, task_loop)
        (elim (true-After (turn sdk cb y) (turn-After y h due)) [
          | inr (stop, dry) ↦ rw stop dry
          | inl (more, set) ↦
              let less = count-turn sdk cb y more in
              rw more (
                loop-RanDry n (turn sdk cb y).1 set.waiting_past (λ _. set)
                  (omega (arith, less, fuel)))
        ])
