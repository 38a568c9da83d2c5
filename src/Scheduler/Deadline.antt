-- ===== src/Scheduler/Deadline.antt =====
-- Absolute deadlines: between two calls of the scheduler's functions the next deadline is the epoch of the
-- run plus the offset of the queue's head, and nothing moves the epoch.
use pico_keyboard_rt_recorde.Base.{
  ℕ, suc, ◌+◌, ◌<◌, ◌≡◌, refl, sym, ap, ap₂, ◌∙◌, Bool, true, false, some, u64, ℤ, arith,
  if◌then◌else◌,
}
use mathlib.Core.Path.{subst}
use pico_keyboard_rt_recorde.PlaybackQueue.{Event, peek}
use pico_keyboard_rt_recorde.Scheduler.{Metrics, Scheduler, System, Sdk, Callbacks}
use pico_keyboard_rt_recorde.Scheduler.Samples.{record_lateness}
use pico_keyboard_rt_recorde.Scheduler.Run.{
  set_scheduler, call_complete, metrics, ended, end_run, begin_underrun, drop_alarm, set_deadline,
  fresh_run, start, arm_next,
}
use pico_keyboard_rt_recorde.Scheduler.Task.{
  complete_dispatch, exchange_alarm, read_clock, turn, task_loop, task,
}
use pico_keyboard_rt_recorde.Scheduler.Task.Cases.{run_dry_cases, turn_cases, turn_due_cases}
use pico_keyboard_rt_recorde.Scheduler.Task.Rule.{Keeps, After, task_rule, arm_next_rule}
use pico_keyboard_rt_recorde.Scheduler.Task.Fuel.{queue-set_deadline}

-- The next deadline is that of the event at the head of the queue.
pub record IsCoherent {W : Type 0} (y : System W) : Type 0 where
  pub head : Event
  pub found : peek y.queue ≡ some head
  pub exact : y.scheduler.next_deadline_us ≡ u64 (y.scheduler.playback_start_us + head.offset_us)

abbrev pub HasEpoch : {W : Type 0} → ℕ → System W → Type 0
HasEpoch t y = y.scheduler.playback_start_us ≡ t

-- While a deadline is set.
abbrev pub Armed : {W : Type 0} → ℕ → System W → Type 0
Armed t y = HasEpoch t y × IsCoherent y

-- Between two calls: a run that is not waiting for an event has a coherent deadline.
pub record OnTime {W : Type 0} (t : ℕ) (y : System W) : Type 0 where
  pub epoch : HasEpoch t y
  pub coherent : y.scheduler.running ≡ true → y.scheduler.waiting_for_event ≡ false → IsCoherent y

-- The completion callback leaves a stopped scheduler stopped, and its epoch alone.
abbrev pub LeavesStopped : {W : Type 0} → Callbacks W → Type 0
LeavesStopped {W} cb =
    (reason : ℕ) (m : Metrics) (y : System W)
    → y.scheduler.running ≡ false
    → let y' = call_complete cb.on_complete reason m y in
      (y'.scheduler.running ≡ false)
      × (y'.scheduler.playback_start_us ≡ y.scheduler.playback_start_us)

module _ {W : Type 0} (sdk : Sdk W) (cb : Callbacks W) (stops : LeavesStopped cb) (t : ℕ) where
  epoch-drop_alarm : (y : System W) → HasEpoch t y → HasEpoch t (drop_alarm sdk y)
  unfolding drop_alarm
  epoch-drop_alarm y h = ground arith

  OnTime-end_run : (reason : ℕ) (y : System W) → HasEpoch t y → OnTime t (end_run cb reason y)
  unfolding end_run
  OnTime-end_run reason y h =
      let y' = set_scheduler (ended y.scheduler) y in
      let (stopped, same) = stops reason (metrics (ended y.scheduler)) y' refl in
      record { epoch = same ∙ h; coherent = λ r w. absurd (cc) }

  OnTime-begin_underrun : (y : System W) → HasEpoch t y → OnTime t (begin_underrun sdk cb y)
  unfolding begin_underrun
  OnTime-begin_underrun y h = record {
    epoch = ground arith;
    coherent = λ r w. absurd (ground arith);
  }

  Armed-set_deadline :
      (y : System W) (e : Event)
      → HasEpoch t y
      → peek y.queue ≡ some e
      → Armed t (set_deadline sdk e y)
  unfolding set_deadline
  Armed-set_deadline y e h found = (
    ground arith,
    record { head = e; found = ap peek (queue-set_deadline sdk e y) ∙ found; exact = ground arith },
  )

  epoch-record_lateness :
      (late : ℤ) (s : Scheduler) → (record_lateness late s).playback_start_us ≡ s.playback_start_us
  unfolding record_lateness
  epoch-record_lateness late s = ground arith

  OnTime-Keeps : Keeps sdk cb (Armed t) (HasEpoch t) (OnTime t)
  unfolding exchange_alarm read_clock complete_dispatch
  OnTime-Keeps = record {
    weaken = λ y h. h.0;
    rest = λ y h. record { epoch = h.0; coherent = λ r w. h.1 };
    dropped = epoch-drop_alarm;
    dry = λ y h e.
        run_dry_cases sdk cb (OnTime t) y (λ _. OnTime-end_run _ y h)
          (λ _. OnTime-begin_underrun y h);
    armed = Armed-set_deadline;
    exchanged = λ y h. (h.0, record { head = h.1.head; found = h.1.found; exact = h.1.exact });
    clocked = λ y h. (h.0, record { head = h.1.head; found = h.1.found; exact = h.1.exact });
    refused = λ y e h found f. record {
      epoch = h.0;
      coherent = λ r w. record { head = h.1.head; found = h.1.found; exact = h.1.exact };
    };
    taken = λ y e h found f. epoch-record_lateness _ y.scheduler ∙ h.0;
  }

  -- A call of the task keeps the epoch, and whenever the run goes on without waiting for an event, the
  -- next deadline is exactly the epoch plus the offset of the queue's head (modulo 2^64): a late dispatch
  -- never shifts a later deadline. This holds before the call, the run is under way, and the completion
  -- callback leaves a stopped scheduler stopped and its epoch alone.
  pub task-OnTime :
      (y : System W) → OnTime t y → y.scheduler.running ≡ true → OnTime t (task sdk cb y)
  task-OnTime y h r =
      task_rule OnTime-Keeps y
        (record { base = h.epoch; ready = λ w. (h.epoch, h.coherent r w); idle = λ f. h })

  After-OnTime : (r : Bool × System W) → After (Armed t) (OnTime t) r → OnTime t r.1
  After-OnTime (true, y) h = record { epoch = h.0; coherent = λ r w. h.1 }
  After-OnTime (false, y) h = h

  -- `start` on a stopped scheduler begins a run with the given epoch, and with the deadline of the head, if
  -- there is one. The completion callback leaves a stopped scheduler stopped and its epoch alone.
  pub start-OnTime : (y : System W) → y.scheduler.running ≡ false → OnTime t (start sdk cb t y)
  unfolding start
  start-OnTime y f =
      let y' = set_scheduler (fresh_run t y.scheduler) y in
      let begun =
        After-OnTime (arm_next sdk cb y')
          (arm_next_rule OnTime-Keeps y' (unfold fresh_run in refl)) in
      subst (λ b. OnTime t (if b then y else (arm_next sdk cb y').1)) (sym f) begun

some_offset : (d e : Event) → some d ≡ some e → d.offset_us ≡ e.offset_us
some_offset d e h = ground arith

module _ {W : Type 0} (sdk : Sdk W) (cb : Callbacks W) where
  loop_once :
      (n : ℕ) (y : System W)
      → y.scheduler.running ≡ true
      → (turn sdk cb y).0 ≡ false
      → task_loop sdk cb (suc n) y ≡ (turn sdk cb y).1
  unfolding task_loop
  loop_once n y r f =
      ap₂
        (λ (b c : Bool). elim b as (λ _. System W) [
          | false ↦ y
          | true ↦ elim c as (λ _. System W) [
            | true ↦ task_loop sdk cb n (turn sdk cb y).1
            | false ↦ (turn sdk cb y).1
          ]
        ])
        r f

  turn_early :
      (y : System W)
      → y.scheduler.waiting_for_event ≡ false
      → (exchange_alarm sdk y).0 ≡ false
      → (read_clock sdk (exchange_alarm sdk y).1).0 < y.scheduler.next_deadline_us
      → turn sdk cb y ≡ (false, (read_clock sdk (exchange_alarm sdk y).1).1)
  turn_early y w f early =
      turn_cases sdk cb (λ r. r ≡ (false, (read_clock sdk (exchange_alarm sdk y).1).1)) y
        (λ _.
          turn_due_cases sdk cb (λ r. r ≡ (false, (read_clock sdk (exchange_alarm sdk y).1).1)) y
            (λ t. absurd (cc)) (λ _ _. refl) (λ _ late. absurd (omega (arith, late, early))))
        (λ t. absurd (cc)) (λ t. absurd (cc))

  -- Nothing is sent early. While a run has its deadline set and its alarm has not fired, a call of the task
  -- at a time before the epoch plus the head's offset only reads the alarm flag and the clock: it calls no
  -- callback and changes neither the queue nor the deadline.
  pub task_never_early :
      (t : ℕ) (y : System W) (e : Event)
      → OnTime t y
      → y.scheduler.running ≡ true
      → y.scheduler.waiting_for_event ≡ false
      → peek y.queue ≡ some e
      → (exchange_alarm sdk y).0 ≡ false
      → (read_clock sdk (exchange_alarm sdk y).1).0 < u64 (t + e.offset_us)
      → task sdk cb y ≡ (read_clock sdk (exchange_alarm sdk y).1).1
  unfolding task
  task_never_early t y e h r w found f early =
      let c = h.coherent r w in
      let same : c.head.offset_us ≡ e.offset_us = some_offset c.head e (sym c.found ∙ found) in
      let due : y.scheduler.next_deadline_us ≡ u64 (t + e.offset_us) =
        c.exact ∙ ap₂ (λ (a b : ℕ). u64 (a + b)) h.epoch same in
      let stop = turn_early y w f (rw due early) in
      loop_once y.queue.count y r (ap (λ (x : Bool × System W). x.0) stop)
      ∙ ap (λ (x : Bool × System W). x.1) stop
