-- ===== src/Scheduler/Drains/Due.antt =====
-- A scheduler whose events are all due, and how a deadline is set in it (pico/src/playback_scheduler.c).
use pico_keyboard_rt_recorde.Base.{
  ℕ, ◌+◌, ◌≤◌, ◌≡◌, refl, ◌∙◌, inl, inr, true, some, [], u64, arith, ltb, Bool-cases, All, ℤ,
}
use pico_keyboard_rt_recorde.Hid.{Report}
use pico_keyboard_rt_recorde.PlaybackQueue.{Event, Queue, IsValid, peek}
use pico_keyboard_rt_recorde.PlaybackQueue.Refine.{contents, peek-some, peek-none}
use pico_keyboard_rt_recorde.Scheduler.{Scheduler, System, Sdk, Callbacks}
use pico_keyboard_rt_recorde.Scheduler.Samples.{record_lateness}
use pico_keyboard_rt_recorde.Scheduler.Run.{drop_alarm, run_dry, set_deadline, arm_next}
use pico_keyboard_rt_recorde.Scheduler.Task.{call_send, call_buffer_available}
use pico_keyboard_rt_recorde.Scheduler.Task.Cases.{arm_next_cases}
use pico_keyboard_rt_recorde.Scheduler.Task.Rule.{After}

-- Worlds in which the clock is past `now` and the HID endpoint takes every report. What the scheduler calls
-- leads from such a world to another.
pub record IsGenerous {W : Type 0} (sdk : Sdk W) (cb : Callbacks W) (now : ℕ) (Late : W → Type 0)
    : Type 0 where
  pub clock : (w : W) → Late w → now ≤ (sdk.time_us_64 w).0
  pub willing : (r : Report) (w : W) → Late w → (call_send cb.send_report r w).0 ≡ true
  pub time_late : (w : W) → Late w → Late (sdk.time_us_64 w).1
  pub alarm_late : (t : ℕ) (w : W) → Late w → Late (sdk.add_alarm_at t w).1
  pub cancel_late : (id : ℤ) (w : W) → Late w → Late (sdk.cancel_alarm id w)
  pub interrupt_late : (w : W) → Late w → Late (sdk.alarm_interrupt w).1
  pub send_late : (r : Report) (w : W) → Late w → Late (call_send cb.send_report r w).1
  pub buffer_late :
      (q : Queue) (w : W) → Late w → Late (call_buffer_available cb.on_buffer_available q w)

-- In the run of `s`, every queued event has its deadline at `now` or before.
pub record IsPast {W : Type 0} (now : ℕ) (Late : W → Type 0) (s : Scheduler) (y : System W)
    : Type 0 where
  pub valid : IsValid y.queue
  pub past : All (λ (e : Event). u64 (s.playback_start_us + e.offset_us) ≤ now) (contents y.queue)
  pub epoch : y.scheduler.playback_start_us ≡ s.playback_start_us
  pub ending : y.scheduler.sequence_ended ≡ s.sequence_ended
  pub running : y.scheduler.running ≡ true
  pub late : Late y.world

-- And the deadline that is set is past too.
pub record IsDue {W : Type 0} (now : ℕ) (Late : W → Type 0) (s : Scheduler) (y : System W)
    : Type 0 where
  pub waiting_past : IsPast now Late s y
  pub deadline : y.scheduler.next_deadline_us ≤ now

-- A call that ends by what the code does at an empty queue.
pub record RanDry {W : Type 0} (sdk : Sdk W) (cb : Callbacks W) (s : Scheduler) (y : System W)
    : Type 0 where
  pub before : System W
  pub played : contents before.queue ≡ []
  pub valid : IsValid before.queue
  pub ending : before.scheduler.sequence_ended ≡ s.sequence_ended
  pub by_run_dry : y ≡ run_dry sdk cb before

pub record-same :
    (l : ℤ) (s : Scheduler)
    → ((record_lateness l s).playback_start_us ≡ s.playback_start_us)
      × ((record_lateness l s).sequence_ended ≡ s.sequence_ended)
      × ((record_lateness l s).running ≡ s.running)
unfolding record_lateness
record-same l s = ground arith

module _ {W : Type 0} {sdk : Sdk W} {cb : Callbacks W} {now : ℕ} {Late : W → Type 0}
    (g : IsGenerous sdk cb now Late) (s : Scheduler) where
  pub moved :
      {y y' : System W}
      → y'.queue ≡ y.queue
      → y'.scheduler.playback_start_us ≡ y.scheduler.playback_start_us
      → y'.scheduler.sequence_ended ≡ y.scheduler.sequence_ended
      → y'.scheduler.running ≡ y.scheduler.running
      → Late y'.world
      → IsPast now Late s y
      → IsPast now Late s y'
  moved q p e r l h = record {
    valid = rw q h.valid;
    past = rw q h.past;
    epoch = p ∙ h.epoch;
    ending = e ∙ h.ending;
    running = r ∙ h.running;
    late = l;
  }

  drop_alarm-IsPast : (y : System W) → IsPast now Late s y → IsPast now Late s (drop_alarm sdk y)
  unfolding drop_alarm
  drop_alarm-IsPast y h =
      moved {y = y} (ground arith) (ground arith) (ground arith) (ground arith)
        (elim (Bool-cases y.scheduler.alarm_armed) [
          | inl t ↦ rw t (g.cancel_late y.scheduler.alarm_id y.world h.late)
          | inr f ↦ rw f h.late
        ])
        h

  set_deadline-IsDue :
      (y : System W) (e : Event)
      → IsPast now Late s y
      → peek y.queue ≡ some e
      → IsDue now Late s (set_deadline sdk e y)
  unfolding set_deadline
  set_deadline-IsDue y e h found =
      let first = peek-some h.valid found in
      let past = rw first at (h.past) in
      let t = u64 (y.scheduler.playback_start_us + e.offset_us) in
      record {
        waiting_past =
            moved {y = y} (ground arith) (ground arith) (ground arith) (ground arith)
              (elim (Bool-cases (ltb (sdk.time_us_64 y.world).0 t)) [
                | inl p ↦
                    rw p (g.alarm_late t (sdk.time_us_64 y.world).1 (g.time_late y.world h.late))
                | inr p ↦ rw p (g.time_late y.world h.late)
              ])
              h;
        deadline = ground (arith, h.epoch, past.0);
      }

  pub arm_next-After :
      (y : System W)
      → IsPast now Late s y
      → After (IsDue now Late s) (RanDry sdk cb s) (arm_next sdk cb y)
  arm_next-After y h =
      let h' = drop_alarm-IsPast y h in
      arm_next_cases sdk cb (After (IsDue now Late s) (RanDry sdk cb s)) y
        (λ e. record {
          before = drop_alarm sdk y;
          played = peek-none (drop_alarm sdk y).queue e;
          valid = h'.valid;
          ending = h'.ending;
          by_run_dry = refl;
        })
        (λ e. set_deadline-IsDue (drop_alarm sdk y) e h')
