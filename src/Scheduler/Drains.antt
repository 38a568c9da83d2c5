-- ===== src/Scheduler/Drains.antt =====
-- Progress of `pico_playback_scheduler_task` of pico/src/playback_scheduler.c: what is due is played in one call.
mod Due
mod Turns
pub use Due.{IsGenerous, RanDry}
use pico_keyboard_rt_recorde.Base.{
  ℕ, zero, suc, ◌+◌, ◌≤◌, ◌<◌, ◌≡◌, refl, sym, ap, ◌∙◌, ◌⊎◌, inl, inr, Bool, true, false, some,
  List, [], ◌++◌, u64, arith, ltb, ◌==◌, ◌&&◌, not, if◌then◌else◌, Bool-cases, All, ℤ,
}
use mathlib.Core.List.{append-nil}
use pico_keyboard_rt_recorde.Protocol.{reason_finished}
use pico_keyboard_rt_recorde.Hid.{Report}
use pico_keyboard_rt_recorde.PlaybackQueue.{
  Event, Queue, IsValid, free_capacity, peek, pop, pop-IsValid,
}
use pico_keyboard_rt_recorde.PlaybackQueue.Refine.{contents, peek-some, peek-none}
use pico_keyboard_rt_recorde.Scheduler.{Scheduler, System, Sdk, Callbacks}
use pico_keyboard_rt_recorde.Scheduler.Samples.{record_lateness}
use pico_keyboard_rt_recorde.Scheduler.Delivery.{
  Observes, reports, queue-begin_underrun, task_delivers,
}
use pico_keyboard_rt_recorde.Scheduler.Run.{
  set_scheduler, metrics, ended, end_run, set_world, drop_alarm, run_dry, set_deadline, arm_next,
}
use pico_keyboard_rt_recorde.Scheduler.Task.{
  call_send, call_buffer_available, complete_dispatch, exchange_alarm, read_clock, dispatch_head,
  turn_due, turn, task_loop, task,
}
use pico_keyboard_rt_recorde.Scheduler.Task.Cases.{
  arm_next_cases, dispatch_head_cases, turn_due_cases, turn_cases, run_dry_cases,
}
use pico_keyboard_rt_recorde.Scheduler.Task.Fuel.{count-turn}
use pico_keyboard_rt_recorde.Scheduler.Task.Rule.{After}
use pico_keyboard_rt_recorde.Scheduler.Drains.Due.{IsPast, IsDue}
use pico_keyboard_rt_recorde.Scheduler.Drains.Turns.{loop-RanDry}

module _ {W : Type 0} {sdk : Sdk W} {cb : Callbacks W} {sent : W → List Report}
    (obs : Observes sdk cb sent) where
  -- What the code does at an empty queue leaves it empty.
  contents-run_dry :
      (y : System W)
      → IsValid y.queue
      → contents y.queue ≡ []
      → contents (run_dry sdk cb y).queue ≡ []
  unfolding end_run
  contents-run_dry y v e =
      run_dry_cases sdk cb (λ r. contents r.queue ≡ []) y
        (λ t.
          (obs.complete_keeps reason_finished (metrics (ended y.scheduler))
            (set_scheduler (ended y.scheduler) y) v e).1)
        (λ f. ap contents (queue-begin_underrun obs [] y) ∙ e)

  -- Playback makes progress: in one call of the scheduler's task, every queued report is sent, in order, and
  -- the queue is empty behind it, if every queued event and the deadline that is set are due by a time that
  -- the clock has passed, and the HID endpoint takes every report; what the scheduler calls keeps this so. The call ends by what the code does at
  -- an empty queue: it ends the run if the sequence has ended, and starts an underrun otherwise. The
  -- scheduler runs, the queue is well formed, and the SDK and the callbacks behave as `Observes` says.
  pub task_drains :
      (now : ℕ) (Late : W → Type 0) (y : System W)
      → IsGenerous sdk cb now Late
      → Late y.world
      → IsValid y.queue
      → y.scheduler.running ≡ true
      → (y.scheduler.waiting_for_event ≡ false → y.scheduler.next_deadline_us ≤ now)
      → All
          (λ (e : Event). u64 (y.scheduler.playback_start_us + e.offset_us) ≤ now)
          (contents y.queue)
      → let y' = task sdk cb y in
        (sent y'.world ≡ sent y.world ++ reports (contents y.queue))
        × (contents y'.queue ≡ [])
        × RanDry sdk cb y.scheduler y'
  unfolding task
  task_drains now Late y g l v runs deadline past =
      let h : IsPast now Late y.scheduler y = record {
        valid = v;
        past = past;
        epoch = refl;
        ending = refl;
        running = runs;
        late = l;
      } in
      let due : y.scheduler.waiting_for_event ≡ false → IsDue now Late y.scheduler y =
        λ f. record { waiting_past = h; deadline = deadline f } in
      let dry = loop-RanDry g y.scheduler (suc y.queue.count) y h due (omega arith) in
      let y' = task sdk cb y in
      let empty : contents y'.queue ≡ [] =
        ap (λ (r : System W). contents r.queue) dry.by_run_dry
        ∙ contents-run_dry dry.before dry.valid dry.played in
      let (same, _) = task_delivers obs y v in
      (
        sym (append-nil (sent y'.world)) ∙ ap (λ l. sent y'.world ++ reports l) (sym empty) ∙ same,
        empty,
        dry,
      )
