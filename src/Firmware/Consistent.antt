-- ===== src/Firmware/Consistent.antt =====
-- The scheduler's task and the start of a run in pico/src/main.c keep a playback run inside the mode PLAYING.
use pico_keyboard_rt_recorde.Base.{
  ℕ, ◌≡◌, refl, inl, inr, Bool, true, false, some, if◌then◌else◌, arith, leb, ◌-◌, u16, ℤ,
}
use pico_keyboard_rt_recorde.Protocol.{mode_playing, reason_finished}
use pico_keyboard_rt_recorde.PlaybackQueue
use pico_keyboard_rt_recorde.PlaybackQueue.{Event, Queue, peek, free_capacity}
use pico_keyboard_rt_recorde.Mode.Abstract.{finish, apply}
use pico_keyboard_rt_recorde.Scheduler.{Scheduler}
use pico_keyboard_rt_recorde.Scheduler.Samples.{record_lateness}
use pico_keyboard_rt_recorde.Scheduler.Run.{
  set_world, drop_alarm, set_deadline, run_dry, end_run, ended, begin_underrun, metrics, start,
  fresh_run, arm_next, set_scheduler,
}
use pico_keyboard_rt_recorde.Scheduler.Task.{
  exchange_alarm, read_clock, complete_dispatch, task, call_buffer_available,
}
use pico_keyboard_rt_recorde.Scheduler.Task.Cases.{run_dry_cases}
use pico_keyboard_rt_recorde.Scheduler.Task.Rule.{Keeps, After, arm_next_rule, task_rule}
use pico_keyboard_rt_recorde.Firmware.{
  Board, World, Firmware, scheduler_callbacks, sdk, finish_mode, report_completion,
  playback_underrun, playback_buffer_available, send_frame, send_buffer_status, send_boot_report,
  send_report,
}
use pico_keyboard_rt_recorde.Firmware.Modes.{IsConsistent, keep-IsConsistent, on_mode-IsConsistent}

running-record_lateness : (late : ℤ) (s : Scheduler) → (record_lateness late s).running ≡ s.running
unfolding record_lateness
running-record_lateness late s = ground arith

module _ {E : Type 0} where
  mode-playback_underrun : (t n : ℕ) (w : World E) → (playback_underrun t n w).mode ≡ w.mode
  unfolding playback_underrun send_frame
  mode-playback_underrun t n w = ground arith

  mode-buffer_available : (q : Queue) (w : World E) → (playback_buffer_available q w).mode ≡ w.mode
  unfolding playback_buffer_available send_buffer_status send_frame
  mode-buffer_available q w = ground arith

module _ {E : Type 0} (board : Board E) where
  pub mode-send_boot_report : (r : _) (w : World E) → (send_boot_report board r w).1.mode ≡ w.mode
  unfolding send_boot_report send_report
  mode-send_boot_report r w = ground arith

  mode-grant :
      (b : Bool) (q : Queue) (w : World E)
      → (if b then call_buffer_available (some playback_buffer_available) q w else w).mode ≡ w.mode
  mode-grant true q w = mode-buffer_available q w
  mode-grant false q w = refl

  IsConsistent-drop_alarm :
      (y : Firmware E) → IsConsistent y → IsConsistent (drop_alarm (sdk board) y)
  unfolding drop_alarm
  IsConsistent-drop_alarm y c =
      keep-IsConsistent y (drop_alarm (sdk board) y) (ground arith) (ground arith) c

  IsConsistent-set_deadline :
      (e : Event) (y : Firmware E) → IsConsistent y → IsConsistent (set_deadline (sdk board) e y)
  unfolding set_deadline
  IsConsistent-set_deadline e y c =
      keep-IsConsistent y (set_deadline (sdk board) e y) (ground arith) (ground arith) c

  IsConsistent-begin_underrun :
      (y : Firmware E)
      → IsConsistent y
      → IsConsistent (begin_underrun (sdk board) (scheduler_callbacks board) y)
  unfolding begin_underrun
  IsConsistent-begin_underrun y c =
      let (now, w) = (sdk board).time_us_64 y.world in
      let from = y.scheduler.playback_start_us in
      let elapsed = if leb from now then now - from else 0 in
      keep-IsConsistent y (begin_underrun (sdk board) (scheduler_callbacks board) y) (ground arith)
        (ground (arith, mode-playback_underrun elapsed (u16 (free_capacity y.queue)) w)) c

  -- A finished run is reported, and then the mode changes.
  IsConsistent-end_run :
      (y : Firmware E) → IsConsistent (end_run (scheduler_callbacks board) reason_finished y)
  unfolding end_run finish_mode report_completion
  IsConsistent-end_run y =
      unfold apply in
      on_mode-IsConsistent board finish
        (report_completion reason_finished (metrics (ended y.scheduler))
          (set_scheduler (ended y.scheduler) y))
        (inl (unfold ended in refl))

  IsConsistent-run_dry :
      (y : Firmware E)
      → IsConsistent y
      → IsConsistent (run_dry (sdk board) (scheduler_callbacks board) y)
  IsConsistent-run_dry y c =
      run_dry_cases (sdk board) (scheduler_callbacks board) IsConsistent y
        (λ _. IsConsistent-end_run y) (λ _. IsConsistent-begin_underrun y c)

  IsConsistent-complete_dispatch :
      (y : Firmware E)
      → IsConsistent y
      → IsConsistent (complete_dispatch (sdk board) (scheduler_callbacks board) y)
  unfolding complete_dispatch
  IsConsistent-complete_dispatch y c =
      keep-IsConsistent y (complete_dispatch (sdk board) (scheduler_callbacks board) y)
        (running-record_lateness _ y.scheduler) (mode-grant _ (PlaybackQueue.pop y.queue).1 y.world)
        c

  IsConsistent-sent :
      (e : Event) (y : Firmware E)
      → IsConsistent y
      → IsConsistent (set_world (send_boot_report board e.report y.world).1 y)
  IsConsistent-sent e y c =
      keep-IsConsistent y (set_world (send_boot_report board e.report y.world).1 y) refl
        (mode-send_boot_report e.report y.world) c

  IsConsistent-Keeps :
      Keeps (sdk board) (scheduler_callbacks board) IsConsistent IsConsistent IsConsistent
  unfolding exchange_alarm read_clock
  IsConsistent-Keeps = record {
    weaken = λ y c. c;
    rest = λ y c. c;
    dropped = IsConsistent-drop_alarm;
    dry = λ y c e. IsConsistent-run_dry y c;
    armed = λ y e c f. IsConsistent-set_deadline e y c;
    exchanged = λ y c. c;
    clocked = λ y c. c;
    refused = λ y e c f t. IsConsistent-sent e y c;
    taken = λ y e c f t.
        IsConsistent-complete_dispatch (set_world (send_boot_report board e.report y.world).1 y)
          (IsConsistent-sent e y c);
  }

  pub IsConsistent-task :
      (y : Firmware E)
      → IsConsistent y
      → IsConsistent (task (sdk board) (scheduler_callbacks board) y)
  IsConsistent-task y c =
      task_rule IsConsistent-Keeps y (record { base = c; ready = λ _. c; idle = λ _. c })

  -- Both ends of a test.
  pub if_IsConsistent :
      (b : Bool) (x y : Firmware E)
      → IsConsistent x
      → IsConsistent y
      → IsConsistent (if b then x else y)
  if_IsConsistent true x y c d = c
  if_IsConsistent false x y c d = d

  After-IsConsistent :
      (r : Bool × Firmware E) → After IsConsistent IsConsistent r → IsConsistent r.1
  After-IsConsistent (true, y) h = h
  After-IsConsistent (false, y) h = h

  pub start-IsConsistent :
      (t : ℕ) (y : Firmware E)
      → y.world.mode ≡ mode_playing
      → IsConsistent (start (sdk board) (scheduler_callbacks board) t y)
  unfolding start
  start-IsConsistent t y m =
      let y' = set_scheduler (fresh_run t y.scheduler) y in
      let r = arm_next (sdk board) (scheduler_callbacks board) y' in
      if_IsConsistent y.scheduler.running y r.1 (inr m)
        (After-IsConsistent r (arm_next_rule IsConsistent-Keeps y' (inr m)))
