-- ===== src/Firmware/Playback.antt =====
-- The playback scheduler with the callbacks of pico/src/main.c and the sender of pico/src/hid_keyboard_device.c.
use pico_keyboard_rt_recorde.Base.{
  ℕ, ◌≡◌, refl, ◌∙◌, ap, Bool, true, false, List, [], ◌∷◌, ◌++◌, if◌then◌else◌, inl, inr, ℤ, ◌==◌,
  arith, Bool-cases, window-nil,
}
use pico_keyboard_rt_recorde.Protocol.{reason_finished}
use pico_keyboard_rt_recorde.Hid.{Report, report_bytes}
use pico_keyboard_rt_recorde.PlaybackQueue
use pico_keyboard_rt_recorde.PlaybackQueue.{Queue, IsValid, clear-IsValid}
use pico_keyboard_rt_recorde.PlaybackQueue.Refine.{contents}
use pico_keyboard_rt_recorde.Mode.Abstract.{
  Effect, released, cleared_physical, cleared_queue, reported, interpret, replay, finish, apply,
  logged,
}
use pico_keyboard_rt_recorde.Scheduler.{Metrics}
use pico_keyboard_rt_recorde.Scheduler.Run.{stop, end_run, call_complete}
use pico_keyboard_rt_recorde.Scheduler.Task.{task}
use pico_keyboard_rt_recorde.Scheduler.Delivery.{Observes, stream, task_delivers}
use pico_keyboard_rt_recorde.Firmware.{
  Board, World, Firmware, send_frame, send_report, send_boot_report, send_buffer_status,
  playback_underrun, playback_buffer_available, report_completion, finish_mode, mode_clear_queue,
  mode_clear_physical, mode_all_release, send_mode_changed, mode_callbacks, scheduler_callbacks,
  callbacks_with, sdk,
}
use pico_keyboard_rt_recorde.Firmware.Modes.{on_mode-after}

-- `out` sees the reports that TinyUSB has taken, oldest first; nothing else on the board changes them.
pub record HidWired {E : Type 0} (board : Board E) (out : E → List Report) : Type 0 where
  pub taken :
      (r : Report) (e : E)
      → out (board.tud_hid_report (report_bytes r) e).1
        ≡ (if (board.tud_hid_report (report_bytes r) e).0 then out e ++ r ∷ [] else out e)
  pub asked : (e : E) → out (board.tud_hid_ready e).1 ≡ out e
  pub timed : (e : E) → out (board.time_us_64 e).1 ≡ out e
  pub armed : (t : ℕ) (e : E) → out (board.add_alarm_at t e).1 ≡ out e
  pub cancelled : (id : ℤ) (e : E) → out (board.cancel_alarm id e) ≡ out e
  pub interrupted : (e : E) → out (board.alarm_interrupt e).1 ≡ out e

module _ {E : Type 0} (board : Board E) (out : E → List Report) (wired : HidWired board out) where
  abbrev sent : World E → List Report
  sent w = out w.board

  pub send_delivers :
      (r : Report) (w : World E)
      → let (taken, w') = send_boot_report board r w in
        sent w' ≡ (if taken then sent w ++ r ∷ [] else sent w)
  unfolding send_boot_report send_report
  send_delivers r w =
      let e = (board.tud_hid_ready w.board).1 in
      let same = wired.asked w.board in
      elim (Bool-cases (board.tud_hid_ready w.board).0) [
        | inr n ↦ rw n same
        | inl y ↦ rw y (elim (Bool-cases (board.tud_hid_report (report_bytes r) e).0) [
          | inl t ↦ rw t ((wired.taken r e ∙ rw t refl) ∙ ap (λ l. l ++ r ∷ []) same)
          | inr f ↦ rw f ((wired.taken r e ∙ rw f refl) ∙ same)
        ])
      ]

  underrun_keeps : (t n : ℕ) (w : World E) → sent (playback_underrun t n w) ≡ sent w
  unfolding playback_underrun send_frame
  underrun_keeps t n w = ground arith

  buffer_keeps : (q : Queue) (w : World E) → sent (playback_buffer_available q w) ≡ sent w
  unfolding playback_buffer_available send_buffer_status send_frame
  buffer_keeps q w = ground arith

  -- An empty queue, and the reports `l` taken.
  record Quiet (l : List Report) (y : Firmware E) : Type 0 where
    valid : IsValid y.queue
    empty : contents y.queue ≡ []
    same : sent y.world ≡ l

  sent-stop :
      (y : Firmware E)
      → sent (stop (sdk board) (callbacks_with board (λ z. z)) y).world ≡ sent y.world
  unfolding stop end_run report_completion send_frame
  sent-stop y = ground (arith, wired.cancelled y.scheduler.alarm_id y.world.board)

  Quiet-effect :
      (l : List Report) (e : Effect) (y : Firmware E)
      → Quiet l y
      → Quiet l (interpret (mode_callbacks board) e y)
  unfolding mode_all_release mode_clear_physical mode_clear_queue send_mode_changed send_frame
  Quiet-effect l released y h = record { valid = h.valid; empty = h.empty; same = h.same }
  Quiet-effect l cleared_physical y h = record { valid = h.valid; empty = h.empty; same = h.same }
  Quiet-effect l cleared_queue y h = record {
    valid = clear-IsValid _;
    empty = unfold PlaybackQueue.clear in window-nil _ _ _ _ refl;
    same = sent-stop y ∙ h.same;
  }
  Quiet-effect l (reported s r) y h = record { valid = h.valid; empty = h.empty; same = h.same }

  Quiet-replay :
      (l : List Report) (es : List Effect) (y : Firmware E)
      → Quiet l y
      → Quiet l (replay (mode_callbacks board) es y)
  Quiet-replay l [] y h = h
  Quiet-replay l (e ∷ es) y h =
      Quiet-replay l es (interpret (mode_callbacks board) e y) (Quiet-effect l e y h)

  Quiet-finish_mode : (l : List Report) (y : Firmware E) → Quiet l y → Quiet l (finish_mode board y)
  unfolding finish_mode
  Quiet-finish_mode l y h =
      let m = (logged finish y.world.mode).1 in
      let k = Quiet-replay l m.world y h in
      let z = replay (mode_callbacks board) m.world y in
      let kept : Quiet l (record z { world = record z.world { mode = m.state } }) = record {
        valid = k.valid;
        empty = k.empty;
        same = k.same;
      } in
      unfold apply in rw (on_mode-after board finish y) kept

  Quiet-report :
      (l : List Report) (reason : ℕ) (m : Metrics) (y : Firmware E)
      → Quiet l y
      → Quiet l (report_completion reason m y)
  unfolding report_completion send_frame
  Quiet-report l reason m y h = record { valid = h.valid; empty = h.empty; same = h.same }

  Quiet-either :
      (l : List Report) (b : Bool) (x y : Firmware E)
      → Quiet l x
      → Quiet l y
      → Quiet l (if b then x else y)
  Quiet-either l true x y h k = h
  Quiet-either l false x y h k = k

  Quiet-complete :
      (l : List Report) (reason : ℕ) (m : Metrics) (y : Firmware E)
      → Quiet l y
      → Quiet l (call_complete (scheduler_callbacks board).on_complete reason m y)
  Quiet-complete l reason m y h =
      let y' = report_completion reason m y in
      let k = Quiet-report l reason m y h in
      Quiet-either l (reason == reason_finished) (finish_mode board y') y'
        (Quiet-finish_mode l y' k) k

  -- The callbacks of the main program are such as the scheduler's theorem asks for.
  firmware-Observes : Observes (sdk board) (scheduler_callbacks board) sent
  firmware-Observes = record {
    time_keeps = λ w. wired.timed w.board;
    alarm_keeps = λ t w. wired.armed t w.board;
    cancel_keeps = λ w id. wired.cancelled id w.board;
    interrupt_keeps = λ w. wired.interrupted w.board;
    send_delivers = send_delivers;
    underrun_keeps = underrun_keeps;
    buffer_keeps = buffer_keeps;
    complete_keeps = λ reason m y v e.
        let k =
          Quiet-complete (sent y.world) reason m y (record { valid = v; empty = e; same = refl }) in
        (k.valid, k.empty, k.same);
  }

  -- A call of the scheduler's task in the main program, with its own callbacks, sends queued reports to the PC
  -- only, from the head on, in order, and takes out of the queue exactly those that TinyUSB has taken, also
  -- when it ends the run, changes the mode or reports an underrun: the reports taken so far followed by
  -- those still queued are the same list before and after, and the queue stays valid. The queue is valid
  -- before, and the board's reports change by an accepted report only.
  pub firmware_delivers :
      (y : Firmware E)
      → IsValid y.queue
      → let y' = task (sdk board) (scheduler_callbacks board) y in
        (stream (λ w. out w.board) y' ≡ stream (λ w. out w.board) y) × IsValid y'.queue
  firmware_delivers y v = task_delivers firmware-Observes y v
