-- ===== src/Firmware/Closed.antt =====
-- An induction principle for pico/src/main.c: what the elementary changes of the program's objects keep,
-- every operation of the main program keeps.
use pico_keyboard_rt_recorde.Base.{
  ℕ, ◌≡◌, not, Bool, true, false, none, some, List, [], ◌∷◌, if◌then◌else◌,
}
use pico_keyboard_rt_recorde.Protocol.{
  reason_aborted, mode_changed, play_metrics, queue_event, queue_command_allowed,
}
use pico_keyboard_rt_recorde.Protocol.Codec.{Bytes}
use pico_keyboard_rt_recorde.PlaybackQueue
use pico_keyboard_rt_recorde.PlaybackQueue.{Event, Queue, free_capacity}
use pico_keyboard_rt_recorde.Capture
use pico_keyboard_rt_recorde.SafetyRelease.{SafetyRelease, request}
use pico_keyboard_rt_recorde.Mode.Abstract.{
  Action, apply, Effect, released, cleared_physical, cleared_queue, reported, logged, replay,
  interpret,
}
use pico_keyboard_rt_recorde.Scheduler.{Scheduler}
use pico_keyboard_rt_recorde.Scheduler.Run.{
  end_run, ended, metrics, stop, set_scheduler, reset_sequence,
}
use pico_keyboard_rt_recorde.Firmware.{
  Board, Firmware, send_frame, on_world, mode_all_release, mode_clear_physical, mode_clear_queue,
  send_mode_changed, report_completion, sdk, callbacks_with, mode_callbacks, on_mode,
}
use pico_keyboard_rt_recorde.Firmware.Modes.{on_mode-after}

-- The scheduler, the owed release, the flow-control fault and the hardware may change freely; the transport,
-- the capture and the queue change by their operations, and an event is pushed in ARMED and PLAYING only.
pub record Elementary {E : Type 0} (P : Firmware E → Type 0) : Type 0 where
  pub others :
      (s : Scheduler) (r : SafetyRelease) (f : Bool) (b : E) (y : Firmware E)
      → P y
      → P (record {
        scheduler = s;
        queue = y.queue;
        world = record y.world { release = r; flow_fault = f; board = b };
      })
  pub framed :
      (type n : ℕ) (payload : Bytes) (y : Firmware E)
      → P y
      → P (on_world (λ w. (send_frame type payload n w).1) y)
  pub capture_cleared :
      (y : Firmware E) → P y → P (on_world (λ w. record w { capture = Capture.clear w.capture }) y)
  pub capture_popped :
      (y : Firmware E)
      → P y
      → P (on_world (λ w. record w { capture = (Capture.pop w.capture).1 }) y)
  pub capture_marked :
      (y : Firmware E)
      → P y
      → P (on_world (λ w. record w { capture = Capture.mark_head_recorded w.capture }) y)
  pub queue_cleared : (y : Firmware E) → P y → P (record y { queue = PlaybackQueue.clear y.queue })
  pub queue_popped : (y : Firmware E) → P y → P (record y { queue = (PlaybackQueue.pop y.queue).1 })
  pub queue_pushed :
      (t : ℕ) (r : Bytes) (n : ℕ) (y : Firmware E)
      → queue_command_allowed queue_event y.world.mode ≡ true
      → P y
      → P (record y { queue = (PlaybackQueue.push t r n y.queue).1 })

module _ {E : Type 0} (P : Firmware E → Type 0) (closed : Elementary P) where
  -- Both ends of a test.
  pub if_rule : (b : Bool) (x y : Firmware E) → P x → P y → P (if b then x else y)
  if_rule true x y c d = c
  if_rule false x y c d = d

  pub board_rule : (b : E) (y : Firmware E) → P y → P (on_world (λ w. record w { board = b }) y)
  board_rule b y h = closed.others y.scheduler y.world.release y.world.flow_fault b y h

  pub scheduler_rule : (s : Scheduler) (y : Firmware E) → P y → P (set_scheduler s y)
  scheduler_rule s y h = closed.others s y.world.release y.world.flow_fault y.world.board y h

  pub flow_rule :
      (f : Bool) (y : Firmware E) → P y → P (on_world (λ w. record w { flow_fault = f }) y)
  flow_rule f y h = closed.others y.scheduler y.world.release f y.world.board y h

  pub report_completion_rule :
      (reason : ℕ) (m : _) (y : Firmware E) → P y → P (report_completion reason m y)
  unfolding report_completion
  report_completion_rule reason m y h =
      closed.framed play_metrics 33 _ _ (closed.framed _ 0 none y h)

module _ {E : Type 0} (P : Firmware E → Type 0) (closed : Elementary P) (board : Board E) where
  -- A world that is reached by a cancelled alarm, or not.
  pub cancel_rule :
      (b : Bool) (s : Scheduler) (y : Firmware E)
      → P y
      → P (record {
        scheduler = s;
        queue = y.queue;
        world = if b then (sdk board).cancel_alarm y.scheduler.alarm_id y.world else y.world;
      })
  cancel_rule true s y h =
      closed.others s y.world.release y.world.flow_fault
        (board.cancel_alarm y.scheduler.alarm_id y.world.board) y h
  cancel_rule false s y h = scheduler_rule P closed s y h

  stop_rule : (y : Firmware E) → P y → P (stop (sdk board) (callbacks_with board (λ z. z)) y)
  unfolding stop end_run
  stop_rule y h =
      let s = record y.scheduler { alarm_armed = false; alarm_fired = false } in
      if_rule P closed (not y.scheduler.running) y _ h (
        report_completion_rule P closed reason_aborted (metrics (ended s)) _
          (cancel_rule y.scheduler.alarm_armed (ended s) y h))

  mode_clear_queue_rule : (y : Firmware E) → P y → P (mode_clear_queue board y)
  unfolding mode_clear_queue
  mode_clear_queue_rule y h =
      let y' = stop (sdk board) (callbacks_with board (λ z. z)) y in
      closed.queue_cleared _ (
        closed.others (reset_sequence y'.scheduler) y'.world.release false y'.world.board y'
          (stop_rule y h))

  effect_rule : (e : Effect) (y : Firmware E) → P y → P (interpret (mode_callbacks board) e y)
  unfolding mode_all_release mode_clear_physical send_mode_changed
  effect_rule released y h =
      closed.others y.scheduler (request y.world.release) y.world.flow_fault y.world.board y h
  effect_rule cleared_physical y h = closed.capture_cleared y h
  effect_rule cleared_queue y h = mode_clear_queue_rule y h
  effect_rule (reported s r) y h = closed.framed mode_changed 2 (some (s ∷ r ∷ [])) y h

  replay_rule : (es : List Effect) (y : Firmware E) → P y → P (replay (mode_callbacks board) es y)
  replay_rule [] y h = h
  replay_rule (e ∷ es) y h =
      replay_rule es (interpret (mode_callbacks board) e y) (effect_rule e y h)

  -- When the mode may change freely too, every operation of the mode object keeps what the elementary
  -- changes keep.
  pub on_mode_rule :
      ((m : ℕ) (y : Firmware E) → P y → P (on_world (λ w. record w { mode = m }) y))
      → (a : Action) (y : Firmware E) → P y
      → P (on_mode (λ m. (apply (mode_callbacks board) a m).1) y)
  on_mode_rule moded a y h =
      let m = (logged a y.world.mode).1 in
      rw (on_mode-after board a y)
        (moded m.state (replay (mode_callbacks board) m.world y) (replay_rule m.world y h))

-- What the elementary changes and the operations of the mode object keep.
pub record Closed {E : Type 0} (board : Board E) (P : Firmware E → Type 0) : Type 0 where
  pub elementary : Elementary P
  pub moded :
      (a : Action) (y : Firmware E)
      → P y
      → P (on_mode (λ m. (apply (mode_callbacks board) a m).1) y)
