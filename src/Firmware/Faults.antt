-- ===== src/Firmware/Faults.antt =====
-- What a protocol error, a UART fault and an underrun do to the objects of pico/src/main.c.
use pico_keyboard_rt_recorde.Base.{
  ℕ, ◌≡◌, refl, ◌≢◌, ◌⊎◌, inl, inr, true, false, [], ◌∷◌, ◌++◌, arith, window-nil,
}
use pico_keyboard_rt_recorde.Protocol.{mode_pass, mode_error}
use pico_keyboard_rt_recorde.PlaybackQueue
use pico_keyboard_rt_recorde.PlaybackQueue.Refine.{contents}
use pico_keyboard_rt_recorde.Capture
use pico_keyboard_rt_recorde.Capture.Refine.{contents as captured}
use pico_keyboard_rt_recorde.SafetyRelease.{request}
use pico_keyboard_rt_recorde.Mode.{enter_error}
use pico_keyboard_rt_recorde.Mode.Abstract.{fault, apply, reported, logged}
use pico_keyboard_rt_recorde.Mode.Safety.{full_cleanup}
use pico_keyboard_rt_recorde.Scheduler.{Scheduler}
use pico_keyboard_rt_recorde.Scheduler.Run.{stop, reset_sequence}
use pico_keyboard_rt_recorde.Firmware.{
  Board, Firmware, mode_callbacks, mode_clear_queue, mode_clear_physical, mode_all_release,
  send_mode_changed, on_mode, callbacks_with, sdk,
}
use pico_keyboard_rt_recorde.Firmware.Modes.{
  after, on_mode-after, running-stop, running-mode_clear_queue,
}

-- No key, no report and no event of before the fault is left.
pub record IsStopped {E : Type 0} (y : Firmware E) : Type 0 where
  pub locked : y.world.mode ≡ mode_error
  pub idle : y.scheduler.running ≡ false
  pub unended : y.scheduler.sequence_ended ≡ false
  pub unqueued : contents y.queue ≡ []
  pub uncaptured : captured y.world.capture ≡ []
  pub owed : y.world.release.pending ≡ true
  pub flowing : y.world.flow_fault ≡ false

-- The calls that a fault makes.
logged-fault :
    (reason s : ℕ)
    → (((s ≡ mode_pass) ⊎ (s ≡ mode_error))
        × ((logged (fault reason) s).1 ≡ record { state = s; world = reported s reason ∷ [] }))
      ⊎ ((s ≢ mode_pass)
          × (s ≢ mode_error)
          × ((logged (fault reason) s).1 ≡ record {
            state = mode_error;
            world = full_cleanup ++ reported mode_error reason ∷ [];
          }))
unfolding apply enter_error
logged-fault reason s = ground arith

unended-reset_sequence :
    (s : Scheduler) → s.running ≡ false → (reset_sequence s).sequence_ended ≡ false
unfolding reset_sequence
unended-reset_sequence s h = rw h refl

module _ {E : Type 0} (board : Board E) where
  unended-mode_clear_queue :
      (y : Firmware E) → (mode_clear_queue board y).scheduler.sequence_ended ≡ false
  unfolding mode_clear_queue
  unended-mode_clear_queue y =
      unended-reset_sequence (stop (sdk board) (callbacks_with board (λ z. z)) y).scheduler
        (running-stop board y)

  stopped :
      (reason : ℕ) (y : Firmware E)
      → IsStopped (after board mode_error (full_cleanup ++ reported mode_error reason ∷ []) y)
  unfolding send_mode_changed mode_all_release mode_clear_physical request Capture.clear
  stopped reason y = record {
    locked = refl;
    idle = running-mode_clear_queue board y;
    unended = unended-mode_clear_queue y;
    unqueued = unfold mode_clear_queue in unfold PlaybackQueue.clear in window-nil _ _ _ _ refl;
    uncaptured = window-nil _ _ _ _ refl;
    owed = refl;
    flowing = unfold mode_clear_queue in refl;
  }

  -- A protocol error, a UART fault or an underrun, which differ in their reason only, stops the program in
  -- every mode but PASS and ERROR: it is then in ERROR, no run is under way, the playback queue and the
  -- capture FIFO are empty, the end of the sequence and the flow-control fault are forgotten, and a release
  -- of all keys is owed. In PASS and ERROR the fault is reported by MODE_CHANGED and changes nothing else.
  pub fault_stops_safely :
      (reason : ℕ) (y : Firmware E)
      → let y' = on_mode (enter_error (mode_callbacks board) reason) y in
        (((y.world.mode ≡ mode_pass) ⊎ (y.world.mode ≡ mode_error))
          × (y' ≡ send_mode_changed y.world.mode reason y))
        ⊎ ((y.world.mode ≢ mode_pass) × (y.world.mode ≢ mode_error) × IsStopped y')
  fault_stops_safely reason y =
      let same : on_mode (enter_error (mode_callbacks board) reason) y
          ≡ after board (logged (fault reason) y.world.mode).1.state
              (logged (fault reason) y.world.mode).1.world y =
        unfold apply in on_mode-after board (fault reason) y in
      rw same (elim (logged-fault reason y.world.mode) [
        | inl (quiet, e) ↦ rw e (inl (quiet, unfold send_mode_changed in refl))
        | inr (p, q, e) ↦ rw e (inr (p, q, stopped reason y))
      ])
