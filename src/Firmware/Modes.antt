-- ===== src/Firmware/Modes.antt =====
-- What the mode changes of pico/src/mode_state.c do to the playback run, with the callbacks of
-- pico/src/main.c.
use pico_keyboard_rt_recorde.Base.{
  ℕ, ◌≡◌, refl, ap, ◌∙◌, ◌⊎◌, inl, inr, Bool, false, List, [], ◌∷◌, ◌++◌, arith,
}
use pico_keyboard_rt_recorde.Protocol.{mode_playing}
use pico_keyboard_rt_recorde.Mode.{Moded}
use pico_keyboard_rt_recorde.Mode.Abstract.{
  Action, apply, Effect, reported, logged, replay, apply-replay,
}
use pico_keyboard_rt_recorde.Mode.Safety.{full_cleanup, reason_of, logged-cleanup}
use pico_keyboard_rt_recorde.Scheduler.{Scheduler}
use pico_keyboard_rt_recorde.Scheduler.Run.{stop, end_run, ended, reset_sequence}
use pico_keyboard_rt_recorde.Firmware.{
  Board, Firmware, mode_callbacks, mode_clear_queue, mode_clear_physical, mode_all_release,
  send_mode_changed, on_mode, callbacks_with, sdk, report_completion,
}

-- A run is under way in PLAYING only.
abbrev pub IsConsistent : {E : Type 0} → Firmware E → Type 0
IsConsistent y = (y.scheduler.running ≡ false) ⊎ (y.world.mode ≡ mode_playing)

-- A step that neither starts a run nor changes the mode.
pub keep-IsConsistent :
    {E : Type 0} (y y' : Firmware E)
    → y'.scheduler.running ≡ y.scheduler.running
    → y'.world.mode ≡ y.world.mode
    → IsConsistent y
    → IsConsistent y'
keep-IsConsistent y y' r m (inl h) = inl (r ∙ h)
keep-IsConsistent y y' r m (inr h) = inr (m ∙ h)

pub running-reset_sequence : (s : Scheduler) → (reset_sequence s).running ≡ s.running
unfolding reset_sequence
running-reset_sequence s = ground arith

module _ {E : Type 0} (board : Board E) where
  -- A run that is stopped is not running.
  pub running-stop :
      (y : Firmware E)
      → (stop (sdk board) (callbacks_with board (λ z. z)) y).scheduler.running ≡ false
  unfolding stop end_run ended report_completion
  running-stop y = ground arith

  pub running-mode_clear_queue :
      (y : Firmware E) → (mode_clear_queue board y).scheduler.running ≡ false
  unfolding mode_clear_queue
  running-mode_clear_queue y =
      running-reset_sequence (stop (sdk board) (callbacks_with board (λ z. z)) y).scheduler
      ∙ running-stop y

  -- The program behind the calls `l`, in the mode `s`.
  abbrev pub after : ℕ → List Effect → Firmware E → Firmware E
  after s l y =
      let z = replay (mode_callbacks board) l y in record z { world = record z.world { mode = s } }

  pub on_mode-after :
      (a : Action) (y : Firmware E)
      → on_mode (λ m. (apply (mode_callbacks board) a m).1) y
        ≡ after (logged a y.world.mode).1.state (logged a y.world.mode).1.world y
  unfolding on_mode
  on_mode-after a y =
      ap
        (λ (r : Bool × Moded (Firmware E)). record r.1.world {
          world = record r.1.world.world { mode = r.1.state };
        })
        (apply-replay (mode_callbacks board) a y.world.mode y)

  running-report :
      (s t r : ℕ) (y : Firmware E)
      → (after s (reported t r ∷ []) y).scheduler.running ≡ y.scheduler.running
  unfolding send_mode_changed
  running-report s t r y = refl

  running-full :
      (s t r : ℕ) (y : Firmware E)
      → (after s (full_cleanup ++ reported t r ∷ []) y).scheduler.running ≡ false
  unfolding send_mode_changed mode_all_release mode_clear_physical
  running-full s t r y = running-mode_clear_queue y

  -- No change of mode leaves a run under way outside PLAYING.
  pub on_mode-IsConsistent :
      (a : Action) (y : Firmware E)
      → IsConsistent y
      → IsConsistent (on_mode (λ m. (apply (mode_callbacks board) a m).1) y)
  on_mode-IsConsistent a y c =
      let m = (logged a y.world.mode).1 in
      let r = reason_of m.world in
      rw (on_mode-after a y) (elim (logged-cleanup a y.world.mode) [
        | inl (_, same, log) ↦
            rw (log, same)
              (keep-IsConsistent y (after y.world.mode (reported y.world.mode r ∷ []) y)
                (running-report y.world.mode y.world.mode r y) refl c)
        | inr (inl (_, same, log)) ↦
            rw (log, same)
              (keep-IsConsistent y (after y.world.mode (reported y.world.mode r ∷ []) y)
                (running-report y.world.mode y.world.mode r y) refl c)
        | inr (inr (inl (_, _, playing, log))) ↦ inr playing
        | inr (inr (inr (_, log))) ↦ inl (rw log (running-full m.state m.state r y))
      ])
