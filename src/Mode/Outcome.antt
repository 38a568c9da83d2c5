-- ===== src/Mode/Outcome.antt =====
-- The operations of pico/src/mode_state.c with any callbacks, as pico/src/main.c has them: which of them are
-- called, on what, and in which order.
use pico_keyboard_rt_recorde.Base.{
  ℕ, ◌≡◌, ◌≢◌, refl, sym, ◌⊎◌, true, false, ltb, arith, if◌then◌else◌, inl, inr,
}
use pico_keyboard_rt_recorde.Protocol.{
  mode_pass, mode_armed, mode_playing, mode_error, reason_ok, reason_invalid_target,
  reason_invalid_transition,
}
use pico_keyboard_rt_recorde.Mode.{
  Callbacks, call, call_changed, handle_mode_set, play_start, play_abort, play_finish, enter_error,
}
use pico_keyboard_rt_recorde.Mode.Abstract.{Action, set_mode, start, abort, finish, fault, apply}
use pico_keyboard_rt_recorde.Mode.Safety.{Arrow}

-- The reason that a refusal reports.
abbrev pub refusal : Action → ℕ
refusal (set_mode t) = if ltb mode_armed t then reason_invalid_target else reason_invalid_transition
refusal _ = reason_invalid_transition

-- PLAY_ABORT discards the sequence in ARMED too.
abbrev pub CleansInPlace : Action → Type 0
CleansInPlace abort = Unit
CleansInPlace _ = ⊥

abbrev pub IsStart : Action → Type 0
IsStart start = Unit
IsStart _ = ⊥

fault_cases :
    (s : ℕ)
    → (((s ≡ mode_pass) × (s ≡ mode_pass)) ⊎ ((s ≢ mode_pass) × (s ≡ mode_error)))
      ⊎ ((s ≢ mode_pass) × (s ≢ mode_error))
fault_cases s = ground arith

module _ {W : Type 0} (cb : Callbacks W) where
  -- The world behind the report, behind the cleanup of the physical side, and behind the full cleanup.
  abbrev pub told : ℕ → ℕ → W → W
  told state reason w = call_changed cb.mode_changed state reason w

  abbrev pub released : W → W
  released w = call cb.all_release (call cb.clear_physical w)

  abbrev pub emptied : W → W
  emptied w = released (call cb.clear_queue w)

  -- With any callbacks, NULL ones included, an action ends in one of four ways. The diagram has no arrow for
  -- it: it is refused, the state stays, and the refusal is the only thing that is reported. The arrow leads
  -- back to the same mode, and the action is not PLAY_ABORT: then the report with the arrow's reason is
  -- all. It is PLAY_START, from ARMED to PLAYING: physical input is cleared, the keys are released, and then
  -- it is reported, with the playback queue kept. Or it leads to another mode or is PLAY_ABORT: the playback
  -- queue is discarded, physical input is cleared, the keys are released, and then the new mode and the
  -- arrow's reason are reported.
  pub apply_outcome :
      (a : Action) (s : ℕ) (w : W)
      → let r = apply cb a (record { state = s; world = w }) in
        (((s' reason : ℕ) → ¬ Arrow s a s' reason)
          × (r ≡ (false, record { state = s; world = told s (refusal a) w })))
        ⊎ ((reason : ℕ) × Arrow s a s reason
            × (¬ CleansInPlace a)
            × (r ≡ (true, record { state = s; world = told s reason w })))
        ⊎ (IsStart a
            × Arrow s a mode_playing reason_ok
            × (r ≡ (
              true,
              record { state = mode_playing; world = told mode_playing reason_ok (released w) },
            )))
        ⊎ ((s' : ℕ) × (reason : ℕ) × Arrow s a s' reason
            × ((s' ≢ s) ⊎ CleansInPlace a)
            × (¬ IsStart a)
            × (r ≡ (true, record { state = s'; world = told s' reason (emptied w) })))
  unfolding apply handle_mode_set play_start play_abort play_finish enter_error
  apply_outcome (set_mode t) s w = ground arith
  apply_outcome start s w = ground arith
  apply_outcome abort s w = ground arith
  apply_outcome finish s w = ground arith
  apply_outcome (fault reason) s w = elim (fault_cases s) [
    | inl stays ↦ inr (inl (reason, (refl, stays), (λ x. x), ground (arith, stays)))
    | inr (p, q) ↦ inr (
        inr (
          inr (
            mode_error,
            reason,
            (refl, inr (p, refl)),
            inl (λ e. q (sym e)),
            (λ x. x),
            ground (arith, p, q),
          )))
  ]
