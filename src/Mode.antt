-- ===== src/Mode.antt =====
-- pico/include/mode_state.h and pico/src/mode_state.c: the state machine of the modes PASS, RECORD,
-- ARMED, PLAYING and ERROR. Its callbacks act on the caller's state `W`, which stands for whatever the
-- C callbacks reach through `user` and the file-level objects. `none` is a NULL callback.
pub mod Abstract
pub mod Safety
pub mod Outcome
use pico_keyboard_rt_recorde.Base.{
  ℕ, ◌||◌, ◌&&◌, not, Bool, true, false, Option, none, some, ltb, ◌==◌, if◌then◌else◌,
}
use pico_keyboard_rt_recorde.Protocol.{
  mode_pass, mode_record, mode_armed, mode_playing, mode_error, reason_ok,
  reason_invalid_transition, reason_invalid_target, reason_protocol_error, reason_uart_fault,
  reason_aborted, reason_underrun, reason_finished,
}

-- `pico_mode_state_callbacks_t`
pub record Callbacks (W : Type 0) : Type 0 where
  pub all_release : Option (W → W)
  pub clear_physical : Option (W → W)
  pub clear_queue : Option (W → W)
  pub mode_changed : Option (ℕ → ℕ → W → W)

-- The mode object's `state` beside the state that the callbacks act on.
pub record Moded (W : Type 0) : Type 0 where
  pub state : ℕ
  pub world : W

abbrev pub init : {W : Type 0} → W → Moded W
init w = record { state = mode_pass; world = w }

unfoldable pub accepts_physical : ℕ → Bool
accepts_physical state = state == mode_pass || state == mode_record

unfoldable pub is_recording : ℕ → Bool
is_recording state = state == mode_record

-- `if (callback != NULL) callback(user)`
abbrev pub call : {W : Type 0} → Option (W → W) → W → W
call none w = w
call (some f) w = f w

abbrev pub call_changed : {W : Type 0} → Option (ℕ → ℕ → W → W) → ℕ → ℕ → W → W
call_changed none state reason w = w
call_changed (some f) state reason w = f state reason w

module _ {W : Type 0} (cb : Callbacks W) where
  notify : ℕ → Moded W → Moded W
  notify reason m = record m { world = call_changed cb.mode_changed m.state reason m.world }

  clear_and_release : Moded W → Moded W
  clear_and_release m = record m { world = call cb.all_release (call cb.clear_physical m.world) }

  clear_release_and_queue : Moded W → Moded W
  unfolding clear_and_release
  clear_release_and_queue m = clear_and_release (record m { world = call cb.clear_queue m.world })

  -- Into a state behind the cleanup of everything, with its report.
  enter : ℕ → ℕ → Moded W → Moded W
  unfolding notify clear_release_and_queue
  enter target reason m = notify reason (record (clear_release_and_queue m) { state = target })

  unfoldable pub handle_mode_set : ℕ → Moded W → Bool × Moded W
  unfolding notify enter
  handle_mode_set target m =
      if ltb mode_armed target
      then (false, notify reason_invalid_target m)
      else if target == mode_pass
      then (
        true,
        if not (m.state == mode_pass) then enter mode_pass reason_ok m else notify reason_ok m,
      )
      else if target == m.state
      then (true, notify reason_ok m)
      else if (target == mode_record || target == mode_armed) && m.state == mode_pass
      then (true, enter target reason_ok m)
      else (false, notify reason_invalid_transition m)

  -- The queue that was loaded in ARMED stays.
  unfoldable pub play_start : Moded W → Bool × Moded W
  unfolding notify clear_and_release
  play_start m =
      if not (m.state == mode_armed)
      then (false, notify reason_invalid_transition m)
      else (true, notify reason_ok (record (clear_and_release m) { state = mode_playing }))

  unfoldable pub play_abort : Moded W → Bool × Moded W
  unfolding notify enter
  play_abort m =
      if not (m.state == mode_armed) && not (m.state == mode_playing)
      then (false, notify reason_invalid_transition m)
      else (true, enter mode_armed reason_aborted m)

  unfoldable pub play_finish : Moded W → Bool × Moded W
  unfolding notify enter
  play_finish m =
      if not (m.state == mode_playing)
      then (false, notify reason_invalid_transition m)
      else (true, enter mode_armed reason_finished m)

  unfoldable pub enter_error : ℕ → Moded W → Moded W
  unfolding notify enter
  enter_error reason m =
      if not (m.state == mode_pass) && not (m.state == mode_error)
      then enter mode_error reason m
      else notify reason m

  unfoldable pub protocol_error : Moded W → Moded W
  unfolding enter_error
  protocol_error = enter_error reason_protocol_error

  unfoldable pub uart_fault : Moded W → Moded W
  unfolding enter_error
  uart_fault = enter_error reason_uart_fault

  unfoldable pub underrun_fault : Moded W → Moded W
  unfolding enter_error
  underrun_fault = enter_error reason_underrun
