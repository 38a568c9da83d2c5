-- ===== src/Firmware/Playing.antt =====
-- Every command and every turn of the loop of pico/src/main.c keep a playback run inside PLAYING.
use pico_keyboard_rt_recorde.Base.{
  ℕ, zero, suc, ◌≡◌, refl, ◌∙◌, inl, inr, true, some, arith, Bool-cases, Option-cases, get_or,
}
use pico_keyboard_rt_recorde.Protocol.{Frame, pong, mode_playing}
use pico_keyboard_rt_recorde.Capture.{Capture, peek, pop}
use pico_keyboard_rt_recorde.Capture
use pico_keyboard_rt_recorde.Mode
use pico_keyboard_rt_recorde.Mode.{Moded}
use pico_keyboard_rt_recorde.Mode.Abstract.{set_mode, start, abort, apply}
use pico_keyboard_rt_recorde.Dispatch.{Output, call_report, call_event, dispatch}
use pico_keyboard_rt_recorde.Dispatch.Rule.{dispatch_rule}
use pico_keyboard_rt_recorde.Transport.Commands.{pop_command}
use pico_keyboard_rt_recorde.Firmware.{
  Board, Firmware, mode_callbacks, on_mode, on_world, send_frame, send_status,
}
use pico_keyboard_rt_recorde.Firmware.Modes.{IsConsistent, on_mode-IsConsistent}
use pico_keyboard_rt_recorde.Firmware.Commands.{begin_playback, handle_play_start, dispatch_command}
use pico_keyboard_rt_recorde.Firmware.QueueCommands.{
  dispatch_queue_command-IsConsistent, protocol_error-IsConsistent,
}
use pico_keyboard_rt_recorde.Firmware.Consistent.{start-IsConsistent}
use pico_keyboard_rt_recorde.Firmware.Loop.{run_commands}

-- An accepted PLAY_START leads to PLAYING.
state-play_start :
    {W : Type 0} (cb : Mode.Callbacks W) (m : Moded W)
    → (Mode.play_start cb m).0 ≡ true
    → (Mode.play_start cb m).1.state ≡ mode_playing
unfolding Mode.play_start
state-play_start cb m h = ground arith

module _ {E : Type 0} (board : Board E) where
  begin_playback-IsConsistent :
      (t : ℕ) (y : Firmware E)
      → y.world.mode ≡ mode_playing
      → IsConsistent (begin_playback board t y)
  unfolding begin_playback send_frame
  begin_playback-IsConsistent t y m = start-IsConsistent board t _ m

  handle_play_start-IsConsistent :
      (y : Firmware E) → IsConsistent y → IsConsistent (handle_play_start board y)
  unfolding handle_play_start on_mode
  handle_play_start-IsConsistent y c =
      let (t, b) = board.time_us_64 y.world.board in
      let y' = record y { world = record y.world { board = b } } in
      let m0 : Moded (Firmware E) = record { state = y'.world.mode; world = y' } in
      let kept : IsConsistent (on_mode (λ m. (Mode.play_start (mode_callbacks board) m).1) y') =
        unfold apply in on_mode-IsConsistent board start y' c in
      elim (Bool-cases (Mode.play_start (mode_callbacks board) m0).0) [
        | inl a ↦
            rw a (begin_playback-IsConsistent t _ (state-play_start (mode_callbacks board) m0 a))
        | inr r ↦ rw r kept
      ]

  pub dispatch_command-IsConsistent :
      (f : Frame) (y : Firmware E) → IsConsistent y → IsConsistent (dispatch_command board f y)
  unfolding dispatch_command send_status send_frame
  dispatch_command-IsConsistent f y c =
      let target = get_or f.payload 0 0 in
      let set : IsConsistent
          (on_mode (λ m. (Mode.handle_mode_set (mode_callbacks board) target m).1) y) =
        unfold apply in on_mode-IsConsistent board (set_mode target) y c in
      let aborted : IsConsistent (on_mode (λ m. (Mode.play_abort (mode_callbacks board) m).1) y) =
        unfold apply in on_mode-IsConsistent board abort y c in
      let answered : IsConsistent
          (on_world (λ w. (send_frame pong (some f.payload) f.payload_len w).1) y) =
        c in
      let reported : IsConsistent (on_world send_status y) = c in
      ground (
        arith,
        set,
        handle_play_start-IsConsistent y c,
        aborted,
        answered,
        reported,
        dispatch_queue_command-IsConsistent board f y c,
        protocol_error-IsConsistent board y c,
      )

  pub run_commands-IsConsistent :
      (n : ℕ) (y : Firmware E) → IsConsistent y → IsConsistent (run_commands board n y)
  unfolding run_commands
  run_commands-IsConsistent zero y c = c
  run_commands-IsConsistent (suc n) y c = elim (Option-cases (pop_command y.world.transport).0) [
    | inl e ↦ rw (e, run_commands) c
    | inr (f, e) ↦
        let t = (pop_command y.world.transport).1 in
        let y' = record y { world = record y.world { transport = t } } in
        rw (e, run_commands)
          (run_commands-IsConsistent n (dispatch_command board f y')
            (dispatch_command-IsConsistent f y' c))
  ]

module _ {W : Type 0} {X : Type 0} (out : Output W) (see : W → X)
    (send_keeps : (r : _) (w : W) → see (call_report out.send_pass_report r w).1 ≡ see w)
    (event_keeps : (e : Capture.Event) (w : W)
      → see (call_event out.send_record_event e w) ≡ see w) where
  -- What neither callback changes, the dispatcher does not change.
  pub dispatch_keeps : (state : ℕ) (c : Capture) (w : W) → see (dispatch out state c w).1 ≡ see w
  dispatch_keeps state c w =
      dispatch_rule {out = out} {P = λ _ w'. see w' ≡ see w}
        (record {
          popped = λ c w' h. h;
          marked = λ c w' h. h;
          sent = λ r c w' h. send_keeps r w' ∙ h;
          recorded = λ e c w' h. event_keeps e w' ∙ h;
        })
        state c w refl
