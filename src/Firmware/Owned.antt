-- ===== src/Firmware/Owned.antt =====
-- When the playback queue and the capture FIFO of pico/src/main.c may hold anything.
use pico_keyboard_rt_recorde.Base.{ℕ, ◌≡◌, refl, ◌⊎◌, inl, inr, ◌++◌, [], ◌∷◌, true, arith}
use pico_keyboard_rt_recorde.Protocol.{
  mode_pass, mode_record, mode_armed, mode_playing, queue_event, queue_command_allowed,
}
use pico_keyboard_rt_recorde.PlaybackQueue
use pico_keyboard_rt_recorde.PlaybackQueue.{Event, Queue}
use pico_keyboard_rt_recorde.PlaybackQueue.Refine.{contents, contents-nil}
use pico_keyboard_rt_recorde.Capture
use pico_keyboard_rt_recorde.Capture.{Capture}
use pico_keyboard_rt_recorde.Capture.Refine.{
  contents as captured_reports, contents-nil as no_reports,
}
use pico_keyboard_rt_recorde.Mode.{accepts_physical}
use pico_keyboard_rt_recorde.Mode.Abstract.{Action, apply, reported, logged}
use pico_keyboard_rt_recorde.Mode.Safety.{cleanup, full_cleanup, reason_of, logged-cleanup}
use pico_keyboard_rt_recorde.Firmware.{
  Board, Firmware, send_frame, send_mode_changed, mode_all_release, mode_clear_physical,
  mode_clear_queue, mode_callbacks, on_mode,
}
use pico_keyboard_rt_recorde.Firmware.Modes.{after, on_mode-after}
use pico_keyboard_rt_recorde.Firmware.Closed.{Elementary}
use pico_keyboard_rt_recorde.Firmware.StepRule.{Reach_rule}
use pico_keyboard_rt_recorde.Firmware.Reach.{Reach}

record IsOwned {E : Type 0} (y : Firmware E) : Type 0 where
  queue : (y.queue.count ≡ 0) ⊎ (y.world.mode ≡ mode_armed) ⊎ (y.world.mode ≡ mode_playing)
  capture : (y.world.capture.count ≡ 0) ⊎ (accepts_physical y.world.mode ≡ true)

capture_popped_zero : (c : Capture) → c.count ≡ 0 → (Capture.pop c).1.count ≡ 0
unfolding Capture.pop
capture_popped_zero c h = ground arith

capture_marked_zero : (c : Capture) → c.count ≡ 0 → (Capture.mark_head_recorded c).count ≡ 0
unfolding Capture.mark_head_recorded
capture_marked_zero c h = ground arith

physical_modes :
    (mode : ℕ) → accepts_physical mode ≡ true → (mode ≡ mode_pass) ⊎ (mode ≡ mode_record)
unfolding accepts_physical
physical_modes mode h = ground arith

count-pop_zero : (q : Queue) → q.count ≡ 0 → (PlaybackQueue.pop q).1.count ≡ 0
unfolding PlaybackQueue.pop
count-pop_zero q h = ground arith

-- The modes in which QUEUE_EVENT is accepted.
allowed_mode :
    (mode : ℕ)
    → queue_command_allowed queue_event mode ≡ true
    → (mode ≡ mode_armed) ⊎ (mode ≡ mode_playing)
unfolding queue_command_allowed
allowed_mode mode h = ground arith

IsOwned-Elementary : {E : Type 0} → Elementary (IsOwned {E = E})
unfolding send_frame PlaybackQueue.clear Capture.clear
IsOwned-Elementary = record {
  others = λ s r f b y h. record { queue = h.queue; capture = h.capture };
  framed = λ type n payload y h. record { queue = h.queue; capture = h.capture };
  capture_cleared = λ y h. record { queue = h.queue; capture = inl refl };
  capture_popped = λ y h. record {
    queue = h.queue;
    capture = elim h.capture [
      | inl z ↦ inl (capture_popped_zero y.world.capture z)
      | inr m ↦ inr m
    ];
  };
  capture_marked = λ y h. record {
    queue = h.queue;
    capture = elim h.capture [
      | inl z ↦ inl (capture_marked_zero y.world.capture z)
      | inr m ↦ inr m
    ];
  };
  queue_cleared = λ y h. record { queue = inl refl; capture = h.capture };
  queue_popped = λ y h. record {
    queue = elim h.queue [ inl z ↦ inl (count-pop_zero y.queue z) | inr m ↦ inr m ];
    capture = h.capture;
  };
  queue_pushed = λ t r n y allowed h. record {
    queue = inr (allowed_mode y.world.mode allowed);
    capture = h.capture;
  };
}

module _ {E : Type 0} (board : Board E) where
  -- A change of mode with the queue, and the one without it.
  emptied :
      (s t r : ℕ) (y : Firmware E) → IsOwned (after board s (full_cleanup ++ reported t r ∷ []) y)
  unfolding send_mode_changed mode_all_release mode_clear_physical mode_clear_queue Capture.clear
  emptied s t r y = record { queue = inl (unfold PlaybackQueue.clear in refl); capture = inl refl }

  emptied_capture :
      (t r : ℕ) (y : Firmware E)
      → IsOwned (after board mode_playing (cleanup ++ reported t r ∷ []) y)
  unfolding send_mode_changed mode_all_release mode_clear_physical Capture.clear
  emptied_capture t r y = record { queue = inr (inr refl); capture = inl refl }

  only_reported :
      (t r : ℕ) (y : Firmware E)
      → IsOwned y
      → IsOwned (after board y.world.mode (reported t r ∷ []) y)
  unfolding send_mode_changed send_frame
  only_reported t r y h = record { queue = h.queue; capture = h.capture }

  IsOwned-on_mode :
      (a : Action) (y : Firmware E)
      → IsOwned y
      → IsOwned (on_mode (λ m. (apply (mode_callbacks board) a m).1) y)
  IsOwned-on_mode a y h =
      let m = (logged a y.world.mode).1 in
      let r = reason_of m.world in
      rw (on_mode-after board a y) (elim (logged-cleanup a y.world.mode) [
        | inl (_, same, log) ↦ rw (log, same) (only_reported y.world.mode r y h)
        | inr (inl (_, same, log)) ↦ rw (log, same) (only_reported y.world.mode r y h)
        | inr (inr (inl (_, _, playing, log))) ↦
            rw (log, playing) (emptied_capture mode_playing r y)
        | inr (inr (inr (_, log))) ↦ rw log (emptied m.state m.state r y)
      ])

  -- Whatever the order of the loop's statements, the UART interrupts, the captured reports and the
  -- hardware's answers: in every state that the program can come to, the mode is ARMED or PLAYING or the
  -- playback queue is empty, and the mode is PASS or RECORD or no physical report is queued. So no event of
  -- an earlier run is left in PASS, RECORD or ERROR, and no keystroke of the user in ARMED, PLAYING or ERROR.
  -- A report is captured in a mode that accepts it only, as the USB host callback does.
  pub reachable_owned :
      (y : Firmware E)
      → Reach board y
      → ((contents y.queue ≡ []) ⊎ (y.world.mode ≡ mode_armed) ⊎ (y.world.mode ≡ mode_playing))
        × ((captured_reports y.world.capture ≡ [])
            ⊎ (y.world.mode ≡ mode_pass)
            ⊎ (y.world.mode ≡ mode_record))
  reachable_owned y r =
      let kept : IsOwned y =
        Reach_rule IsOwned board
          (record { elementary = IsOwned-Elementary; moded = IsOwned-on_mode })
          (record {
            parsed = λ y h. record { queue = h.queue; capture = h.capture };
            fault_taken = λ y h. record { queue = h.queue; capture = h.capture };
            command_taken = λ y h. record { queue = h.queue; capture = h.capture };
            byte_taken = λ y h. record { queue = h.queue; capture = h.capture };
            received = λ errors bytes y h. record { queue = h.queue; capture = h.capture };
            reported = λ t report n y a h. record { queue = h.queue; capture = inr a };
          })
          (λ b. record { queue = inl refl; capture = inl refl }) y r in
      (
        elim kept.queue [ inl z ↦ inl (contents-nil y.queue z) | inr m ↦ inr m ],
        elim kept.capture [
          | inl z ↦ inl (no_reports y.world.capture z)
          | inr a ↦ inr (physical_modes y.world.mode a)
        ],
      )
