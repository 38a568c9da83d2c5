-- ===== src/Tests/Modes.antt =====
-- Concrete inputs for the theorems on the modes, the capture FIFO, its dispatcher and the safety release.
use pico_keyboard_rt_recorde.Base.{
  ℕ, ◌+◌, ◌≡◌, ◌≢◌, refl, ◌↔◌, ◌⊎◌, true, false, some, List, [], ◌∷◌, ◌++◌, All, arith,
}
use pico_keyboard_rt_recorde.Protocol.{mode_pass, mode_armed, mode_playing, mode_error, reason_ok}
use pico_keyboard_rt_recorde.SafetyRelease.{
  SafetyRelease, Sender, blocked, sent, ready, try_send, service, service_lem,
}
use pico_keyboard_rt_recorde.Mode.{Moded}
use pico_keyboard_rt_recorde.Mode.Abstract.{
  Action, set_mode, start, abort, fault, apply, Effect, reported, logger, logged,
}
use pico_keyboard_rt_recorde.Mode.Outcome.{
  refusal, CleansInPlace, IsStart, told, released, emptied, apply_outcome,
}
use pico_keyboard_rt_recorde.Mode.Safety.{
  Arrow, last_report, logged-Arrow_iff, cleanup, full_cleanup, reason_of, logged-cleanup, run,
  IsNotPass, error_locked,
}

-- An endpoint that takes every release, and counts them.
abbrev counting : Sender ℕ
counting = some (λ n. (true, n + 1))

abbrev owed : SafetyRelease
owed = record { pending = true }

service_lem_example :
    let (result, r', w') = service counting owed 0 in
    ((result ≡ ready) × (owed.pending ≡ false) × (r'.pending ≡ false) × (w' ≡ 0))
    ⊎ ((owed.pending ≡ true)
        × (w' ≡ (try_send counting 0).1)
        × (((result ≡ sent) × ((try_send counting 0).0 ≡ true) × (r'.pending ≡ false))
            ⊎ ((result ≡ blocked) × ((try_send counting 0).0 ≡ false) × (r'.pending ≡ true))))
service_lem_example = service_lem counting owed 0

-- PLAY_ABORT in ARMED: the queue is discarded though the mode stays.
apply_outcome_example :
    let r = apply logger abort (record { state = mode_armed; world = [] }) in
    (((s' reason : ℕ) → ¬ Arrow mode_armed abort s' reason)
      × (r ≡ (
        false,
        record { state = mode_armed; world = told logger mode_armed (refusal abort) [] },
      )))
    ⊎ ((reason : ℕ) × Arrow mode_armed abort mode_armed reason
        × (¬ CleansInPlace abort)
        × (r ≡ (true, record { state = mode_armed; world = told logger mode_armed reason [] })))
    ⊎ (IsStart abort
        × Arrow mode_armed abort mode_playing reason_ok
        × (r ≡ (
          true,
          record {
            state = mode_playing;
            world = told logger mode_playing reason_ok (released logger []);
          },
        )))
    ⊎ ((s' : ℕ) × (reason : ℕ) × Arrow mode_armed abort s' reason
        × ((s' ≢ mode_armed) ⊎ CleansInPlace abort)
        × (¬ IsStart abort)
        × (r ≡ (true, record { state = s'; world = told logger s' reason (emptied logger []) })))
apply_outcome_example = apply_outcome logger abort mode_armed []

logged-Arrow_iff_example : Arrow mode_armed start mode_playing reason_ok ↔ (
    ((logged start mode_armed).0 ≡ true)
    × ((logged start mode_armed).1.state ≡ mode_playing)
    × (last_report (logged start mode_armed).1.world ≡ some (mode_playing, reason_ok)))
logged-Arrow_iff_example = logged-Arrow_iff start mode_armed mode_playing reason_ok

logged-cleanup_example :
    let (accepted, m) = logged abort mode_playing in
    let r = reason_of m.world in
    ((accepted ≡ false) × (m.state ≡ mode_playing) × (m.world ≡ reported mode_playing r ∷ []))
    ⊎ ((accepted ≡ true) × (m.state ≡ mode_playing) × (m.world ≡ reported mode_playing r ∷ []))
    ⊎ ((accepted ≡ true)
        × (mode_playing ≡ mode_armed)
        × (m.state ≡ mode_playing)
        × (m.world ≡ cleanup ++ reported mode_playing r ∷ []))
    ⊎ ((accepted ≡ true) × (m.world ≡ full_cleanup ++ reported m.state r ∷ []))
logged-cleanup_example = logged-cleanup abort mode_playing

abbrev failed : Moded (List Effect)
failed = record { state = mode_error; world = [] }

abbrev attempts : List Action
attempts = start ∷ set_mode mode_armed ∷ fault 4 ∷ []

attempts-IsNotPass : All IsNotPass attempts
attempts-IsNotPass = ground arith

error_locked_example :
    ((run logger attempts failed).state ≡ mode_error)
    × ((apply logger (set_mode mode_pass) (run logger attempts failed)).0 ≡ true)
    × ((apply logger (set_mode mode_pass) (run logger attempts failed)).1.state ≡ mode_pass)
error_locked_example = error_locked logger attempts failed attempts-IsNotPass refl
