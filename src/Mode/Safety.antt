-- ===== src/Mode/Safety.antt =====
-- What the mode machine guarantees: the transition diagram of docs/protocol.md, the cleanup at every
-- change of mode, and the lock of ERROR.
use pico_keyboard_rt_recorde.Base.{
  ℕ, ◌≡◌, ◌≢◌, ◌↔◌, ◌⊎◌, true, false, Option, none, some, List, [], ◌∷◌, ◌++◌, arith, All,
}
use pico_keyboard_rt_recorde.Protocol.{
  mode_pass, mode_record, mode_armed, mode_playing, mode_error, reason_ok, reason_aborted,
  reason_finished,
}
use pico_keyboard_rt_recorde.Mode.{
  Callbacks, Moded, handle_mode_set, play_start, play_abort, play_finish, enter_error,
}
use pico_keyboard_rt_recorde.Mode.Abstract.{
  Action, set_mode, start, abort, finish, fault, apply, Effect, released, cleared_physical,
  cleared_queue, reported, logged,
}

-- The diagram: from state `s` the action is accepted, leads to `s'` and is reported with reason `r`.
abbrev pub Arrow : ℕ → Action → ℕ → ℕ → Type 0
Arrow s (set_mode t) s' r =
    (r ≡ reason_ok)
    × (s' ≡ t)
    × ((t ≡ mode_pass)
        ⊎ ((t ≡ mode_record) × ((s ≡ mode_pass) ⊎ (s ≡ mode_record)))
        ⊎ ((t ≡ mode_armed) × ((s ≡ mode_pass) ⊎ (s ≡ mode_armed))))
Arrow s start s' r = (s ≡ mode_armed) × (s' ≡ mode_playing) × (r ≡ reason_ok)
Arrow s abort s' r =
    ((s ≡ mode_armed) ⊎ (s ≡ mode_playing)) × (s' ≡ mode_armed) × (r ≡ reason_aborted)
Arrow s finish s' r = (s ≡ mode_playing) × (s' ≡ mode_armed) × (r ≡ reason_finished)
Arrow s (fault reason) s' r =
    (r ≡ reason) × (((s ≡ mode_pass) × (s' ≡ mode_pass)) ⊎ ((s ≢ mode_pass) × (s' ≡ mode_error)))

-- The last MODE_CHANGED of a log.
abbrev pub last_report : List Effect → Option (ℕ × ℕ)
last_report [] = none
last_report (reported s r ∷ []) = some (s, r)
last_report (_ ∷ es) = last_report es

-- An action is accepted, with a new state and a reason, exactly when the diagram of docs/protocol.md
-- has that arrow; the reported state is then the new state.
pub logged-Arrow_iff :
    (a : Action) (s s' r : ℕ)
    → Arrow s a s' r ↔ (
        ((logged a s).0 ≡ true)
        × ((logged a s).1.state ≡ s')
        × (last_report (logged a s).1.world ≡ some (s', r)))
unfolding apply handle_mode_set play_start play_abort play_finish enter_error
logged-Arrow_iff (set_mode t) s s' r = (ground arith, ground arith)
logged-Arrow_iff start s s' r = (ground arith, ground arith)
logged-Arrow_iff abort s s' r = (ground arith, ground arith)
logged-Arrow_iff finish s s' r = (ground arith, ground arith)
logged-Arrow_iff (fault reason) s s' r = (ground arith, ground arith)

-- Which calls come before the report: none, the cleanup, or the cleanup with the queue first.
abbrev pub cleanup : List Effect
cleanup = cleared_physical ∷ released ∷ []

abbrev pub full_cleanup : List Effect
full_cleanup = cleared_queue ∷ cleanup

-- The reason of the last report.
abbrev pub reason_of : List Effect → ℕ
reason_of [] = 0
reason_of (reported s r ∷ []) = r
reason_of (_ ∷ es) = reason_of es

-- Every action makes exactly one report, as its last call, and the report names the state that the
-- machine is then in. It is rejected, and then the state stays and the report is its only call; or it is
-- accepted without a change of state; or it is the change ARMED to PLAYING, and before the report physical
-- input is cleared and then the keys are released; or the playback queue is discarded before that too.
pub logged-cleanup :
    (a : Action) (s : ℕ)
    → let (accepted, m) = logged a s in
      let r = reason_of m.world in
      ((accepted ≡ false) × (m.state ≡ s) × (m.world ≡ reported s r ∷ []))
      ⊎ ((accepted ≡ true) × (m.state ≡ s) × (m.world ≡ reported s r ∷ []))
      ⊎ ((accepted ≡ true)
          × (s ≡ mode_armed)
          × (m.state ≡ mode_playing)
          × (m.world ≡ cleanup ++ reported mode_playing r ∷ []))
      ⊎ ((accepted ≡ true) × (m.world ≡ full_cleanup ++ reported m.state r ∷ []))
unfolding apply handle_mode_set play_start play_abort play_finish enter_error
logged-cleanup (set_mode t) s = ground arith
logged-cleanup start s = ground arith
logged-cleanup abort s = ground arith
logged-cleanup finish s = ground arith
logged-cleanup (fault reason) s = ground arith

-- A sequence of actions.
unfoldable pub run : {W : Type 0} → Callbacks W → List Action → Moded W → Moded W
run cb [] m = m
run cb (a ∷ rest) m = run cb rest (apply cb a m).1

abbrev pub IsNotPass : Action → Type 0
IsNotPass a = a ≢ set_mode mode_pass

locked_step :
    {W : Type 0} (cb : Callbacks W) (a : Action) (m : Moded W)
    → IsNotPass a
    → m.state ≡ mode_error
    → (apply cb a m).1.state ≡ mode_error
unfolding apply handle_mode_set play_start play_abort play_finish enter_error
locked_step cb (set_mode t) m h e = ground arith
locked_step cb start m h e = ground arith
locked_step cb abort m h e = ground arith
locked_step cb finish m h e = ground arith
locked_step cb (fault reason) m h e = ground arith

-- ERROR is left by MODE_SET(PASS) only: however long the sequence of other actions, the machine stays
-- in ERROR, under any callbacks; and MODE_SET(PASS) after it is accepted and leads to PASS.
pub error_locked :
    {W : Type 0} (cb : Callbacks W) (actions : List Action) (m : Moded W)
    → All IsNotPass actions
    → m.state ≡ mode_error
    → ((run cb actions m).state ≡ mode_error)
      × ((apply cb (set_mode mode_pass) (run cb actions m)).0 ≡ true)
      × ((apply cb (set_mode mode_pass) (run cb actions m)).1.state ≡ mode_pass)
unfolding run apply handle_mode_set
error_locked cb [] m h e = (e, ground arith, ground arith)
error_locked cb (a ∷ rest) m h e =
    error_locked cb rest (apply cb a m).1 h.1 (locked_step cb a m h.0 e)
