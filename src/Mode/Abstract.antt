-- ===== src/Mode/Abstract.antt =====
-- The mode machine seen from outside: its actions, what it tells its callbacks, and the transition
-- diagram of docs/protocol.md.
use pico_keyboard_rt_recorde.Base.{ℕ, ◌≡◌, Bool, true, some, List, [], ◌∷◌, ◌++◌, arith}
use pico_keyboard_rt_recorde.Mode.{
  Callbacks, Moded, call, call_changed, handle_mode_set, play_start, play_abort, play_finish,
  enter_error,
}

-- The operations that other code calls; `fault` is `enter_error` with its reason.
pub data Action : Type 0 where
  set_mode : ℕ → Action
  start abort finish : Action
  fault : ℕ → Action

unfoldable pub apply : {W : Type 0} → Callbacks W → Action → Moded W → Bool × Moded W
apply cb (set_mode target) m = handle_mode_set cb target m
apply cb start m = play_start cb m
apply cb abort m = play_abort cb m
apply cb finish m = play_finish cb m
apply cb (fault reason) m = (true, enter_error cb reason m)

-- One call of a callback.
pub data Effect : Type 0 where
  released cleared_physical cleared_queue : Effect
  reported : ℕ → ℕ → Effect

-- Callbacks that only keep a log, latest call last.
abbrev pub logger : Callbacks (List Effect)
logger = record {
  all_release = some (λ l. l ++ released ∷ []);
  clear_physical = some (λ l. l ++ cleared_physical ∷ []);
  clear_queue = some (λ l. l ++ cleared_queue ∷ []);
  mode_changed = some (λ s r l. l ++ reported s r ∷ []);
}

abbrev pub interpret : {W : Type 0} → Callbacks W → Effect → W → W
interpret cb released w = call cb.all_release w
interpret cb cleared_physical w = call cb.clear_physical w
interpret cb cleared_queue w = call cb.clear_queue w
interpret cb (reported s r) w = call_changed cb.mode_changed s r w

abbrev pub replay : {W : Type 0} → Callbacks W → List Effect → W → W
replay cb [] w = w
replay cb (e ∷ es) w = replay cb es (interpret cb e w)

-- The same action on a machine with an empty log.
abbrev pub logged : Action → ℕ → Bool × Moded (List Effect)
logged a s = apply logger a (record { state = s; world = [] })

-- With any callbacks at all, NULL ones included, an action returns what it returns with the logger,
-- leaves the state that it leaves there, and makes exactly the calls that are logged, in that order.
pub apply-replay :
    {W : Type 0} (cb : Callbacks W) (a : Action) (s : ℕ) (w : W)
    → apply cb a (record { state = s; world = w }) ≡ (
      (logged a s).0,
      record { state = (logged a s).1.state; world = replay cb (logged a s).1.world w },
    )
unfolding apply handle_mode_set play_start play_abort play_finish enter_error
apply-replay cb (set_mode t) s w = ground arith
apply-replay cb start s w = ground arith
apply-replay cb abort s w = ground arith
apply-replay cb finish s w = ground arith
apply-replay cb (fault r) s w = ground arith
