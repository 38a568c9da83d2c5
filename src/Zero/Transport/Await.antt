-- ===== src/Zero/Transport/Await.antt =====
-- `PicoTransport._await` of zero/app/transport.py loses no frame and keeps their order.
use pico_keyboard_rt_recorde.Base.{
  ℕ, ◌≡◌, ◌≢◌, refl, sym, ap, ◌∙◌, ◌⊎◌, inl, inr, List, [], ◌∷◌, ◌++◌, ◌==◌, All, arith, Bool-cases,
}
use mathlib.Core.Path.{subst}
use pico_keyboard_rt_recorde.Zero.{Message, Attempt, returned, raised, ◌>>=◌}
use pico_keyboard_rt_recorde.Zero.Validate.{validate_mode_changed, validate_pico_status}
use pico_keyboard_rt_recorde.Zero.Transport.{
  check_status, check_mode, require_not_error, await_frame,
}

-- How a wait for `message_type` finds its frame: no frame in front of it has the type, and none of those that it
-- looked at reports an error.
pub record Found (message_type : ℕ) (frames : List Message) (frame : Message)
    (pending : List Message) : Type 0 where
  pub before : List Message
  pub after : List Message
  pub in_order : frames ≡ before ++ frame ∷ after
  pub kept : pending ≡ before ++ after
  pub typed : frame.message_type ≡ message_type
  pub others : All (λ (m : Message). m.message_type ≢ message_type) before
  pub calm : All (λ (m : Message). require_not_error m ≡ returned m) (before ++ frame ∷ [])

Attempt-cases :
    {A : Type 0} (a : Attempt A) → ((x : A) × (a ≡ returned x)) ⊎ ((e : _) × (a ≡ raised e))
Attempt-cases (returned x) = inl (x, refl)
Attempt-cases (raised e) = inr (e, refl)

>>=-eq-returned :
    {A B : Type 0} (a : Attempt A) (f : A → Attempt B) {b : B}
    → (a >>= f) ≡ returned b
    → (x : A) × (a ≡ returned x) × (f x ≡ returned b)
>>=-eq-returned (returned x) f h = (x, refl, h)
>>=-eq-returned (raised e) f h = cc

check_status-same : (m x : Message) → check_status m ≡ returned x → x ≡ m
unfolding check_status
check_status-same m x h =
    let (r, _, e) = >>=-eq-returned (validate_pico_status m) _ h in ground arith

check_mode-same : (m x : Message) → check_mode m ≡ returned x → x ≡ m
unfolding check_mode
check_mode-same m x h =
    let (r, _, e) = >>=-eq-returned (validate_mode_changed m) _ h in ground arith

-- A frame that passes the check is returned as it is.
require_not_error-same : (m x : Message) → require_not_error m ≡ returned x → x ≡ m
unfolding require_not_error
require_not_error-same m x h = ground (arith, check_status-same m x, check_mode-same m x)

-- A frame of another type is deferred.
deferred-Found :
    {message_type : ℕ} {frames : List Message} {frame : Message} {pending : List Message}
    (m : Message)
    → m.message_type ≢ message_type
    → require_not_error m ≡ returned m
    → Found message_type frames frame pending
    → Found message_type (m ∷ frames) frame (m ∷ pending)
deferred-Found m other calm found = record {
  before = m ∷ found.before;
  after = found.after;
  in_order = ap (λ l. m ∷ l) found.in_order;
  kept = ap (λ l. m ∷ l) found.kept;
  typed = found.typed;
  others = (other, found.others);
  calm = (calm, found.calm);
}

-- A wait that does not end in an error returns the first frame of the type that it waits for, and leaves
-- all other frames that have arrived pending, in their order, those in front of it included; and neither that
-- frame nor any in front of it reports an error.
pub await_frame_lem :
    (message_type : ℕ) (frames : List Message) {frame : Message} {pending : List Message}
    → await_frame message_type frames ≡ returned (frame, pending)
    → Found message_type frames frame pending
unfolding await_frame
await_frame_lem message_type [] h = cc
await_frame_lem message_type (m ∷ ms) {frame} {pending} h =
    let (x, checked, e) = >>=-eq-returned (require_not_error m) _ h in
    let same = require_not_error-same m x checked in
    let calm : require_not_error m ≡ returned m = checked ∙ ap returned same in
    elim (Bool-cases (x.message_type == message_type)) [
      | inl t ↦
          let here = rw t at e in
          let typed : x.message_type ≡ message_type = ground arith in
          let found : m ≡ frame = cc in
          let rest : pending ≡ ms = cc in
          record {
            before = [];
            after = ms;
            in_order = ap (λ z. z ∷ ms) found;
            kept = rest;
            typed = ap (λ (z : Message). z.message_type) (sym found ∙ sym same) ∙ typed;
            others = tt;
            calm = (rw (← found) calm, tt);
          }
      | inr f ↦
          let later = rw f at e in
          let (r, again, last) = >>=-eq-returned (await_frame message_type ms) _ later in
          let one : r.0 ≡ frame = cc in
          let two : m ∷ r.1 ≡ pending = ap (λ z. z ∷ r.1) (sym same) ∙ cc in
          let other : m.message_type ≢ message_type = rw (← same) (ground arith) in
          subst (Found message_type (m ∷ ms) frame) two (
            deferred-Found m other calm
              (await_frame_lem message_type ms (again ∙ ap (λ z. returned (z, r.1)) one)))
    ]
