-- ===== src/SafetyRelease.antt =====
-- pico/include/safety_release.h and pico/src/safety_release.c: the all-keys release that is retried
-- until the HID endpoint takes it. The sender is a callback over the caller's state `W`.
use pico_keyboard_rt_recorde.Base.{
  ◌≡◌, ◌⊎◌, Bool, true, false, Option, none, some, if◌then◌else◌, arith,
}

-- `pico_safety_release_t`
pub record SafetyRelease : Type 0 where
  pub pending : Bool

-- `pico_safety_release_result_t`
pub data Result : Type 0 where
  blocked sent ready : Result

abbrev pub init : SafetyRelease
init = record { pending = false }

unfoldable pub request : SafetyRelease → SafetyRelease
request r = record r { pending = true }

-- The callback; `none` is NULL.
abbrev pub Sender : Type 0 → Type 0
Sender W = Option (W → Bool × W)

module _ {W : Type 0} where
  -- `send != NULL && send(user)`
  abbrev pub try_send : Sender W → W → Bool × W
  try_send none w = (false, w)
  try_send (some send) w = send w

  unfoldable pub service : Sender W → SafetyRelease → W → Result × SafetyRelease × W
  service send r w =
      let (taken, w') = try_send send w in
      if r.pending
      then if taken then (sent, record r { pending = false }, w') else (blocked, r, w')
      else (ready, r, w)

  -- `service` reports ready exactly when no release is owed, and then calls nobody; otherwise it makes
  -- one attempt, and the release stays owed unless that attempt was taken.
  pub service_lem :
      (send : Sender W) (r : SafetyRelease) (w : W)
      → let (result, r', w') = service send r w in
        ((result ≡ ready) × (r.pending ≡ false) × (r'.pending ≡ false) × (w' ≡ w))
        ⊎ ((r.pending ≡ true)
            × (w' ≡ (try_send send w).1)
            × (((result ≡ sent) × ((try_send send w).0 ≡ true) × (r'.pending ≡ false))
                ⊎ ((result ≡ blocked) × ((try_send send w).0 ≡ false) × (r'.pending ≡ true))))
  unfolding service
  service_lem send r w = ground arith
