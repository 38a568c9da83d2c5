-- ===== src/Scheduler/Watchdog.antt =====
-- The underrun of pico/src/playback_scheduler.c and the watchdog that ends it.
use pico_keyboard_rt_recorde.Base.{ℕ, ◌+◌, ◌≤◌, ◌≡◌, ◌↔◌, refl, true, false, arith, u32}
use pico_keyboard_rt_recorde.Scheduler.{System, Sdk, Callbacks, watchdog_timeout_us}
use pico_keyboard_rt_recorde.Scheduler.Run.{begin_underrun, watchdog_expired}

module _ {W : Type 0} (sdk : Sdk W) (cb : Callbacks W) where
  -- An underrun that was not there before counts once and starts the watchdog: from then on the watchdog
  -- has expired at exactly those times that are two seconds or more behind the time at which the underrun
  -- began. As long as the underrun lasts, meeting it again changes nothing: the watchdog is not started
  -- anew, and nobody is notified a second time.
  pub begin_underrun_once :
      (y : System W) (now_us : ℕ)
      → y.scheduler.underrun_active ≡ false
      → let y' = begin_underrun sdk cb y in
        ((watchdog_expired y'.scheduler now_us ≡ true)
          ↔ ((sdk.time_us_64 y.world).0 + watchdog_timeout_us ≤ now_us))
        × (y'.scheduler.waiting_for_event ≡ true)
        × (y'.scheduler.underrun_count ≡ u32 (y.scheduler.underrun_count + 1))
        × (begin_underrun sdk cb y' ≡ y')
  unfolding begin_underrun watchdog_expired
  begin_underrun_once y now_us h = rw h (ground arith, refl, refl, refl)
