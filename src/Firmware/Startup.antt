-- ===== src/Firmware/Startup.antt =====
-- The rest of pico/src/main.c: the start of TinyUSB, the pause at the end of the loop, the empty device
-- callbacks, and the key press of the build with PICO_HID_DEMO_TEST.
use pico_keyboard_rt_recorde.Base.{ℕ, ◌+◌, ◌-◌, ◌^◌, ◌||◌, not, Bool, ltb, ◌==◌, if◌then◌else◌, u32}
use pico_keyboard_rt_recorde.Protocol.{mode_pass, mode_playing, mode_record}
use pico_keyboard_rt_recorde.Hid.{usage_key_a, make_key_press}
use pico_keyboard_rt_recorde.HardwareConfig.{
  native_device_rhport, pio_host_rhport, record_loop_interval_us,
}
use pico_keyboard_rt_recorde.Firmware.{Board, World, send_boot_report, send_all_keys_release}

-- Why `main` panics.
pub data Start : Type 0 where
  started device_failed host_failed : Start

-- The role of a root hub; both run at full speed.
pub data Role : Type 0 where
  device_role host_role : Role

-- `tusb_init` of the two root hubs.
unfoldable pub start_usb : {E : Type 0} → (ℕ → Role → E → Bool × E) → E → Start × E
start_usb tusb_init e =
    let (device, e') = tusb_init native_device_rhport device_role e in
    let (host, e'') = tusb_init pio_host_rhport host_role e' in
    if not device
    then (device_failed, e')
    else if not host
    then (host_failed, e'')
    else (started, e'')

-- What the loop does before its next turn.
pub data Pause : Type 0 where
  tight_loop_contents : Pause
  sleep_us sleep_ms : ℕ → Pause

unfoldable pub pause : ℕ → Pause
pause loop_mode =
    if loop_mode == mode_playing
    then tight_loop_contents
    else if loop_mode == mode_record
    then sleep_us record_loop_interval_us
    else sleep_ms 1

-- The device has no reports of its own to give, and takes none.
abbrev pub tud_hid_get_report_cb : ℕ
tud_hid_get_report_cb = 0

pub data DemoStage : Type 0 where
  wait_for_endpoint wait_to_release complete : DemoStage

-- The static variables of `hid_demo_test_task`.
pub record Demo : Type 0 where
  pub stage : DemoStage
  pub release_at_ms : ℕ

abbrev pub demo_init : Demo
demo_init = record { stage = wait_for_endpoint; release_at_ms = 0 }

-- `(int32_t)(now - at) >= 0` on two uint32_t values.
abbrev pub is_reached : ℕ → ℕ → Bool
is_reached now at_ms = ltb (u32 (now + 2 ^ 32 - at_ms)) (2 ^ 31)

module _ {E : Type 0} (board : Board E) (tud_mounted : E → Bool × E) (now_ms : E → ℕ × E) where
  unfoldable pub demo_press : Demo × World E → Demo × World E
  demo_press (d, w) =
      let (taken, w') = send_boot_report board (make_key_press 0 usage_key_a) w in
      let (now, e) = now_ms w'.board in
      if taken
      then (
        record { stage = wait_to_release; release_at_ms = u32 (now + 50) },
        record w' { board = e },
      )
      else (d, w')

  unfoldable pub demo_release : Demo × World E → Demo × World E
  demo_release (d, w) =
      let (now, e) = now_ms w.board in
      let w' = record w { board = e } in
      let (taken, w'') = send_all_keys_release board w' in
      if not (is_reached now d.release_at_ms)
      then (d, w')
      else if taken
      then (record d { stage = complete }, w'')
      else (d, w'')

  unfoldable pub hid_demo_test_task : Demo × World E → Demo × World E
  unfolding demo_press demo_release
  hid_demo_test_task (d, w) =
      let (mounted, e) = tud_mounted w.board in
      let w' = record w { board = e } in
      elim d.stage [
        | complete ↦ (d, w)
        | wait_for_endpoint ↦
            if not mounted || not (w.mode == mode_pass) then (d, w') else demo_press (d, w')
        | wait_to_release ↦
            if not mounted || not (w.mode == mode_pass) then (d, w') else demo_release (d, w')
      ]
