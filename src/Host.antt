-- ===== src/Host.antt =====
-- pico/include/hid_keyboard_host.h and pico/src/hid_keyboard_host.c: the TinyUSB host callbacks, which
-- feed the capture FIFO. TinyUSB is a parameter on the caller's state `W`.
pub mod Exclusive
use pico_keyboard_rt_recorde.Base.{
  ℕ, ◌+◌, ◌&&◌, ◌||◌, not, Bool, true, false, Option, none, some, ◌==◌, if◌then◌else◌, u32,
}
use pico_keyboard_rt_recorde.Protocol.Codec.{Bytes}
use pico_keyboard_rt_recorde.Capture.{Capture}
use pico_keyboard_rt_recorde.Capture
use pico_keyboard_rt_recorde.Mode.{accepts_physical}

-- `pico_hid_keyboard_host_stats_t`; every counter is a uint32_t.
pub record Stats : Type 0 where
  pub keyboard_mounts : ℕ
  pub keyboard_unmounts : ℕ
  pub unsupported_mounts : ℕ
  pub report_callbacks : ℕ
  pub receive_requests : ℕ
  pub receive_errors : ℕ

-- `pico_hid_keyboard_host_state_t`, with the capture that it points to; `mode` is the state of the mode
-- object, `none` if the pointer is NULL.
pub record Host : Type 0 where
  pub capture : Capture
  pub mode : Option ℕ
  pub mounted : Bool
  pub dev_addr : ℕ
  pub instance_number : ℕ
  pub stats : Stats

-- What the callbacks take from TinyUSB and the SDK.
pub record Tuh (W : Type 0) : Type 0 where
  pub hid_receive_report : ℕ → ℕ → W → Bool × W
  pub hid_interface_protocol : ℕ → ℕ → W → ℕ
  pub time_us_64 : W → ℕ × W

-- `HID_ITF_PROTOCOL_KEYBOARD` of the USB HID specification.
abbrev pub protocol_keyboard : ℕ
protocol_keyboard = 1

abbrev pub init : Capture → Option ℕ → Host
init capture mode = record {
  capture = capture;
  mode = mode;
  mounted = false;
  dev_addr = 0;
  instance_number = 0;
  stats = record {
    keyboard_mounts = 0;
    keyboard_unmounts = 0;
    unsupported_mounts = 0;
    report_callbacks = 0;
    receive_requests = 0;
    receive_errors = 0;
  };
}

unfoldable pub is_mounted : Host → Bool
is_mounted h = h.mounted

unfoldable pub get_stats : Host → Stats
get_stats h = h.stats

-- The negation of the test that the callbacks open with.
abbrev pub is_current : ℕ → ℕ → Host → Bool
is_current dev_addr number h = h.mounted && h.dev_addr == dev_addr && h.instance_number == number

-- `host_state.mode == NULL || pico_mode_state_accepts_physical(host_state.mode)`
abbrev pub accepts : Option ℕ → Bool
accepts none = true
accepts (some state) = accepts_physical state

module _ {W : Type 0} (tuh : Tuh W) where
  unfoldable pub request_next_report : ℕ → ℕ → Host × W → Host × W
  request_next_report dev_addr number (h, w) =
      let (started, w') = tuh.hid_receive_report dev_addr number w in
      let errors = h.stats.receive_errors in
      (
        record h {
          stats = record h.stats {
            receive_requests = u32 (h.stats.receive_requests + 1);
            receive_errors = if not started then u32 (errors + 1) else errors;
          };
        },
        w',
      )

  unfoldable pub mount_cb : ℕ → ℕ → Host × W → Host × W
  unfolding request_next_report
  mount_cb dev_addr number (h, w) =
      let refused = record h {
        stats = record h.stats { unsupported_mounts = u32 (h.stats.unsupported_mounts + 1) };
      } in
      let taken = record h {
        mounted = true;
        dev_addr = dev_addr;
        instance_number = number;
        stats = record h.stats { keyboard_mounts = u32 (h.stats.keyboard_mounts + 1) };
      } in
      if not (tuh.hid_interface_protocol dev_addr number w == protocol_keyboard)
      then (refused, w)
      else if h.mounted && (not (h.dev_addr == dev_addr) || not (h.instance_number == number))
      then (refused, w)
      else request_next_report dev_addr number (taken, w)

  unfoldable pub umount_cb : ℕ → ℕ → Host × W → Host × W
  umount_cb dev_addr number (h, w) = if not (is_current dev_addr number h) then (h, w) else (
    record h {
      mounted = false;
      stats = record h.stats { keyboard_unmounts = u32 (h.stats.keyboard_unmounts + 1) };
    },
    w,
  )

  unfoldable pub report_received_cb : ℕ → ℕ → Bytes → ℕ → Host × W → Host × W
  unfolding request_next_report
  report_received_cb dev_addr number report report_len (h, w) =
      let (timestamp_us, w') = tuh.time_us_64 w in
      let counted = record h {
        capture =
            if accepts h.mode
            then (Capture.push timestamp_us report report_len h.capture).1
            else h.capture;
        stats = record h.stats { report_callbacks = u32 (h.stats.report_callbacks + 1) };
      } in
      if not (is_current dev_addr number h)
      then (h, w')
      else request_next_report dev_addr number (counted, w')
