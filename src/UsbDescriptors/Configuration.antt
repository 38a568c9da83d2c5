-- ===== src/UsbDescriptors/Configuration.antt =====
-- pico/src/usb_descriptors.c: the HID report descriptor and the configuration descriptor, and the switches of
-- pico/include/tusb_config.h that they use. What the macros of TinyUSB expand to is a parameter.
use pico_keyboard_rt_recorde.Base.{ℕ, ◌+◌, ◌≡◌, List, ◌++◌, length, length-append, arith}

-- CFG_TUD_ENDPOINT0_SIZE and CFG_TUD_HID_EP_BUFSIZE.
abbrev pub tud_endpoint0_size : ℕ
tud_endpoint0_size = 64

abbrev pub tud_hid_ep_bufsize : ℕ
tud_hid_ep_bufsize = 16

abbrev pub itf_num_hid : ℕ
itf_num_hid = 0

abbrev pub itf_num_total : ℕ
itf_num_total = 1

abbrev pub epnum_hid : ℕ
epnum_hid = 0x81

-- TUD_HID_REPORT_DESC_KEYBOARD, TUD_CONFIG_DESCRIPTOR, TUD_HID_DESCRIPTOR, the lengths that TinyUSB gives
-- for the last two, and HID_ITF_PROTOCOL_KEYBOARD.
pub record Macros : Type 0 where
  pub report_desc_keyboard : List ℕ
  pub config_descriptor : ℕ → ℕ → ℕ → ℕ → ℕ → ℕ → List ℕ
  pub hid_descriptor : ℕ → ℕ → ℕ → ℕ → ℕ → ℕ → ℕ → List ℕ
  pub config_desc_len : ℕ
  pub hid_desc_len : ℕ
  pub itf_protocol_keyboard : ℕ

-- TinyUSB says how long the expansions are.
pub record IsSized (m : Macros) : Type 0 where
  pub config_sized :
      (a b c d e f : ℕ) → length (m.config_descriptor a b c d e f) ≡ m.config_desc_len
  pub hid_sized : (a b c d e f g : ℕ) → length (m.hid_descriptor a b c d e f g) ≡ m.hid_desc_len

module _ (m : Macros) where
  abbrev pub config_total_len : ℕ
  config_total_len = m.config_desc_len + m.hid_desc_len

  abbrev pub hid_report_descriptor : List ℕ
  hid_report_descriptor = m.report_desc_keyboard

  -- The instance is not looked at.
  abbrev pub tud_hid_descriptor_report_cb : ℕ → List ℕ
  tud_hid_descriptor_report_cb instance_number = hid_report_descriptor

  unfoldable pub configuration_descriptor : List ℕ
  configuration_descriptor =
      m.config_descriptor 1 itf_num_total 0 config_total_len 0x00 100
      ++ m.hid_descriptor itf_num_hid 0 m.itf_protocol_keyboard (length hid_report_descriptor)
          epnum_hid tud_hid_ep_bufsize 10

  -- The index is not looked at.
  unfoldable pub tud_descriptor_configuration_cb : ℕ → List ℕ
  unfolding configuration_descriptor
  tud_descriptor_configuration_cb index = configuration_descriptor

  -- The total length that the configuration descriptor announces is the number of its bytes, for expansions
  -- of the lengths that TinyUSB gives.
  pub length-configuration_descriptor :
      (index : ℕ) → IsSized m → length (tud_descriptor_configuration_cb index) ≡ config_total_len
  unfolding tud_descriptor_configuration_cb
  length-configuration_descriptor index sized =
      let head = m.config_descriptor 1 itf_num_total 0 config_total_len 0x00 100 in
      let tail =
        m.hid_descriptor itf_num_hid 0 m.itf_protocol_keyboard (length hid_report_descriptor)
          epnum_hid tud_hid_ep_bufsize 10 in
      let first : length head ≡ m.config_desc_len =
        sized.config_sized 1 itf_num_total 0 config_total_len 0x00 100 in
      let second : length tail ≡ m.hid_desc_len =
        sized.hid_sized itf_num_hid 0 m.itf_protocol_keyboard (length hid_report_descriptor)
          epnum_hid tud_hid_ep_bufsize 10 in
      omega (arith, length-append head tail, first, second)
