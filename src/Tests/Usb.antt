-- ===== src/Tests/Usb.antt =====
-- Concrete inputs for the theorem on pico/src/usb_descriptors.c: a board with the serial number "E6".
use pico_keyboard_rt_recorde.Base.{ℕ, Array, update, arith}
use pico_keyboard_rt_recorde.UsbDescriptors.{Answer, descriptor_string_cb, descriptor_string_cb_lem}

abbrev get_serial : Array ℕ → ℕ × Array ℕ
get_serial a = (2, update (update a 1 69) 2 54)

descriptor_string_cb_lem_example :
    Answer 3 (get_serial (λ _. 0)) (λ _. 0) 1 (descriptor_string_cb 3 get_serial 1 (λ _. 0))
descriptor_string_cb_lem_example =
    descriptor_string_cb_lem 3 get_serial 1 (λ _. 0) (omega arith) (omega arith)
