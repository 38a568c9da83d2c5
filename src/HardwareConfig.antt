-- ===== src/HardwareConfig.antt =====
-- pico/include/hardware_config.h: the pins, the UART's speed, and the assertions on them.
use pico_keyboard_rt_recorde.Base.{
  ℕ, ◌+◌, ◌*◌, ◌≡◌, refl, ◌&&◌, not, Bool, true, List, [], ◌∷◌, All, ltb, leb, ◌==◌,
}
use pico_keyboard_rt_recorde.Transport.{rx_ring_capacity}

abbrev pub uart_tx_gpio : ℕ
uart_tx_gpio = 0

abbrev pub uart_rx_gpio : ℕ
uart_rx_gpio = 1

abbrev pub pio_usb_dp_gpio : ℕ
pio_usb_dp_gpio = 12

abbrev pub pio_usb_dm_gpio : ℕ
pio_usb_dm_gpio = 13

abbrev pub native_device_rhport : ℕ
native_device_rhport = 0

abbrev pub pio_host_rhport : ℕ
pio_host_rhport = 1

abbrev pub rp2350a_gpio_count : ℕ
rp2350a_gpio_count = 30

abbrev pub uart_baud : ℕ
uart_baud = 921600

abbrev pub record_loop_interval_us : ℕ
record_loop_interval_us = 200

-- The conditions of the static assertions, but for those on the definitions of the board.
abbrev pub assertions : List Bool
assertions =
    (pio_usb_dm_gpio == pio_usb_dp_gpio + 1)
    ∷ (ltb uart_tx_gpio rp2350a_gpio_count && ltb uart_rx_gpio rp2350a_gpio_count)
    ∷ ltb pio_usb_dp_gpio rp2350a_gpio_count
    ∷ ltb pio_usb_dm_gpio rp2350a_gpio_count
    ∷ not (uart_tx_gpio == uart_rx_gpio)
    ∷ leb (2 * uart_baud) (rx_ring_capacity * 10000)
    ∷ (not (pio_usb_dp_gpio == uart_tx_gpio)
        && not (pio_usb_dp_gpio == uart_rx_gpio)
        && not (pio_usb_dm_gpio == uart_tx_gpio)
        && not (pio_usb_dm_gpio == uart_rx_gpio))
    ∷ []

-- All of them hold.
assertions_hold : All (λ b. b ≡ true) assertions
assertions_hold = (refl, (refl, (refl, (refl, (refl, (refl, (refl, tt)))))))
