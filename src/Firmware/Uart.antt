-- ===== src/Firmware/Uart.antt =====
-- `pico_uart_transport_hw_init` of pico/src/uart_transport_pico.c: the set-up of UART0. The calls of the Pico SDK are
-- parameters.
use pico_keyboard_rt_recorde.Base.{ℕ, Bool, true, false}
use pico_keyboard_rt_recorde.HardwareConfig.{uart_tx_gpio, uart_rx_gpio, uart_baud}

-- What the code calls; each with UART0, and the pin function GPIO_FUNC_UART, no parity and
-- `uart0_irq_handler` for UART0_IRQ written into the name.
pub record UartSdk (E : Type 0) : Type 0 where
  pub gpio_set_function_uart : ℕ → E → E
  pub uart_init : ℕ → E → E
  pub uart_set_format_no_parity : ℕ → ℕ → E → E
  pub uart_set_hw_flow : Bool → Bool → E → E
  pub irq_set_handler : E → E
  pub irq_set_enabled : Bool → E → E
  pub uart_set_irq_enables : Bool → Bool → E → E

-- The Boolean is whether `active_transport` points to a transport.
unfoldable pub hw_init : {E : Type 0} → UartSdk E → Bool × E → Bool × E
hw_init sdk (active, e) = (
  true,
  sdk.uart_set_irq_enables true false (
      sdk.irq_set_enabled true (
        sdk.irq_set_handler (
          sdk.uart_set_hw_flow false false (
            sdk.uart_set_format_no_parity 8 1 (
              sdk.uart_init uart_baud (
                sdk.gpio_set_function_uart uart_rx_gpio
                  (sdk.gpio_set_function_uart uart_tx_gpio e))))))),
)
