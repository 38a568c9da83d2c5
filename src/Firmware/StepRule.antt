-- ===== src/Firmware/StepRule.antt =====
-- An induction principle for the program of pico/src/main.c as a system of steps: what the changes of
-- Firmware/Closed keep, and what each operation on a ring keeps, holds in every state that it can come to.
use pico_keyboard_rt_recorde.Base.{
  ℕ, zero, suc, ◌≡◌, true, Bool, List, inl, inr, Bool-cases, Option-cases,
}
use pico_keyboard_rt_recorde.Protocol.Codec.{Bytes}
use pico_keyboard_rt_recorde.Transport.{distance16, take_fault}
use pico_keyboard_rt_recorde.Transport.Commands.{pop_command}
use pico_keyboard_rt_recorde.Transport.Send.{pop_tx_byte}
use pico_keyboard_rt_recorde.Transport.Receive.{poll}
use pico_keyboard_rt_recorde.Capture
use pico_keyboard_rt_recorde.Mode.{accepts_physical}
use pico_keyboard_rt_recorde.Firmware.{Board, World, Firmware, on_world}
use pico_keyboard_rt_recorde.Firmware.Loop.{
  boot, uart0_irq_handler, run_commands, tx_loop, tx_task, poll_uart, check_fault,
}
use pico_keyboard_rt_recorde.Firmware.Closed.{Closed, if_rule, board_rule}
use pico_keyboard_rt_recorde.Firmware.ClosedSteps.{
  task_closed, uart_fault_closed, dispatch_command_closed,
}
use pico_keyboard_rt_recorde.Firmware.ClosedLoop.{
  service_release_closed, dispatch_physical_closed, check_flow_closed, check_watchdog_closed,
}
use pico_keyboard_rt_recorde.Firmware.Reach.{
  Step, polled, fault_checked, commanded, released, forwarded, played, flow_checked, watched,
  transmitted, interrupted, captured, elapsed, Reach, booted, next,
}

-- The operations on the rings and on the capture FIFO that the loop, the UART interrupt and the USB host make.
pub record Ringed {E : Type 0} (P : Firmware E → Type 0) : Type 0 where
  pub parsed :
      (y : Firmware E) → P y → P (on_world (λ w. record w { transport = poll w.transport }) y)
  pub fault_taken :
      (y : Firmware E)
      → P y
      → P (on_world (λ w. record w { transport = (take_fault w.transport).1 }) y)
  pub command_taken :
      (y : Firmware E)
      → P y
      → P (on_world (λ w. record w { transport = (pop_command w.transport).1 }) y)
  pub byte_taken :
      (y : Firmware E)
      → P y
      → P (on_world (λ w. record w { transport = (pop_tx_byte w.transport).1 }) y)
  pub received :
      (errors : Bool) (bytes : List ℕ) (y : Firmware E)
      → P y
      → P (on_world (λ w. record w { transport = uart0_irq_handler errors bytes w.transport }) y)
  pub reported :
      (t : ℕ) (report : Bytes) (n : ℕ) (y : Firmware E)
      → accepts_physical y.world.mode ≡ true
      → P y
      → P (on_world (λ w. record w { capture = (Capture.push t report n w.capture).1 }) y)

module _ {E : Type 0} (P : Firmware E → Type 0) (board : Board E) (closed : Closed board P)
    (ringed : Ringed P) where
  run_commands_rule : (n : ℕ) (y : Firmware E) → P y → P (run_commands board n y)
  unfolding run_commands
  run_commands_rule zero y h = h
  run_commands_rule (suc n) y h = elim (Option-cases (pop_command y.world.transport).0) [
    | inl e ↦ rw (e, run_commands) h
    | inr (f, e) ↦
        rw (e, run_commands)
          (run_commands_rule n _
            (dispatch_command_closed P board closed f _ (ringed.command_taken y h)))
  ]

  tx_loop_rule : (n : ℕ) (y : Firmware E) → P y → P (on_world (tx_loop board n) y)
  unfolding tx_loop
  tx_loop_rule zero y h = h
  tx_loop_rule (suc n) y h = elim (Bool-cases (board.uart_is_writable y.world.board).0) [
    | inr f ↦ rw (f, tx_loop) (board_rule P closed.elementary _ y h)
    | inl t ↦ elim (Option-cases (pop_tx_byte y.world.transport).0) [
      | inl e ↦ rw (t, e, tx_loop) (board_rule P closed.elementary _ y h)
      | inr (byte, e) ↦
          let sent =
            board_rule P closed.elementary
              (board.uart_putc_raw byte (board.uart_is_writable y.world.board).1)
              (on_world (λ (w : World E). record w { transport = (pop_tx_byte w.transport).1 }) y)
              (ringed.byte_taken y h) in
          rw (t, e, tx_loop) (tx_loop_rule n _ sent)
    ]
  ]

  check_fault_rule : (y : Firmware E) → P y → P (check_fault board y)
  unfolding check_fault
  check_fault_rule y h =
      let kept = ringed.fault_taken y h in
      if_rule P closed.elementary (take_fault y.world.transport).0 _ _
        (uart_fault_closed P board closed _ kept) kept

  Step_rule : {y y' : Firmware E} → Step board y y' → P y → P y'
  unfolding poll_uart tx_task
  Step_rule (polled y) h = ringed.parsed y h
  Step_rule (fault_checked y) h = check_fault_rule y h
  Step_rule (commanded n y) h = run_commands_rule n y h
  Step_rule (released y) h = service_release_closed P board closed y h
  Step_rule (forwarded ready y) h = dispatch_physical_closed P board closed ready y h
  Step_rule (played y) h = task_closed P board closed y h
  Step_rule (flow_checked y) h = check_flow_closed P board closed y h
  Step_rule (watched y) h = check_watchdog_closed P board closed y h
  Step_rule (transmitted y) h =
      tx_loop_rule (suc (distance16 y.world.transport.tx_head y.world.transport.tx_tail)) y h
  Step_rule (interrupted errors bytes y) h = ringed.received errors bytes y h
  Step_rule (captured t report n y a) h = ringed.reported t report n y a h
  Step_rule (elapsed b y) h = board_rule P closed.elementary b y h

  -- What holds at the start holds ever after.
  pub Reach_rule : ((b : E) → P (boot b)) → (y : Firmware E) → Reach board y → P y
  Reach_rule start _ (booted b) = start b
  Reach_rule start _ (next r s) = Step_rule s (Reach_rule start _ r)
