-- ===== src/Firmware/Reach.antt =====
-- The program of pico/src/main.c as a system of steps: the statements of the loop in any order, with the
-- UART interrupt, captured reports and the hardware's own changes between any two of them.
use pico_keyboard_rt_recorde.Base.{
  ℕ, zero, suc, ◌≡◌, refl, ◌⊎◌, inl, inr, Bool, true, false, List, arith, Bool-cases, Option-cases,
}
use pico_keyboard_rt_recorde.Protocol.{mode_playing}
use pico_keyboard_rt_recorde.Protocol.Codec.{Bytes}
use pico_keyboard_rt_recorde.Transport.{distance16, distance8}
use pico_keyboard_rt_recorde.Transport.Send.{pop_tx_byte}
use pico_keyboard_rt_recorde.Capture
use pico_keyboard_rt_recorde.Mode.{accepts_physical}
use pico_keyboard_rt_recorde.SafetyRelease.{service}
use pico_keyboard_rt_recorde.Scheduler.Task.{task, task_loop}
use pico_keyboard_rt_recorde.Firmware.{
  Board, World, Firmware, scheduler_callbacks, sdk, on_world, send_boot_report, send_report,
  send_frame, send_all_keys_release, send_record_event,
}
use pico_keyboard_rt_recorde.Firmware.Modes.{IsConsistent, keep-IsConsistent}
use pico_keyboard_rt_recorde.Firmware.QueueCommands.{
  protocol_error-IsConsistent, uart_fault-IsConsistent, underrun_fault-IsConsistent,
}
use pico_keyboard_rt_recorde.Firmware.Consistent.{
  if_IsConsistent, IsConsistent-task, mode-send_boot_report,
}
use pico_keyboard_rt_recorde.Firmware.Playing.{run_commands-IsConsistent, dispatch_keeps}
use pico_keyboard_rt_recorde.Firmware.Loop.{
  boot, uart0_irq_handler, run_commands, service_release, dispatch_physical, check_flow,
  check_watchdog, tx_loop, tx_task, poll_uart, check_fault, is_ready, serve_commands, serve_outputs,
  loop_body,
}

-- One statement of the loop, or something that happens between two statements. The USB host callback
-- captures a report only in a mode that accepts it.
pub data Step {E : Type 0} (board : Board E) : Firmware E → Firmware E → Type 0 where
  polled : (y : Firmware E) → Step board y (poll_uart y)
  fault_checked : (y : Firmware E) → Step board y (check_fault board y)
  commanded : (n : ℕ) (y : Firmware E) → Step board y (run_commands board n y)
  released : (y : Firmware E) → Step board y (service_release board y).1
  forwarded : (ready : Bool) (y : Firmware E) → Step board y (dispatch_physical board ready y)
  played : (y : Firmware E) → Step board y (task (sdk board) (scheduler_callbacks board) y)
  flow_checked : (y : Firmware E) → Step board y (check_flow board y)
  watched : (y : Firmware E) → Step board y (check_watchdog board y)
  transmitted : (y : Firmware E) → Step board y (on_world (tx_task board) y)
  interrupted :
      (errors : Bool) (bytes : List ℕ) (y : Firmware E)
      → Step board y
          (on_world (λ w. record w { transport = uart0_irq_handler errors bytes w.transport }) y)
  captured :
      (t : ℕ) (report : Bytes) (n : ℕ) (y : Firmware E)
      → accepts_physical y.world.mode ≡ true
      → Step board y
          (on_world (λ w. record w { capture = (Capture.push t report n w.capture).1 }) y)
  elapsed : (b : E) (y : Firmware E) → Step board y (on_world (λ w. record w { board = b }) y)

-- What the program can come to from its start.
pub data Reach {E : Type 0} (board : Board E) : Firmware E → Type 0 where
  booted : (b : E) → Reach board (boot b)
  next : {y y' : Firmware E} → Reach board y → Step board y y' → Reach board y'

module _ {E : Type 0} (board : Board E) where
  service_release-IsConsistent :
      (y : Firmware E) → IsConsistent y → IsConsistent (service_release board y).1
  unfolding service_release service send_all_keys_release send_boot_report send_report
  service_release-IsConsistent y c =
      keep-IsConsistent y (service_release board y).1 (ground arith) (ground arith) c

  dispatch_physical-IsConsistent :
      (ready : Bool) (y : Firmware E)
      → IsConsistent y
      → IsConsistent (dispatch_physical board ready y)
  unfolding dispatch_physical send_record_event send_frame
  dispatch_physical-IsConsistent ready y c =
      keep-IsConsistent y (dispatch_physical board ready y)
        (dispatch_keeps _ (λ z. z.scheduler.running) (λ r w. refl) (λ e w. refl) y.world.mode
          y.world.capture y)
        (dispatch_keeps _ (λ z. z.world.mode) (λ r w. mode-send_boot_report board r w.world)
          (λ e w. refl) y.world.mode y.world.capture y)
        c

  check_fault-IsConsistent : (y : Firmware E) → IsConsistent y → IsConsistent (check_fault board y)
  unfolding check_fault
  check_fault-IsConsistent y c = if_IsConsistent board _ _ _ (uart_fault-IsConsistent board _ c) c

  check_flow-IsConsistent : (y : Firmware E) → IsConsistent y → IsConsistent (check_flow board y)
  unfolding check_flow
  check_flow-IsConsistent y c =
      if_IsConsistent board _ _ _ (protocol_error-IsConsistent board _ c) c

  check_watchdog-IsConsistent :
      (y : Firmware E) → IsConsistent y → IsConsistent (check_watchdog board y)
  unfolding check_watchdog
  check_watchdog-IsConsistent y c =
      let b = (board.time_us_64 y.world.board).1 in
      let y' = record y { world = record y.world { board = b } } in
      ground (arith, underrun_fault-IsConsistent board y' c)

  mode-tx_loop : (n : ℕ) (w : World E) → (tx_loop board n w).mode ≡ w.mode
  unfolding tx_loop
  mode-tx_loop zero w = refl
  mode-tx_loop (suc n) w = elim (Bool-cases (board.uart_is_writable w.board).0) [
    | inr f ↦ rw (f, tx_loop) refl
    | inl t ↦ elim (Option-cases (pop_tx_byte w.transport).0) [
      | inl e ↦ rw (t, e, tx_loop) refl
      | inr (byte, e) ↦ rw (t, e, tx_loop) (mode-tx_loop n _)
    ]
  ]

  tx_task-IsConsistent :
      (y : Firmware E) → IsConsistent y → IsConsistent (on_world (tx_task board) y)
  unfolding tx_task
  tx_task-IsConsistent y c =
      keep-IsConsistent y (on_world (tx_task board) y) refl
        (mode-tx_loop (suc (distance16 y.world.transport.tx_head y.world.transport.tx_tail))
          y.world)
        c

  Step-IsConsistent : {y y' : Firmware E} → Step board y y' → IsConsistent y → IsConsistent y'
  unfolding poll_uart
  Step-IsConsistent (polled y) c = c
  Step-IsConsistent (fault_checked y) c = check_fault-IsConsistent y c
  Step-IsConsistent (commanded n y) c = run_commands-IsConsistent board n y c
  Step-IsConsistent (released y) c = service_release-IsConsistent y c
  Step-IsConsistent (forwarded ready y) c = dispatch_physical-IsConsistent ready y c
  Step-IsConsistent (played y) c = IsConsistent-task board y c
  Step-IsConsistent (flow_checked y) c = check_flow-IsConsistent y c
  Step-IsConsistent (watched y) c = check_watchdog-IsConsistent y c
  Step-IsConsistent (transmitted y) c = tx_task-IsConsistent y c
  Step-IsConsistent (interrupted errors bytes y) c = c
  Step-IsConsistent (captured t report n y a) c = c
  Step-IsConsistent (elapsed b y) c = c

  Reach-IsConsistent : {y : Firmware E} → Reach board y → IsConsistent y
  Reach-IsConsistent (booted b) = inl refl
  Reach-IsConsistent (next r s) = Step-IsConsistent s (Reach-IsConsistent r)

  -- A task of a scheduler that is not running does nothing.
  idle_task :
      (y : Firmware E)
      → y.scheduler.running ≡ false
      → task (sdk board) (scheduler_callbacks board) y ≡ y
  unfolding task task_loop
  idle_task y f = rw f refl

  -- Whatever the order of the loop's statements, the UART interrupts, the captured reports and the
  -- hardware's answers: in every state that the program can come to, a playback run is under way in PLAYING
  -- only, and in any other mode a call of the scheduler's task changes nothing, so it sends no report.
  pub reachable_silent :
      (y : Firmware E)
      → Reach board y
      → (y.world.mode ≡ mode_playing)
        ⊎ ((y.scheduler.running ≡ false) × (task (sdk board) (scheduler_callbacks board) y ≡ y))
  reachable_silent y r = elim (Reach-IsConsistent r) [
    | inl f ↦ inr (f, idle_task y f)
    | inr p ↦ inl p
  ]

  -- The body of the main loop leads from states that the program can come to, to such states.
  loop_body-Reach : (y : Firmware E) → Reach board y → Reach board (loop_body board y)
  unfolding loop_body serve_commands serve_outputs
  loop_body-Reach y r =
      let fault_seen = check_fault board (poll_uart y) in
      let n = suc (
        distance8 fault_seen.world.transport.command_head
          fault_seen.world.transport.command_tail) in
      let served = run_commands board n fault_seen in
      let (result, serviced) = service_release board served in
      let sent = dispatch_physical board (is_ready result) serviced in
      let ran = task (sdk board) (scheduler_callbacks board) sent in
      let flowing = check_flow board ran in
      let watching =
        next
          (next
            (next
              (next
                (next
                  (next (next (next r (polled y)) (fault_checked (poll_uart y)))
                    (commanded n fault_seen))
                  (released served))
                (forwarded (is_ready result) serviced))
              (played sent))
            (flow_checked ran))
          (watched flowing) in
      next watching (transmitted (check_watchdog board flowing))
