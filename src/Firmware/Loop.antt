-- ===== src/Firmware/Loop.antt =====
-- The start of `main` and the body of its loop, pico/src/main.c, with the UART interrupt and `tx_task` of
-- pico/src/uart_transport_pico.c.
use pico_keyboard_rt_recorde.Base.{
  ℕ, zero, suc, not, Bool, true, false, none, some, List, [], ◌∷◌, ◌==◌, if◌then◌else◌,
}
use pico_keyboard_rt_recorde.Protocol.{mode_pass, mode_playing}
use pico_keyboard_rt_recorde.Transport
use pico_keyboard_rt_recorde.Transport.{Transport, distance8, distance16, take_fault}
use pico_keyboard_rt_recorde.Transport.Commands.{pop_command}
use pico_keyboard_rt_recorde.Transport.Receive.{rx_push_isr, hardware_error_isr, poll}
use pico_keyboard_rt_recorde.Transport.Send.{pop_tx_byte}
use pico_keyboard_rt_recorde.PlaybackQueue
use pico_keyboard_rt_recorde.Capture
use pico_keyboard_rt_recorde.SafetyRelease
use pico_keyboard_rt_recorde.SafetyRelease.{Result, blocked, sent, ready, service}
use pico_keyboard_rt_recorde.Mode
use pico_keyboard_rt_recorde.Dispatch.{Output, dispatch}
use pico_keyboard_rt_recorde.Scheduler
use pico_keyboard_rt_recorde.Scheduler.Run.{watchdog_expired}
use pico_keyboard_rt_recorde.Scheduler.Task.{task}
use pico_keyboard_rt_recorde.Firmware.{
  Board, World, Firmware, on_mode, on_world, mode_callbacks, scheduler_callbacks, sdk,
  send_boot_report, send_all_keys_release, send_record_event,
}
use pico_keyboard_rt_recorde.Firmware.Commands.{protocol_error, dispatch_command}

-- The objects after the initialisation.
abbrev pub boot : {E : Type 0} → E → Firmware E
boot b = record {
  scheduler = Scheduler.init;
  queue = PlaybackQueue.init;
  world = record {
    capture = Capture.init;
    transport = Transport.init;
    mode = mode_pass;
    release = SafetyRelease.init;
    flow_fault = false;
    board = b;
  };
}

-- The bytes that one interrupt reads.
unfoldable pub receive_all : List ℕ → Transport → Transport
receive_all [] t = t
receive_all (b ∷ bs) t = receive_all bs (rx_push_isr b t)

-- `uart0_irq_handler`; `errors` is `rsr != 0`.
unfoldable pub uart0_irq_handler : Bool → List ℕ → Transport → Transport
unfolding receive_all
uart0_irq_handler errors bytes t = receive_all bytes (if errors then hardware_error_isr t else t)

abbrev pub is_ready : Result → Bool
is_ready ready = true
is_ready _ = false

unfoldable pub poll_uart : {E : Type 0} → Firmware E → Firmware E
poll_uart y = record y { world = record y.world { transport = poll y.world.transport } }

module _ {E : Type 0} (board : Board E) where
  -- The loop over the parsed commands, on fuel.
  unfoldable pub run_commands : ℕ → Firmware E → Firmware E
  run_commands zero y = y
  run_commands (suc n) y = elim (pop_command y.world.transport).0 [
    | none ↦ y
    | some frame ↦
        let t = (pop_command y.world.transport).1 in
        run_commands n
          (dispatch_command board frame (record y { world = record y.world { transport = t } }))
  ]

  unfoldable pub service_release : Firmware E → Result × Firmware E
  service_release y =
      let (result, r, w) = service (some (send_all_keys_release board)) y.world.release y.world in
      (result, record y { world = record w { release = r } })

  -- The senders that the loop passes to the dispatcher.
  abbrev pub physical_output : Bool → Output (Firmware E)
  physical_output output_ready = record {
    hid_output_ready = output_ready;
    send_pass_report = some (λ r z.
        let (taken, w) = send_boot_report board r z.world in (taken, record z { world = w }));
    send_record_event = some send_record_event;
  }

  unfoldable pub dispatch_physical : Bool → Firmware E → Firmware E
  dispatch_physical output_ready y =
      let (c, y') = dispatch (physical_output output_ready) y.world.mode y.world.capture y in
      record y' { world = record y'.world { capture = c } }

  unfoldable pub check_flow : Firmware E → Firmware E
  check_flow y =
      if y.world.flow_fault
      then protocol_error board (record y { world = record y.world { flow_fault = false } })
      else y

  -- The clock is read in PLAYING only.
  unfoldable pub check_watchdog : Firmware E → Firmware E
  check_watchdog y =
      let (now_us, b) = board.time_us_64 y.world.board in
      let y' = record y { world = record y.world { board = b } } in
      if not (y.world.mode == mode_playing)
      then y
      else if watchdog_expired y.scheduler now_us
      then on_mode (Mode.underrun_fault (mode_callbacks board)) y'
      else y'

  -- The loop of `tx_task`, on fuel.
  unfoldable pub tx_loop : ℕ → World E → World E
  tx_loop zero w = w
  tx_loop (suc n) w = elim (board.uart_is_writable w.board).0 [
    | false ↦ record w { board = (board.uart_is_writable w.board).1 }
    | true ↦ elim (pop_tx_byte w.transport).0 [
      | none ↦ record w { board = (board.uart_is_writable w.board).1 }
      | some byte ↦ tx_loop n (record w {
        transport = (pop_tx_byte w.transport).1;
        board = board.uart_putc_raw byte (board.uart_is_writable w.board).1;
      })
    ]
  ]

  -- Every turn takes one byte out of the ring; the last one finds it empty.
  unfoldable pub tx_task : World E → World E
  unfolding tx_loop
  tx_task w = tx_loop (suc (distance16 w.transport.tx_head w.transport.tx_tail)) w

  unfoldable pub check_fault : Firmware E → Firmware E
  check_fault y =
      let (fault, t) = take_fault y.world.transport in
      let y' = record y { world = record y.world { transport = t } } in
      if fault then on_mode (Mode.uart_fault (mode_callbacks board)) y' else y'

  -- From the poll to the release.
  unfoldable pub serve_commands : Firmware E → Firmware E
  unfolding poll_uart check_fault run_commands
  serve_commands y =
      let y' = check_fault (poll_uart y) in
      run_commands (suc (distance8 y'.world.transport.command_head y'.world.transport.command_tail))
        y'

  -- From the release to the end of the body, but for the pause.
  unfoldable pub serve_outputs : Firmware E → Firmware E
  unfolding service_release dispatch_physical check_flow check_watchdog tx_task
  serve_outputs y =
      let (result, y') = service_release y in
      let played =
        task (sdk board) (scheduler_callbacks board) (dispatch_physical (is_ready result) y') in
      on_world tx_task (check_watchdog (check_flow played))

  unfoldable pub loop_body : Firmware E → Firmware E
  unfolding serve_commands serve_outputs
  loop_body y = serve_outputs (serve_commands y)
