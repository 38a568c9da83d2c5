-- ===== src/Tests/Loop.antt =====
-- Concrete inputs for the theorems on the statements of the loop of pico/src/main.c: a board that keeps the
-- bytes written to its UART, and whose other devices stand still.
use pico_keyboard_rt_recorde.Base.{
  ℕ, ◌+◌, ◌≡◌, refl, ◌⊎◌, ◌≢◌, true, false, List, [], ◌∷◌, ◌++◌, pos, arith, length, ◌≤◌, ◌<◌,
  length-window,
}
use pico_keyboard_rt_recorde.Protocol.{
  Frame, mode_changed, reason_finished, mode_pass, mode_error, mode_armed, mode_set,
  reason_uart_fault, mode_playing, queue_event,
}
use pico_keyboard_rt_recorde.Protocol.RoundTrip.{frame_of, wire}
use pico_keyboard_rt_recorde.Transport.{Transport, init, tx_ring_capacity, command_capacity}
use pico_keyboard_rt_recorde.Transport.CommandRing.{IsCommandValid, waiting}
use pico_keyboard_rt_recorde.Transport.TxRing.{IsTxValid, tx_count, tx_pending}
use pico_keyboard_rt_recorde.Transport.Drain.{IsRxValid}
use pico_keyboard_rt_recorde.PlaybackQueue
use pico_keyboard_rt_recorde.PlaybackQueue.{init-IsValid, queue_capacity}
use pico_keyboard_rt_recorde.Mode.{enter_error}
use pico_keyboard_rt_recorde.Firmware.{
  Board, World, Firmware, on_mode, on_world, mode_callbacks, send_mode_changed, scheduler_callbacks,
  sdk, send_buffer_status,
}
use pico_keyboard_rt_recorde.Firmware.Loop.{boot, run_commands, tx_loop, tx_task}
use pico_keyboard_rt_recorde.Firmware.Commands.{protocol_error, dispatch_command}
use pico_keyboard_rt_recorde.Firmware.Credit.{with_event, status_wire}
use pico_keyboard_rt_recorde.Firmware.Credit.Answer.{Credited, queue_event_answered}
use pico_keyboard_rt_recorde.PlaybackQueue.Refine.{contents}
use pico_keyboard_rt_recorde.Scheduler
use pico_keyboard_rt_recorde.Scheduler.Run.{run_dry, metrics, ended}
use pico_keyboard_rt_recorde.Firmware.Finish.{closing}
use pico_keyboard_rt_recorde.Firmware.Finish.Report.{finished_run_reported}
use pico_keyboard_rt_recorde.Firmware.Faults.{IsStopped, fault_stops_safely}
use pico_keyboard_rt_recorde.Firmware.Transmit.{Wired, Sent, tx_task_conserves}
use pico_keyboard_rt_recorde.Firmware.Serve.{serve, run_commands_serves}
use pico_keyboard_rt_recorde.Firmware.TestSource.{
  TestSource, running, fill_loop, fill_available_slots,
}
use pico_keyboard_rt_recorde.Firmware.TestSource.Fill.{Filled, fill_available_slots_lem}

abbrev pub board : Board (List ℕ)
board = record {
  time_us_64 = λ e. (1000, e);
  add_alarm_at = λ t e. (pos 1, e);
  cancel_alarm = λ id e. e;
  alarm_interrupt = λ e. (false, e);
  tud_hid_ready = λ e. (true, e);
  tud_hid_report = λ bytes e. (true, e);
  uart_is_writable = λ e. (true, e);
  uart_putc_raw = λ byte e. e ++ byte ∷ [];
}

board-Wired : Wired board (λ e. e)
board-Wired = record { written = λ b e. refl; asked = λ e. refl }

abbrev recording : Firmware (List ℕ)
recording = on_world (λ (w : World (List ℕ)). record w { mode = 1 }) (boot [])

fault_stops_safely_example :
    let y' = on_mode (enter_error (mode_callbacks board) reason_uart_fault) recording in
    (((1 ≡ mode_pass) ⊎ (1 ≡ mode_error)) × (y' ≡ send_mode_changed 1 reason_uart_fault recording))
    ⊎ ((1 ≢ mode_pass) × (1 ≢ mode_error) × IsStopped y')
fault_stops_safely_example = fault_stops_safely board reason_uart_fault recording

-- MODE_SET(ARMED), in two interrupts with a poll between them.
abbrev arm_frame : Frame
arm_frame = frame_of mode_set 1 (mode_armed ∷ [])

init-IsRxValid : IsRxValid init
init-IsRxValid = omega arith

init-IsCommandValid : IsCommandValid init
init-IsCommandValid = omega arith

-- Two commands wait, and five bytes wait for the UART.
abbrev loaded_ring : Transport
loaded_ring = record init {
  commands = λ _. arm_frame;
  command_head = 2;
  tx_head = 3;
  tx_tail = 65534;
}

loaded_ring-IsCommandValid : IsCommandValid loaded_ring
loaded_ring-IsCommandValid = record {
  head_in = omega arith;
  tail_in = omega arith;
  bounded = omega arith;
}

loaded_ring-IsTxValid : IsTxValid loaded_ring
loaded_ring-IsTxValid = record {
  head_in = omega arith;
  tail_in = omega arith;
  bounded = omega arith;
}

abbrev loaded : Firmware (List ℕ)
loaded = on_world (λ (w : World (List ℕ)). record w { transport = loaded_ring }) (boot [])

two_wait : length (waiting loaded_ring) < 3
two_wait = omega (arith, length-window loaded_ring.commands command_capacity 0 2)

run_commands_serves_example :
    (run_commands board 7 loaded ≡ serve board (waiting loaded_ring) loaded)
    × (waiting (run_commands board 7 loaded).world.transport ≡ [])
    × IsCommandValid (run_commands board 7 loaded).world.transport
run_commands_serves_example =
    run_commands_serves board 3 4 loaded loaded_ring-IsCommandValid two_wait

tx_task_conserves_example :
    Sent board (λ e. e) loaded.world (tx_task board loaded.world)
    × (tx_loop board (1 + tx_count loaded_ring + 2) loaded.world ≡ tx_task board loaded.world)
tx_task_conserves_example =
    tx_task_conserves board (λ e. e) board-Wired 2 loaded.world loaded_ring-IsTxValid

-- QUEUE_EVENT with a key press at 5 us, in ARMED.
abbrev event_frame : Frame
event_frame =
    frame_of queue_event 17 (5 ∷ 0 ∷ 0 ∷ 0 ∷ 0 ∷ 0 ∷ 0 ∷ 0 ∷ 8 ∷ 0 ∷ 0 ∷ 4 ∷ 0 ∷ 0 ∷ 0 ∷ 0 ∷ 0 ∷ [])

abbrev loading : Firmware (List ℕ)
loading = on_world (λ (w : World (List ℕ)). record w { mode = mode_armed }) loaded

queue_event_answered_example :
    let y' = dispatch_command board event_frame loading in
    let told = (send_buffer_status (with_event event_frame loading) loading.world).1 in
    ((((mode_armed ≢ mode_armed) × (mode_armed ≢ mode_playing))
        ⊎ (length (contents loading.queue) ≡ queue_capacity))
      × (y' ≡ protocol_error board loading))
    ⊎ (((mode_armed ≡ mode_armed) ⊎ (mode_armed ≡ mode_playing))
        × (length (contents loading.queue) < queue_capacity)
        × (tx_ring_capacity
            < length (tx_pending loading.world.transport)
              + length
                  (status_wire mode_armed (length (contents (with_event event_frame loading)))))
        × (y'
            ≡ protocol_error board
                (record loading { queue = with_event event_frame loading; world = told })))
    ⊎ (((mode_armed ≡ mode_armed) ⊎ (mode_armed ≡ mode_playing))
        × (length (contents loading.queue) < queue_capacity)
        × Credited event_frame loading y')
queue_event_answered_example =
    queue_event_answered board event_frame loading refl init-IsValid loaded_ring-IsTxValid

-- A run in PLAYING whose queue is empty and whose sequence has ended.
abbrev played : Firmware (List ℕ)
played = record (boot []) {
  scheduler = record Scheduler.init { running = true; sequence_ended = true };
  world = record (boot []).world { mode = mode_playing; transport = loaded_ring };
}

five_wait : length (tx_pending loaded_ring) + 56 ≤ tx_ring_capacity
five_wait = omega (arith, length-window loaded_ring.tx_bytes tx_ring_capacity 65534 5)

finished_run_reported_example :
    let y' = run_dry (sdk board) (scheduler_callbacks board) played in
    (tx_pending y'.world.transport
      ≡ (tx_pending loaded_ring ++ closing (metrics (ended played.scheduler)))
        ++ wire mode_changed 2 (mode_armed ∷ reason_finished ∷ []))
    × (y'.world.mode ≡ mode_armed)
    × (y'.scheduler.running ≡ false)
    × (contents y'.queue ≡ [])
    × (y'.world.release.pending ≡ true)
finished_run_reported_example =
    finished_run_reported board played refl refl loaded_ring-IsTxValid five_wait

-- Ten events were pushed.
abbrev started : TestSource
started = record { attached = true; stage = running; pushed_count = 10 }

fill_available_slots_lem_example :
    (let (s', q') = fill_available_slots (started, PlaybackQueue.init) in
      Filled started PlaybackQueue.init s' q')
    × (fill_loop 994 (started, PlaybackQueue.init)
        ≡ fill_available_slots (started, PlaybackQueue.init))
fill_available_slots_lem_example =
    fill_available_slots_lem 3 started PlaybackQueue.init init-IsValid (omega arith)
