-- ===== src/Firmware.antt =====
-- pico/src/main.c, pico/src/hid_keyboard_device.c and pico/src/uart_transport_pico.c: the objects of the
-- main program, what it takes from the board, and the callbacks that tie the components together.
pub mod Words
pub mod Commands
pub mod Loop
pub mod Modes
pub mod Consistent
pub mod QueueCommands
pub mod Playing
pub mod Reach
pub mod Closed
pub mod ClosedRules
pub mod ClosedSteps
pub mod ClosedLoop
pub mod StepRule
pub mod Valid
pub mod Owned
pub mod Faults
pub mod Interrupts
pub mod Transmit
pub mod Serve
pub mod TestSource
pub mod Credit
pub mod Startup
pub mod Uart
pub mod Finish
pub mod Playback
pub mod Recording
use pico_keyboard_rt_recorde.Base.{
  ℕ, ◌/◌, ◌%◌, not, Bool, true, false, Option, none, some, List, [], ◌∷◌, ◌++◌, ◌==◌, if◌then◌else◌,
  drop, u16, ℤ, pos, unsigned32, unsigned64,
}
use pico_keyboard_rt_recorde.Protocol.{
  reason_finished, play_finished, play_aborted, play_metrics, play_underrun, buffer_status,
  pico_status, record_event, mode_changed,
}
use pico_keyboard_rt_recorde.Protocol.Codec.{Bytes}
use pico_keyboard_rt_recorde.Transport.{Transport, get_stats}
use pico_keyboard_rt_recorde.Transport.Send.{queue_frame}
use pico_keyboard_rt_recorde.Hid.{Report, release_all, report_bytes}
use pico_keyboard_rt_recorde.PlaybackQueue
use pico_keyboard_rt_recorde.PlaybackQueue.{Queue, free_capacity}
use pico_keyboard_rt_recorde.Capture
use pico_keyboard_rt_recorde.Capture.{Capture}
use pico_keyboard_rt_recorde.SafetyRelease.{SafetyRelease, request}
use pico_keyboard_rt_recorde.Mode
use pico_keyboard_rt_recorde.Mode.{Moded}
use pico_keyboard_rt_recorde.Scheduler.{System, Sdk, Metrics}
use pico_keyboard_rt_recorde.Scheduler
use pico_keyboard_rt_recorde.Scheduler.Run.{stop, reset_sequence}
use pico_keyboard_rt_recorde.Firmware.Words.{le_bytes}

-- What the program takes from the Pico SDK and from TinyUSB, on the state `E` of the hardware.
pub record Board (E : Type 0) : Type 0 where
  pub time_us_64 : E → ℕ × E
  pub add_alarm_at : ℕ → E → ℤ × E
  pub cancel_alarm : ℤ → E → E
  pub alarm_interrupt : E → Bool × E
  pub tud_hid_ready : E → Bool × E
  pub tud_hid_report : List ℕ → E → Bool × E
  pub uart_is_writable : E → Bool × E
  pub uart_putc_raw : ℕ → E → E

-- The file-level objects of main.c but for the scheduler and its queue; `mode` is the state of
-- `mode_state`, `flow_fault` is `playback_flow_control_fault`.
pub record World (E : Type 0) : Type 0 where
  pub capture : Capture
  pub transport : Transport
  pub mode : ℕ
  pub release : SafetyRelease
  pub flow_fault : Bool
  pub board : E

-- All objects of main.c.
abbrev pub Firmware : Type 0 → Type 0
Firmware E = System (World E)

-- The payload of PLAY_METRICS.
unfoldable pub metrics_payload : Metrics → List ℕ
metrics_payload m =
    le_bytes 4 m.dispatched_count
    ++ le_bytes 4 m.underrun_count
    ++ le_bytes 4 (unsigned32 m.min_lateness_us)
    ++ le_bytes 4 (unsigned32 m.max_lateness_us)
    ++ le_bytes 8 (unsigned64 m.sum_lateness_us)
    ++ le_bytes 4 (unsigned32 m.p95_lateness_us)
    ++ le_bytes 4 (unsigned32 m.p99_lateness_us)
    ++ (if m.samples_truncated then 1 else 0) ∷ []

module _ {E : Type 0} where
  -- `pico_uart_transport_queue_frame` on the program's transport.
  unfoldable pub send_frame : ℕ → Bytes → ℕ → World E → Bool × World E
  send_frame type payload n w =
      let (queued, t) = queue_frame type payload n w.transport in
      (queued, record w { transport = t })

  abbrev pub on_world : (World E → World E) → Firmware E → Firmware E
  on_world f y = record y { world = f y.world }

  unfoldable pub mode_all_release : Firmware E → Firmware E
  mode_all_release y = record y { world = record y.world { release = request y.world.release } }

  unfoldable pub mode_clear_physical : Firmware E → Firmware E
  mode_clear_physical y = record y {
    world = record y.world { capture = Capture.clear y.world.capture };
  }

  unfoldable pub send_mode_changed : ℕ → ℕ → Firmware E → Firmware E
  unfolding send_frame
  send_mode_changed state reason y = record y {
    world = (send_frame mode_changed (some (state ∷ reason ∷ [])) 2 y.world).1;
  }

  unfoldable pub send_record_event : Capture.Event → Firmware E → Firmware E
  unfolding send_frame
  send_record_event e y =
      let payload = le_bytes 8 e.timestamp_us ++ e.report_len ∷ report_bytes e.report in
      record y { world = (send_frame record_event (some payload) 17 y.world).1 }

  -- `playback_complete` up to its second test of the reason.
  unfoldable pub report_completion : ℕ → Metrics → Firmware E → Firmware E
  unfolding send_frame metrics_payload
  report_completion reason m y =
      let type = if reason == reason_finished then play_finished else play_aborted in
      let w = (send_frame type none 0 y.world).1 in
      record y { world = (send_frame play_metrics (some (metrics_payload m)) 33 w).1 }

  unfoldable pub send_status : World E → World E
  unfolding send_frame
  send_status w =
      let s = get_stats w.transport in
      let payload =
        w.mode
        ∷ (if not (s.rx_overflow == 0) then 1 else 0)
        ∷ (if not (s.hardware_errors == 0) then 1 else 0)
        ∷ (if not (s.invalid_frames == 0) then 1 else 0)
        ∷ (if not (s.tx_dropped == 0) then 1 else 0)
        ∷ [] in
      (send_frame pico_status (some payload) 5 w).1

  unfoldable pub send_buffer_status : Queue → World E → Bool × World E
  unfolding send_frame
  send_buffer_status q w =
      let queued_count = u16 q.count in
      let free = u16 (free_capacity q) in
      let payload =
        w.mode ∷ queued_count % 256 ∷ queued_count / 256 ∷ free % 256 ∷ free / 256 ∷ [] in
      send_frame buffer_status (some payload) 5 w

  unfoldable pub playback_underrun : ℕ → ℕ → World E → World E
  unfolding send_frame
  playback_underrun elapsed_offset_us free w =
      let payload = le_bytes 8 elapsed_offset_us ++ free % 256 ∷ free / 256 ∷ [] in
      let (queued, w') = send_frame play_underrun (some payload) 10 w in
      if not queued then record w' { flow_fault = true } else w'

  unfoldable pub playback_buffer_available : Queue → World E → World E
  unfolding send_buffer_status
  playback_buffer_available q w =
      let (queued, w') = send_buffer_status q w in
      if not queued then record w' { flow_fault = true } else w'

module _ {E : Type 0} (board : Board E) where
  -- `pico_hid_keyboard_send_report` of a report of the right length.
  unfoldable pub send_report : List ℕ → World E → Bool × World E
  send_report bytes w =
      let (is_ready, b) = board.tud_hid_ready w.board in
      let (taken, b') = board.tud_hid_report bytes b in
      if not is_ready then (false, record w { board = b }) else (taken, record w { board = b' })

  unfoldable pub send_boot_report : Report → World E → Bool × World E
  unfolding send_report
  send_boot_report r = send_report (report_bytes r)

  unfoldable pub send_all_keys_release : World E → Bool × World E
  unfolding send_boot_report
  send_all_keys_release = send_boot_report release_all

  -- The SDK as the scheduler sees it.
  abbrev pub sdk : Sdk (World E)
  sdk = record {
    time_us_64 = λ w. let (now, b) = board.time_us_64 w.board in (now, record w { board = b });
    add_alarm_at =
        λ t w. let (id, b) = board.add_alarm_at t w.board in (id, record w { board = b });
    cancel_alarm = λ id w. record w { board = board.cancel_alarm id w.board };
    alarm_interrupt =
        λ w. let (fired, b) = board.alarm_interrupt w.board in (fired, record w { board = b });
  }

  -- The scheduler's callbacks, with the part of `playback_complete` that changes the mode as a parameter.
  abbrev pub callbacks_with : (Firmware E → Firmware E) → Scheduler.Callbacks (World E)
  callbacks_with finish = record {
    send_report = some send_boot_report;
    on_complete = some (λ reason m y.
        let y' = report_completion reason m y in
        if reason == reason_finished then finish y' else y');
    on_underrun = some playback_underrun;
    on_buffer_available = some playback_buffer_available;
  }

  -- `stop` ends a run with the reason ABORTED, on which `playback_complete` leaves the mode alone: the C
  -- functions are mutually recursive, but never recur.
  unfoldable pub mode_clear_queue : Firmware E → Firmware E
  mode_clear_queue y =
      let y' = stop sdk (callbacks_with (λ z. z)) y in
      record {
        scheduler = reset_sequence y'.scheduler;
        queue = PlaybackQueue.clear y'.queue;
        world = record y'.world { flow_fault = false };
      }

  abbrev pub mode_callbacks : Mode.Callbacks (Firmware E)
  mode_callbacks = record {
    all_release = some mode_all_release;
    clear_physical = some mode_clear_physical;
    clear_queue = some mode_clear_queue;
    mode_changed = some send_mode_changed;
  }

-- An operation of the mode object, whose state stands in the program's objects.
unfoldable pub on_mode :
    {E : Type 0} → (Moded (Firmware E) → Moded (Firmware E)) → Firmware E → Firmware E
on_mode op y =
    let m = op (record { state = y.world.mode; world = y }) in
    record m.world { world = record m.world.world { mode = m.state } }

module _ {E : Type 0} (board : Board E) where
  -- The end of `playback_complete` for a run that has finished.
  unfoldable pub finish_mode : Firmware E → Firmware E
  unfolding on_mode
  finish_mode = on_mode (λ m. (Mode.play_finish (mode_callbacks board) m).1)

  abbrev pub scheduler_callbacks : Scheduler.Callbacks (World E)
  scheduler_callbacks = callbacks_with board (finish_mode)
