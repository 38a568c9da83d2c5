-- ===== src/Tests/Played.antt =====
-- Concrete inputs for the theorems on playback and on the forwarding of physical reports in the main program:
-- a board that keeps the reports that its endpoint takes, a queue with one event, and a captured report.
use pico_keyboard_rt_recorde.Base.{
  ℕ, ◌≡◌, refl, Bool, ap, ◌∙◌, ◌≢◌, ◌⊎◌, inr, arith, All, true, false, some, List, [], ◌∷◌, ◌++◌,
  pos, get_or, drop,
}
use pico_keyboard_rt_recorde.Hid.{Report, report_bytes, report_of_bytes}
use pico_keyboard_rt_recorde.PlaybackQueue.{Queue, IsValid, init-IsValid, push, push-IsValid}
use pico_keyboard_rt_recorde.PlaybackQueue
use pico_keyboard_rt_recorde.Scheduler
use pico_keyboard_rt_recorde.Scheduler.Task.{task}
use pico_keyboard_rt_recorde.Scheduler.Delivery.{stream}
use pico_keyboard_rt_recorde.Firmware.{Board, World, Firmware, sdk, scheduler_callbacks}
use pico_keyboard_rt_recorde.Firmware.Loop.{boot}
use pico_keyboard_rt_recorde.Protocol.{mode_pass, mode_record}
use pico_keyboard_rt_recorde.Capture
use pico_keyboard_rt_recorde.Capture.{Capture}
use pico_keyboard_rt_recorde.Capture.Refine
use pico_keyboard_rt_recorde.Transport
use pico_keyboard_rt_recorde.Transport.{Transport}
use pico_keyboard_rt_recorde.Transport.TxRing.{IsTxValid}
use pico_keyboard_rt_recorde.Dispatch.Delivery.{unrecorded, reports}
use pico_keyboard_rt_recorde.Firmware.Loop.{dispatch_physical}
use pico_keyboard_rt_recorde.Firmware.Recording.{IsBoot, Queued}
use pico_keyboard_rt_recorde.Firmware.Recording.Forward.{
  to_pc, dispatch_physical_conserves, dispatch_physical_drains,
}
use pico_keyboard_rt_recorde.Firmware.Playback.{HidWired, firmware_delivers}

abbrev unpacked : List ℕ → Report
unpacked bytes = record {
  modifier = get_or bytes 0 0;
  reserved = get_or bytes 1 0;
  keycode = drop 2 bytes;
}

abbrev board : Board (List Report)
board = record {
  time_us_64 = λ e. (2000, e);
  add_alarm_at = λ t e. (pos 1, e);
  cancel_alarm = λ id e. e;
  alarm_interrupt = λ e. (false, e);
  tud_hid_ready = λ e. (true, e);
  tud_hid_report = λ bytes e. (true, e ++ unpacked bytes ∷ []);
  uart_is_writable = λ e. (true, e);
  uart_putc_raw = λ byte e. e;
}

board-HidWired : HidWired board (λ e. e)
unfolding report_bytes
board-HidWired = record {
  taken = λ r e. refl;
  asked = λ e. refl;
  timed = λ e. refl;
  armed = λ t e. refl;
  cancelled = λ id e. refl;
  interrupted = λ e. refl;
}

abbrev key_bytes : List ℕ
key_bytes = 2 ∷ 0 ∷ 4 ∷ 0 ∷ 0 ∷ 0 ∷ 0 ∷ 0 ∷ []

abbrev one_event : Queue
one_event = (push 500 (some key_bytes) 8 PlaybackQueue.init).1

abbrev playing : Firmware (List Report)
playing = record (boot []) {
  queue = one_event;
  scheduler = record Scheduler.init { running = true; waiting_for_event = true };
}

firmware_delivers_example :
    let y' = task (sdk board) (scheduler_callbacks board) playing in
    (stream (λ (w : World (List Report)). w.board) y'
      ≡ stream (λ (w : World (List Report)). w.board) playing)
    × IsValid y'.queue
firmware_delivers_example =
    firmware_delivers board (λ e. e) board-HidWired playing
      (push-IsValid 500 (some key_bytes) 8 init-IsValid)

-- Two captured reports in RECORD, and a transmit ring with room for one more frame only.
abbrev two_reports : Capture
two_reports =
    (Capture.push 200 (some key_bytes) 8 (Capture.push 100 (some key_bytes) 8 Capture.init).1).1

two_reports-IsValid : Capture.IsValid two_reports
two_reports-IsValid =
    Capture.push-IsValid 200 (some key_bytes) 8
      (Capture.push-IsValid 100 (some key_bytes) 8 Capture.init-IsValid)

abbrev captured : ℕ → Capture.Event
captured t = Capture.event_of t (some key_bytes) 8

contents-one_report :
    Refine.contents (Capture.push 100 (some key_bytes) 8 Capture.init).1 ≡ captured 100 ∷ []
contents-one_report =
    ap (λ (p : Bool × List Capture.Event). p.1)
      (Refine.contents-push 100 (some key_bytes) 8 Capture.init-IsValid)
    ∙ ap (λ xs. (Refine.offer 100 (some key_bytes) 8 xs).1) (Refine.contents-nil Capture.init refl)

contents-two_reports : Refine.contents two_reports ≡ captured 100 ∷ captured 200 ∷ []
contents-two_reports =
    ap (λ (p : Bool × List Capture.Event). p.1)
      (Refine.contents-push 200 (some key_bytes) 8
        (Capture.push-IsValid 100 (some key_bytes) 8 Capture.init-IsValid))
    ∙ ap (λ xs. (Refine.offer 200 (some key_bytes) 8 xs).1) contents-one_report

two_reports-IsBoot : All IsBoot (unrecorded two_reports)
unfolding Capture.push report_of_bytes Capture.head_recorded
two_reports-IsBoot = rw contents-two_reports (refl, (refl, tt))

abbrev crowded : Transport
crowded = record Transport.init { tx_head = 2010 }

crowded-IsTxValid : IsTxValid crowded
crowded-IsTxValid = record { head_in = omega arith; tail_in = omega arith; bounded = omega arith }

abbrev recording : Firmware (List Report)
recording = record (boot []) {
  world = record (boot []).world { capture = two_reports; transport = crowded; mode = mode_record };
}

dispatch_physical_conserves_example :
    let y' = dispatch_physical board true recording in
    (to_pc (λ e. e) y' ≡ to_pc (λ e. e) recording)
    × (((mode_record ≡ mode_record)
          × (new : List Capture.Event) × (unrecorded two_reports
              ≡ new ++ unrecorded y'.world.capture)
          × Queued new crowded y'.world.transport)
        ⊎ ((mode_record ≢ mode_record) × (y'.world.transport ≡ crowded)))
dispatch_physical_conserves_example =
    dispatch_physical_conserves board (λ e. e) board-HidWired true recording two_reports-IsValid
      crowded-IsTxValid two_reports-IsBoot

dispatch_physical_drains_example :
    let y' = dispatch_physical board true recording in
    (Refine.contents y'.world.capture ≡ [])
    × (y'.world.board ≡ [] ++ reports (Refine.contents two_reports))
    × (((mode_record ≡ mode_record) × Queued (unrecorded two_reports) crowded y'.world.transport)
        ⊎ ((mode_record ≡ mode_pass) × (y'.world.transport ≡ crowded)))
dispatch_physical_drains_example =
    dispatch_physical_drains board (λ e. e) board-HidWired recording (λ e. refl) (λ bytes e. refl)
      (inr refl) two_reports-IsValid crowded-IsTxValid two_reports-IsBoot
