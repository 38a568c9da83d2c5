-- ===== src/Tests/Main.antt =====
-- Concrete inputs for the theorems on the main program and the USB host callbacks: a board whose clock
-- stands still, whose endpoint takes every report, and whose UART is always writable.
use pico_keyboard_rt_recorde.Base.{
  ℕ, ◌+◌, ◌≡◌, refl, ◌⊎◌, true, false, some, List, [], ◌∷◌, ◌++◌, pos, arith, if◌then◌else◌, All,
}
use pico_keyboard_rt_recorde.Protocol.{mode_armed, mode_record, mode_playing, mode_pass}
use pico_keyboard_rt_recorde.Capture
use pico_keyboard_rt_recorde.Capture.{init-IsValid}
use pico_keyboard_rt_recorde.Capture.Refine.{contents, offer}
use pico_keyboard_rt_recorde.Scheduler.Task.{task}
use pico_keyboard_rt_recorde.Firmware.{on_world, World, Board, Firmware, scheduler_callbacks, sdk}
use pico_keyboard_rt_recorde.Firmware.Loop.{boot, poll_uart, run_commands, uart0_irq_handler}
use pico_keyboard_rt_recorde.Firmware.Reach.{
  Reach, booted, next, interrupted, polled, commanded, reachable_silent,
}
use pico_keyboard_rt_recorde.PlaybackQueue.Refine.{contents as queued}
use pico_keyboard_rt_recorde.Firmware.Owned.{reachable_owned}
use pico_keyboard_rt_recorde.Firmware.Valid.{AllValid, reachable_valid}
use pico_keyboard_rt_recorde.Host.{Host, Tuh, init, accepts, report_received_cb}
use pico_keyboard_rt_recorde.Host.Exclusive.{
  Call, mount, unmount, report, run, Asks, Mounted, ForOther, others_ignored,
  report_received_rearms,
}

abbrev board : Board ℕ
board = record {
  time_us_64 = λ e. (1000, e);
  add_alarm_at = λ t e. (pos 1, e);
  cancel_alarm = λ id e. e;
  alarm_interrupt = λ e. (false, e);
  tud_hid_ready = λ e. (true, e);
  tud_hid_report = λ bytes e. (true, e);
  uart_is_writable = λ e. (true, e);
  uart_putc_raw = λ byte e. e + 1;
}

-- MODE_SET(ARMED) on the wire.
abbrev arm_bytes : List ℕ
arm_bytes = 165 ∷ 2 ∷ 135 ∷ 1 ∷ 0 ∷ 2 ∷ 232 ∷ 206 ∷ []

-- The program behind the interrupt that reads the command, and behind the poll and the command loop.
abbrev interrupted_once : Firmware ℕ
interrupted_once =
    on_world
      (λ (w : World ℕ). record w { transport = uart0_irq_handler false arm_bytes w.transport })
      (boot 0)

abbrev armed : Firmware ℕ
armed = run_commands board 9 (poll_uart interrupted_once)

armed-Reach : Reach board armed
armed-Reach =
    next (next (next (booted 0) (interrupted false arm_bytes (boot 0))) (polled interrupted_once))
      (commanded 9 (poll_uart interrupted_once))

reachable_silent_example :
    (armed.world.mode ≡ mode_playing)
    ⊎ ((armed.scheduler.running ≡ false)
        × (task (sdk board) (scheduler_callbacks board) armed ≡ armed))
reachable_silent_example = reachable_silent board armed armed-Reach

reachable_owned_example :
    ((queued armed.queue ≡ [])
      ⊎ (armed.world.mode ≡ mode_armed)
      ⊎ (armed.world.mode ≡ mode_playing))
    × ((contents armed.world.capture ≡ [])
        ⊎ (armed.world.mode ≡ mode_pass)
        ⊎ (armed.world.mode ≡ mode_record))
reachable_owned_example = reachable_owned board armed armed-Reach

reachable_valid_example : AllValid armed
reachable_valid_example = reachable_valid board armed armed-Reach

-- TinyUSB, with a log of the requests; every interface is a keyboard.
abbrev tuh : Tuh (List (ℕ × ℕ))
tuh = record {
  hid_receive_report = λ a i w. (true, w ++ (a, i) ∷ []);
  hid_interface_protocol = λ a i w. 1;
  time_us_64 = λ w. (5000, w);
}

tuh-Asks : Asks tuh (λ w. w)
tuh-Asks = record { request_asks = λ a i w. refl; time_keeps = λ w. refl }

abbrev keyboard : Host
keyboard = record (init Capture.init (some mode_pass)) {
  mounted = true;
  dev_addr = 1;
  instance_number = 0;
}

keyboard-Mounted : Mounted 1 0 keyboard
keyboard-Mounted = record { present = refl; address = refl; number = refl }

abbrev key_bytes : List ℕ
key_bytes = 2 ∷ 0 ∷ 4 ∷ 0 ∷ 0 ∷ 0 ∷ 0 ∷ 0 ∷ []

abbrev calls : List Call
calls = mount 2 0 ∷ report 2 0 (some key_bytes) 8 ∷ unmount 1 1 ∷ []

calls-ForOther : All (ForOther 1 0) calls
calls-ForOther = ground arith

others_ignored_example :
    let (h', w') = run tuh calls (keyboard, []) in
    Mounted 1 0 h' × (h'.capture ≡ keyboard.capture) × (w' ≡ [])
others_ignored_example =
    others_ignored tuh (λ w. w) tuh-Asks 1 0 calls keyboard [] keyboard-Mounted calls-ForOther

report_received_rearms_example :
    let (h', w') = report_received_cb tuh 1 0 (some key_bytes) 8 (keyboard, []) in
    (w' ≡ (1, 0) ∷ [])
    × Mounted 1 0 h'
    × (contents h'.capture ≡ (
        if accepts keyboard.mode
        then (offer 5000 (some key_bytes) 8 (contents keyboard.capture)).1
        else contents keyboard.capture))
report_received_rearms_example =
    report_received_rearms tuh (λ w. w) tuh-Asks 1 0 8 (some key_bytes) keyboard [] keyboard-Mounted
      init-IsValid
