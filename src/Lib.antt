-- ===== src/Lib.antt =====
-- Verification of the firmware of pico-keyboard-rt-recorder (pico/).
--
-- The firmware stands between a USB keyboard and a PC. It captures physical reports, forwards and records
-- them, plays queued events back at exact times, and talks to the Zero over a UART. The other end of that link,
-- the Python service under zero/, is modelled as far as the protocol goes. The parts, and the files that
-- model them:
--
--   Protocol             pico/src/uart_protocol.c: message tables, `pico_uart_crc16` (Protocol/Crc),
--                        `pico_uart_encode_frame` and `pico_uart_decode_frame` (Protocol/Codec).
--   Transport            pico/src/uart_transport.c: the state; the interrupt side and `poll` are in
--                        Transport/Receive, the command ring in Transport/Commands, the transmit ring in
--                        Transport/Send. Transport/TxRing and Transport/CommandRing relate the
--                        rings to lists; Transport/Parse runs the parser over a whole frame,
--                        Transport/Resync over damaged input, and Transport/Drain over the receive ring.
--                        Transport/Valid and Transport/ValidRings hold the invariant of all rings, and
--                        Transport/Closed the induction principle for the parser.
--   Hid                  pico/src/hid_boot_keyboard.c: the 8-byte report.
--   PlaybackQueue        pico/src/playback_queue.c: the FIFO of future events; PlaybackQueue/Spec is its
--                        abstract view.
--   Capture              pico/src/keyboard_capture.c: the FIFO of physical reports.
--   SafetyRelease        pico/src/safety_release.c: the owed all-keys release.
--   Mode                 pico/src/mode_state.c: the modes; Mode/Abstract and Mode/Safety hold the diagram of
--                        docs/protocol.md, Mode/Outcome the callbacks that each arrow calls.
--   Dispatch             pico/src/physical_report_dispatch.c: capture to PC and to the recording; Dispatch/Rule
--                        is the induction principle for its loops. The recording is whatever the callback
--                        extends by an event; Firmware/Recording has the one of main.c, the transmit ring.
--   Scheduler            pico/src/playback_scheduler.c: Scheduler/Run starts and ends a run and sets
--                        deadlines, Scheduler/Task is the dispatch loop, Scheduler/Samples the statistics;
--                        Scheduler/Drains is about progress, Scheduler/Samples/Statistics about the metrics.
--   Host                 pico/src/hid_keyboard_host.c: the TinyUSB host callbacks.
--   Firmware             pico/src/main.c, pico/src/hid_keyboard_device.c and the interrupt and transmit
--                        functions of pico/src/uart_transport_pico.c: the objects and callbacks, the command
--                        dispatchers (Firmware/Commands), the loop (Firmware/Loop), the start of TinyUSB,
--                        the pause and the demo build (Firmware/Startup), the set-up of the UART
--                        (Firmware/Uart), and the program as a system of
--                        steps (Firmware/Reach). Firmware/Closed, Firmware/ClosedRules, Firmware/ClosedSteps,
--                        Firmware/ClosedLoop and Firmware/StepRule are the induction principle for that system, which Firmware/Valid and
--                        Firmware/Owned use; Firmware/Faults, Firmware/Interrupts, Firmware/Serve,
--                        Firmware/Credit, Firmware/Playback, Firmware/Recording, Firmware/Finish and
--                        Firmware/Transmit follow errors, received bytes, commands, queued events, played
--                        reports, captured reports, the end of a run and sent bytes through the components.
--   Firmware/TestSource  pico/src/playback_test_source.c: the events of the benchmark build.
--   UsbDescriptors       pico/src/usb_descriptors.c: the device descriptor and the string descriptors;
--                        UsbDescriptors/Configuration holds the HID report and configuration descriptors.
--   HardwareConfig       pico/include/hardware_config.h: pins, speed and static assertions.
--   Zero                 zero/app/uart_protocol.py: the message numbers and errors, the checksum (Zero/Crc),
--                        `encode_frame` and the commands (Zero/Encode), the validators (Zero/Validate, Zero/Metrics) and
--                        `IncrementalDecoder` (Zero/Decoder, with Zero/Decoder/Runs for its loop and
--                        Zero/Decoder/Chunks for a stream in pieces). Zero/Transport is
--                        zero/app/transport.py and Zero/Playback the batches of zero/app/playback.py.
--                        Zero/Uplink and Zero/Downlink follow frames from one end of the link to the other,
--                        Zero/Credit one event and its answer, and Zero/Playback/Batch a batch of them.
--   Base                 shared tests, lists, rings, fixed-width words and integers.
--   Tests                the theorems at concrete inputs.
--
-- An operation keeps its C name without the prefix `pico_...`, takes the object it changes and returns it; a
-- `bool` result stands before the new state, and `none` is a failed read. An operation that the C code writes
-- as one function is one definition here, with helpers for its branches and its loop bodies.
--
-- Callbacks are functions on a state type `W` that stands for all that a callback can reach; `none` is a NULL
-- callback. The clock, the alarms and the HID endpoint of the Pico SDK are the parameters `Sdk` and
-- `Callbacks`; nothing is assumed of them but what a theorem names. The alarm interrupt may run at any moment:
-- the parameter `alarm_interrupt` says at each read of the flag whether it has run since. The UART
-- interrupt is a step between two statements of the main loop.
--
-- The C functions `playback_complete`, the mode operations and `stop` call each other through callbacks.
-- `stop` ends a run as ABORTED, on which `playback_complete` leaves the mode alone, so `mode_clear_queue` uses
-- the callbacks without that branch, and the definitions are not recursive.
--
-- A Python method takes its object and returns it; an exception is a value of `Attempt`. The two codecs of the
-- link are separate definitions, each from its own source; nothing but the byte reader and writer
-- (Firmware/Words), which stand for `struct` in Python, is shared.
--
-- Numbers are natural numbers; the fixed-width types keep their wrap-around (`u8` to `u64`). Signed values are
-- integers: latenesses are clamped to 32 bits, and their 64-bit sum is exact, since 2^32 samples of 32 bits
-- fit in it. A C array is a function from indices; the invariants keep the indices inside. Masks and shifts of bytes
-- are written as remainders and quotients. A byte pointer that the code tests is an option.
--
-- Loops are structural or on fuel. The fuel of `task` is one more than the queued events, that of `dispatch`
-- the queued reports, that of `poll` the pending bytes, that of `tx_task` and of the command loop one more than
-- what waits in the ring, that of `fill_available_slots` one more than the events that are left, that of
-- `IncrementalDecoder.feed` one more than the bytes in its buffer. A turn that goes on takes one of these
-- away, so the fuel is enough.
--
-- Not modelled: NULL object pointers (all objects are static), the content of a payload behind its length, the
-- hardware registers, what the macros of TinyUSB expand to and the switches that configure TinyUSB itself, the
-- print of clock rates, and of the Python service the clock, the serial port, threads, files and the web
-- interface: a wait for a frame is modelled on the frames that have arrived.
pub mod Base
pub mod Protocol
pub mod Transport
pub mod Hid
pub mod PlaybackQueue
pub mod Capture
pub mod SafetyRelease
pub mod Mode
pub mod Dispatch
pub mod Scheduler
pub mod Firmware
pub mod Host
pub mod UsbDescriptors
pub mod Zero
pub mod HardwareConfig
mod Tests
