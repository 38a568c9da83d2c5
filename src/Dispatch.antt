-- ===== src/Dispatch.antt =====
-- pico/include/physical_report_dispatch.h and pico/src/physical_report_dispatch.c: the physical-output
-- part of the main loop. Both callbacks act on the caller's state `W`; `none` is NULL.
pub mod Fuel
pub mod Delivery
pub mod Record
pub mod Rule
pub mod Drains
use pico_keyboard_rt_recorde.Base.{
  ℕ, zero, suc, ◌||◌, not, Bool, true, false, Option, none, some, ◌==◌, if◌then◌else◌,
}
use pico_keyboard_rt_recorde.Protocol.{mode_pass}
use pico_keyboard_rt_recorde.Hid.{Report}
use pico_keyboard_rt_recorde.Capture.{Event, Capture, peek, pop, head_recorded, mark_head_recorded}
use pico_keyboard_rt_recorde.Mode.{is_recording}

abbrev pub SendReport : Type 0 → Type 0
SendReport W = Option (Report → W → Bool × W)

abbrev pub SendEvent : Type 0 → Type 0
SendEvent W = Option (Event → W → W)

module _ {W : Type 0} where
  abbrev pub call_event : SendEvent W → Event → W → W
  call_event none e w = w
  call_event (some f) e w = f e w

  -- A NULL sender takes nothing.
  abbrev pub call_report : SendReport W → Report → W → Bool × W
  call_report none r w = (false, w)
  call_report (some f) r w = f r w

  abbrev pub no_sender : SendReport W → Bool
  no_sender none = true
  no_sender (some _) = false

-- The two senders, with `hid_output_ready`.
pub record Output (W : Type 0) : Type 0 where
  pub hid_output_ready : Bool
  pub send_pass_report : SendReport W
  pub send_record_event : SendEvent W

module _ {W : Type 0} (out : Output W) where
  -- The record of a head that is seen for the first time.
  unfoldable pub record_head : Event → Capture → W → Capture × W
  record_head e c w =
      if not (head_recorded c)
      then (mark_head_recorded c, call_event out.send_record_event e w)
      else (c, w)

  -- The loop of RECORD.
  unfoldable pub record_loop : ℕ → Capture → W → Capture × W
  unfolding record_head
  record_loop zero c w = (c, w)
  record_loop (suc n) c w = elim (peek c) [
    | none ↦ (c, w)
    | some e ↦
        let (c', w') = record_head e c w in
        let (taken, w'') = call_report out.send_pass_report e.report w' in
        let rest = record_loop n (pop c').1 w'' in
        if not out.hid_output_ready || no_sender out.send_pass_report
        then (c', w')
        else if not taken
        then (c', w'')
        else rest
  ]

  -- The loop of PASS.
  unfoldable pub pass_loop : ℕ → Capture → W → Capture × W
  pass_loop zero c w = (c, w)
  pass_loop (suc n) c w = elim (peek c) [
    | none ↦ (c, w)
    | some e ↦
        let (taken, w') = call_report out.send_pass_report e.report w in
        let rest = pass_loop n (pop c).1 w' in if not taken then (c, w') else rest
  ]

  -- `state` is the mode; every turn of a loop that goes on takes one report out of the FIFO, so its
  -- count is enough fuel.
  unfoldable pub dispatch : ℕ → Capture → W → Capture × W
  unfolding record_loop pass_loop
  dispatch state c w =
      if is_recording state
      then record_loop c.count c w
      else if not out.hid_output_ready || not (state == mode_pass) || no_sender out.send_pass_report
      then (c, w)
      else pass_loop c.count c w
