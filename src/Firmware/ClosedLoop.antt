-- ===== src/Firmware/ClosedLoop.antt =====
-- The induction principle of Firmware/Closed for the statements of the loop of pico/src/main.c.
use pico_keyboard_rt_recorde.Base.{
  ℕ, not, Bool, false, some, List, ◌==◌, inl, inr, Bool-cases, ◌++◌, ◌∷◌,
}
use pico_keyboard_rt_recorde.Protocol.{record_event, mode_playing}
use pico_keyboard_rt_recorde.Capture.{Capture}
use pico_keyboard_rt_recorde.Hid.{report_bytes, release_all}
use pico_keyboard_rt_recorde.SafetyRelease.{service}
use pico_keyboard_rt_recorde.Scheduler.Run.{watchdog_expired}
use pico_keyboard_rt_recorde.Dispatch.Rule.{dispatch_rule}
use pico_keyboard_rt_recorde.Firmware.{
  Board, World, Firmware, on_world, send_record_event, send_report, send_boot_report,
  send_all_keys_release,
}
use pico_keyboard_rt_recorde.Firmware.Words.{le_bytes}
use pico_keyboard_rt_recorde.Firmware.Commands.{protocol_error}
use pico_keyboard_rt_recorde.Firmware.Loop.{
  physical_output, service_release, dispatch_physical, check_flow, check_watchdog,
}
use pico_keyboard_rt_recorde.Firmware.Closed.{Closed, if_rule, board_rule, flow_rule}
use pico_keyboard_rt_recorde.Firmware.ClosedSteps.{protocol_error_closed, underrun_fault_closed}

module _ {E : Type 0} (P : Firmware E → Type 0) (board : Board E) (closed : Closed board P) where
  pub service_release_closed : (y : Firmware E) → P y → P (service_release board y).1
  unfolding service_release service send_all_keys_release send_boot_report send_report
  service_release_closed y h = elim (Bool-cases y.world.release.pending) [
    | inr n ↦ rw n (closed.elementary.others y.scheduler _ y.world.flow_fault _ y h)
    | inl p ↦ rw p (elim (Bool-cases (board.tud_hid_ready y.world.board).0) [
      | inr n ↦ rw n (closed.elementary.others y.scheduler _ y.world.flow_fault _ y h)
      | inl r ↦
          rw r
            (elim (Bool-cases
              (board.tud_hid_report (report_bytes release_all)
                (board.tud_hid_ready y.world.board).1).0) [
                  | inl t ↦ rw t (closed.elementary.others y.scheduler _ y.world.flow_fault _ y h)
                  | inr t ↦ rw t (closed.elementary.others y.scheduler _ y.world.flow_fault _ y h)
                ])
    ])
  ]

  -- A send while the FIFO is in the dispatcher's hands.
  sent_closed :
      (bytes : List ℕ) (c : Capture) (z : Firmware E)
      → P (on_world (λ w. record w { capture = c }) z)
      → P (on_world (λ w. record (send_report board bytes w).1 { capture = c }) z)
  unfolding send_report
  sent_closed bytes c z h = elim (Bool-cases (board.tud_hid_ready z.world.board).0) [
    | inl r ↦ rw r (board_rule P closed.elementary _ _ h)
    | inr r ↦ rw r (board_rule P closed.elementary _ _ h)
  ]

  pub dispatch_physical_closed :
      (ready : Bool) (y : Firmware E) → P y → P (dispatch_physical board ready y)
  unfolding dispatch_physical send_record_event send_boot_report
  dispatch_physical_closed ready y h =
      dispatch_rule {out = physical_output board ready}
        {P = λ c z. P (on_world (λ w. record w { capture = c }) z)}
        (record {
          popped =
              λ c z. closed.elementary.capture_popped (on_world (λ w. record w { capture = c }) z);
          marked =
              λ c z. closed.elementary.capture_marked (on_world (λ w. record w { capture = c }) z);
          sent = λ r c z. sent_closed (report_bytes r) c z;
          recorded = λ e c z.
              closed.elementary.framed record_event 17
                (some (le_bytes 8 e.timestamp_us ++ e.report_len ∷ report_bytes e.report))
                (on_world (λ w. record w { capture = c }) z);
        })
        y.world.mode y.world.capture y h

  pub check_flow_closed : (y : Firmware E) → P y → P (check_flow board y)
  unfolding check_flow
  check_flow_closed y h =
      let y' = on_world (λ (w : World E). record w { flow_fault = false }) y in
      if_rule P closed.elementary y.world.flow_fault (protocol_error board y') y
        (protocol_error_closed P board closed y' (flow_rule P closed.elementary false y h)) h

  pub check_watchdog_closed : (y : Firmware E) → P y → P (check_watchdog board y)
  unfolding check_watchdog
  check_watchdog_closed y h =
      let (now_us, b) = board.time_us_64 y.world.board in
      let y' = on_world (λ (w : World E). record w { board = b }) y in
      let kept : P y' = board_rule P closed.elementary b y h in
      if_rule P closed.elementary (not (y.world.mode == mode_playing)) y _ h (
        if_rule P closed.elementary (watchdog_expired y.scheduler now_us) _ y'
          (underrun_fault_closed P board closed y' kept) kept)
