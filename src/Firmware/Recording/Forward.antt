-- ===== src/Firmware/Recording/Forward.antt =====
-- The dispatcher of physical reports with the senders of pico/src/main.c and pico/src/hid_keyboard_device.c.
use pico_keyboard_rt_recorde.Base.{
  ℕ, ◌≡◌, ◌≢◌, refl, sym, ◌⊎◌, inl, inr, Bool, true, false, List, [], ◌∷◌, ◌++◌, arith, All,
}
use mathlib.Core.Path.{subst}
use pico_keyboard_rt_recorde.Protocol.{mode_pass, mode_record}
use pico_keyboard_rt_recorde.Hid.{Report, report_bytes}
use pico_keyboard_rt_recorde.Capture.{Event, IsValid}
use pico_keyboard_rt_recorde.Capture.Refine.{contents}
use pico_keyboard_rt_recorde.Mode.{is_recording}
use pico_keyboard_rt_recorde.Transport.TxRing.{IsTxValid}
use pico_keyboard_rt_recorde.Dispatch.Delivery.{Observes, unrecorded, reports}
use pico_keyboard_rt_recorde.Dispatch.Record.{dispatch_conserves}
use pico_keyboard_rt_recorde.Dispatch.Drains.{Takes, dispatch_drains}
use pico_keyboard_rt_recorde.Firmware.{
  Board, World, Firmware, send_frame, send_report, send_boot_report, send_record_event,
}
use pico_keyboard_rt_recorde.Firmware.Loop.{physical_output, dispatch_physical}
use pico_keyboard_rt_recorde.Firmware.Playback.{HidWired, send_delivers}
use pico_keyboard_rt_recorde.Firmware.Recording.{IsBoot, queue_event, Queued, record_all-Queued}

-- The reports that TinyUSB has taken, then those that wait in the capture FIFO.
abbrev pub to_pc : {E : Type 0} → (E → List Report) → Firmware E → List Report
to_pc out y = out y.world.board ++ reports (contents y.world.capture)

All-prefix : (P : Event → Type 0) (xs ys : List Event) → All P (xs ++ ys) → All P xs
All-prefix P [] ys h = tt
All-prefix P (x ∷ xs) ys h = (h.0, All-prefix P xs ys h.1)

recording_iff :
    (mode : ℕ)
    → ((is_recording mode ≡ true) → mode ≡ mode_record)
      × ((is_recording mode ≡ false) → mode ≢ mode_record)
unfolding is_recording
recording_iff mode = (ground arith, ground arith)

module _ {E : Type 0} (board : Board E) (out : E → List Report) (wired : HidWired board out) where
  output-Observes :
      (ready : Bool)
      → Observes
          (physical_output board ready)
          queue_event
          (λ y. y.world.transport)
          (λ y. out y.world.board)
  unfolding send_boot_report send_report send_record_event send_frame
  output-Observes ready = record {
    send_delivers = λ r y. send_delivers board out wired r y.world;
    send_keeps = λ r y. ground arith;
    event_records = λ e y. refl;
    event_keeps = λ e y. refl;
  }

  -- One call of the dispatcher from the main loop, in whatever mode and whatever TinyUSB answers. No report is
  -- lost, repeated or reordered on its way to the PC: what TinyUSB has taken and then what is queued is the
  -- same list before and after. In RECORD some events, the oldest that had no RECORD_EVENT yet, count as
  -- recorded now, and each was handed to the UART once, in order: the frames of the first of them stand whole
  -- and in this order behind the bytes that waited, and the others, of which there are some only when the ring
  -- has no room for a frame any more, are counted in `tx_dropped` modulo 2^32. In every other mode the
  -- transport is as before. The FIFO and the transmit counters are valid, the unrecorded reports have their
  -- six key codes, and `out` sees what TinyUSB takes.
  pub dispatch_physical_conserves :
      (ready : Bool) (y : Firmware E)
      → IsValid y.world.capture
      → IsTxValid y.world.transport
      → All IsBoot (unrecorded y.world.capture)
      → let y' = dispatch_physical board ready y in
        (to_pc out y' ≡ to_pc out y)
        × (((y.world.mode ≡ mode_record)
              × (new : List Event) × (unrecorded y.world.capture
                  ≡ new ++ unrecorded y'.world.capture)
              × Queued new y.world.transport y'.world.transport)
            ⊎ ((y.world.mode ≢ mode_record) × (y'.world.transport ≡ y.world.transport)))
  unfolding dispatch_physical
  dispatch_physical_conserves ready y v t b =
      let (kept, taped) = dispatch_conserves (output-Observes ready) y.world.mode y v in
      (
        kept,
        elim taped [
          | inr (n, same) ↦ inr ((recording_iff y.world.mode).1 n, same)
          | inl (r, m) ↦
              let boot = All-prefix IsBoot m.new _ (subst (All IsBoot) m.moved b) in
              inl (
                (recording_iff y.world.mode).0 r,
                m.new,
                m.moved,
                subst (Queued m.new y.world.transport) (sym m.taped)
                    (record_all-Queued m.new y.world.transport boot t),
              )
        ],
      )

  willing_takes :
      ((e : E) → (board.tud_hid_ready e).0 ≡ true)
      → ((bytes : List ℕ) (e : E) → (board.tud_hid_report bytes e).0 ≡ true)
      → (r : Report) (w : World E) → (send_boot_report board r w).0 ≡ true
  unfolding send_boot_report send_report
  willing_takes asked takes r w =
      let e = (board.tud_hid_ready w.board).1 in
      ground (arith, asked w.board, takes (report_bytes r) e)

  -- In PASS and in RECORD, when the safety release lets the dispatcher send and TinyUSB is ready and takes
  -- every report, one call of the dispatcher from the main loop delivers all captured reports to TinyUSB, in
  -- their order, and leaves the FIFO empty. In RECORD every event that had no RECORD_EVENT yet was handed to the
  -- UART, once and in order: the frames of the first of them stand whole behind the bytes that waited, and the
  -- others, of which there are some only when the ring has no room for a frame any more, are counted in
  -- `tx_dropped` modulo 2^32. In PASS the transport is as before. The FIFO and the transmit counters are valid,
  -- the unrecorded reports have their six key codes, and `out` sees what TinyUSB takes.
  pub dispatch_physical_drains :
      (y : Firmware E)
      → ((e : E) → (board.tud_hid_ready e).0 ≡ true)
      → ((bytes : List ℕ) (e : E) → (board.tud_hid_report bytes e).0 ≡ true)
      → (y.world.mode ≡ mode_pass) ⊎ (y.world.mode ≡ mode_record)
      → IsValid y.world.capture
      → IsTxValid y.world.transport
      → All IsBoot (unrecorded y.world.capture)
      → let y' = dispatch_physical board true y in
        (contents y'.world.capture ≡ [])
        × (out y'.world.board ≡ out y.world.board ++ reports (contents y.world.capture))
        × (((y.world.mode ≡ mode_record)
              × Queued (unrecorded y.world.capture) y.world.transport y'.world.transport)
            ⊎ ((y.world.mode ≡ mode_pass) × (y'.world.transport ≡ y.world.transport)))
  unfolding dispatch_physical
  dispatch_physical_drains y asked takes mode v t b =
      let accepts : Takes (physical_output board true) = record {
        ready = refl;
        takes = λ r z. willing_takes asked takes r z.world;
      } in
      let (empty, sent, taped) =
        dispatch_drains (output-Observes true) accepts y.world.mode y v mode in
      (
        empty,
        sent,
        elim taped [
          | inr p ↦ inr p
          | inl (r, same) ↦
              let es = unrecorded y.world.capture in
              inl (
                r,
                subst (Queued es y.world.transport) (sym same)
                    (record_all-Queued es y.world.transport b t),
              )
        ],
      )
