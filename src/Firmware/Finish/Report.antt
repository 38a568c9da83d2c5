-- ===== src/Firmware/Finish/Report.antt =====
-- How a run that has played all of its events is reported by pico/src/main.c.
use pico_keyboard_rt_recorde.Base.{
  ◌+◌, ◌≤◌, ◌≡◌, refl, ap, ◌∙◌, true, false, none, some, List, [], ◌∷◌, ◌++◌, length, arith,
  length-append, window-nil,
}
use mathlib.Core.List.{append_assoc}
use pico_keyboard_rt_recorde.PlaybackQueue.Refine.{contents}
use pico_keyboard_rt_recorde.PlaybackQueue
use pico_keyboard_rt_recorde.Protocol.{
  mode_armed, mode_playing, reason_finished, play_finished, play_metrics, mode_changed,
}
use pico_keyboard_rt_recorde.Protocol.RoundTrip.{wire}
use pico_keyboard_rt_recorde.Transport.{tx_ring_capacity}
use pico_keyboard_rt_recorde.Transport.Send.{queue_frame}
use pico_keyboard_rt_recorde.Transport.TxRing.{IsTxValid, tx_pending}
use pico_keyboard_rt_recorde.Mode.{Moded, play_finish}
use pico_keyboard_rt_recorde.Mode.Abstract.{finish, apply, Effect, reported, logged}
use pico_keyboard_rt_recorde.Mode.Safety.{full_cleanup}
use pico_keyboard_rt_recorde.Scheduler.{Metrics}
use pico_keyboard_rt_recorde.Scheduler.Run.{stop, end_run, ended, metrics, run_dry, set_scheduler}
use pico_keyboard_rt_recorde.Firmware.{
  Board, Firmware, metrics_payload, send_frame, report_completion, finish_mode, mode_clear_queue,
  mode_clear_physical, mode_all_release, send_mode_changed, scheduler_callbacks, sdk,
}
use pico_keyboard_rt_recorde.Firmware.Modes.{after, on_mode-after, running-mode_clear_queue}
use pico_keyboard_rt_recorde.SafetyRelease.{request}
use pico_keyboard_rt_recorde.Firmware.Finish.{
  finished-encoded, metrics-encoded, changed-encoded, length-finished, length-metrics,
  length-changed, length-closing, closing, queue_frame_appends,
}

logged-finish : (logged finish mode_playing).1 ≡ record {
  state = mode_armed;
  world = full_cleanup ++ reported mode_armed reason_finished ∷ [];
}
unfolding apply play_finish
logged-finish = refl

module _ {E : Type 0} (board : Board E) where
  transport-mode_clear_queue :
      (y : Firmware E)
      → y.scheduler.running ≡ false
      → (mode_clear_queue board y).world.transport ≡ y.world.transport
  unfolding mode_clear_queue stop
  transport-mode_clear_queue y h = rw h refl

  -- The reports of the run.
  report_completion_lem :
      (m : Metrics) (y : Firmware E)
      → IsTxValid y.world.transport
      → length (tx_pending y.world.transport) + 56 ≤ tx_ring_capacity
      → let t' = (report_completion reason_finished m y).world.transport in
        IsTxValid t' × (tx_pending t' ≡ tx_pending y.world.transport ++ closing m)
  unfolding report_completion send_frame
  report_completion_lem m y v room =
      let t = y.world.transport in
      let t' = (queue_frame play_finished none 0 t).1 in
      let (v', e) =
        queue_frame_appends play_finished 0 none (wire play_finished 0 []) t v finished-encoded
          (omega (arith, room, length-finished)) in
      let size : length (tx_pending t') ≡ length (tx_pending t) + 7 =
        ap length e
        ∙ length-append (tx_pending t) (wire play_finished 0 [])
        ∙ ap (λ n. length (tx_pending t) + n) length-finished in
      let last = wire play_metrics 33 (metrics_payload m) in
      let (v'', e') =
        queue_frame_appends play_metrics 33 (some (metrics_payload m)) last t' v'
          (metrics-encoded m) (omega (arith, room, size, length-metrics m)) in
      (v'', e' ∙ ap (λ l. l ++ last) e ∙ append_assoc (tx_pending t) (wire play_finished 0 []) last)

  closed_lem :
      (y : Firmware E)
      → y.scheduler.running ≡ false
      → IsTxValid y.world.transport
      → length (tx_pending y.world.transport) + 9 ≤ tx_ring_capacity
      → tx_pending
          (after board mode_armed
            (full_cleanup ++ reported mode_armed reason_finished ∷ [])
            y).world.transport
        ≡ tx_pending y.world.transport ++ wire mode_changed 2 (mode_armed ∷ reason_finished ∷ [])
  unfolding send_mode_changed mode_all_release mode_clear_physical send_frame
  closed_lem y h v room =
      let payload = mode_armed ∷ reason_finished ∷ [] in
      let (v', e) =
        queue_frame_appends mode_changed 2 (some payload) (wire mode_changed 2 payload)
          y.world.transport v (changed-encoded mode_armed reason_finished)
          (omega (arith, room, length-changed mode_armed reason_finished)) in
      ap (λ t. tx_pending (queue_frame mode_changed (some payload) 2 t).1)
        (transport-mode_clear_queue y h)
      ∙ e

  -- `finish_mode` of a run that is not under way any more.
  finish_mode-after :
      (y : Firmware E)
      → y.world.mode ≡ mode_playing
      → finish_mode board y
        ≡ after board mode_armed (full_cleanup ++ reported mode_armed reason_finished ∷ []) y
  unfolding finish_mode
  finish_mode-after y h =
      let went : finish_mode board y
          ≡ after board (logged finish y.world.mode).1.state (logged finish y.world.mode).1.world
              y =
        unfold apply in on_mode-after board finish y in
      went
      ∙ ap (λ s. after board (logged finish s).1.state (logged finish s).1.world y) h
      ∙ ap (λ (r : Moded (List Effect)). after board r.state r.world y) logged-finish

  -- The program behind the reports of a run that has ended.
  abbrev reported_run : Firmware E → Firmware E
  reported_run y =
      report_completion reason_finished (metrics (ended y.scheduler))
        (set_scheduler (ended y.scheduler) y)

  run_dry-finish_mode :
      (y : Firmware E)
      → y.scheduler.sequence_ended ≡ true
      → run_dry (sdk board) (scheduler_callbacks board) y ≡ finish_mode board (reported_run y)
  unfolding run_dry end_run
  run_dry-finish_mode y e = rw e refl

  mode-reported_run : (y : Firmware E) → (reported_run y).world.mode ≡ y.world.mode
  unfolding report_completion send_frame
  mode-reported_run y = refl

  running-reported_run : (y : Firmware E) → (reported_run y).scheduler.running ≡ false
  unfolding report_completion send_frame ended
  running-reported_run y = refl

  cleaned :
      (y : Firmware E)
      → let y' =
          after board mode_armed (full_cleanup ++ reported mode_armed reason_finished ∷ []) y in
        (y'.scheduler.running ≡ false)
        × (contents y'.queue ≡ [])
        × (y'.world.release.pending ≡ true)
  unfolding send_mode_changed mode_all_release mode_clear_physical request
  cleaned y = (
    running-mode_clear_queue board y,
    unfold mode_clear_queue in unfold PlaybackQueue.clear in window-nil _ _ _ _ refl,
    refl,
  )

  -- When the queue of an ended sequence runs dry in PLAYING, and there is room for 56 more bytes, the
  -- waiting bytes are followed by PLAY_FINISHED, by PLAY_METRICS with the metrics of the run, and by
  -- MODE_CHANGED to ARMED with the reason FINISHED, in this order; the mode is then ARMED, no run is under
  -- way, the playback queue is empty and a release of all keys is owed. The transmit counters are valid.
  pub finished_run_reported :
      (y : Firmware E)
      → y.scheduler.sequence_ended ≡ true
      → y.world.mode ≡ mode_playing
      → IsTxValid y.world.transport
      → length (tx_pending y.world.transport) + 56 ≤ tx_ring_capacity
      → let y' = run_dry (sdk board) (scheduler_callbacks board) y in
        (tx_pending y'.world.transport
          ≡ (tx_pending y.world.transport ++ closing (metrics (ended y.scheduler)))
            ++ wire mode_changed 2 (mode_armed ∷ reason_finished ∷ []))
        × (y'.world.mode ≡ mode_armed)
        × (y'.scheduler.running ≡ false)
        × (contents y'.queue ≡ [])
        × (y'.world.release.pending ≡ true)
  finished_run_reported y e m v room =
      let z = reported_run y in
      let went = run_dry-finish_mode y e ∙ finish_mode-after z (mode-reported_run y ∙ m) in
      let (v', sent) =
        report_completion_lem (metrics (ended y.scheduler)) (set_scheduler (ended y.scheduler) y) v
          room in
      let fewer : length (tx_pending z.world.transport) + 9 ≤ tx_ring_capacity = omega (
        arith,
        room,
        ap length sent,
        length-append (tx_pending y.world.transport) (closing (metrics (ended y.scheduler))),
        length-closing (metrics (ended y.scheduler)),
      ) in
      let last = wire mode_changed 2 (mode_armed ∷ reason_finished ∷ []) in
      let (still, empty, owed) = cleaned z in
      (
        ap (λ (r : Firmware E). tx_pending r.world.transport) went
            ∙ closed_lem z (running-reported_run y) v' fewer
            ∙ ap (λ l. l ++ last) sent,
        ap (λ (r : Firmware E). r.world.mode) went,
        ap (λ (r : Firmware E). r.scheduler.running) went ∙ still,
        ap (λ (r : Firmware E). contents r.queue) went ∙ empty,
        ap (λ (r : Firmware E). r.world.release.pending) went ∙ owed,
      )
