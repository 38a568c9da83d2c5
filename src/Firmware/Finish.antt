-- ===== src/Firmware/Finish.antt =====
-- The frames that `playback_complete` and `mode_changed` of pico/src/main.c queue at the end of a run.
pub mod Report
use pico_keyboard_rt_recorde.Base.{
  ℕ, ◌+◌, ◌≤◌, ◌≡◌, refl, sym, ap, ◌∙◌, true, false, Option, none, some, List, [], ◌∷◌, ◌++◌,
  length, arith, length-append, window-nil,
}
use mathlib.Core.List.{append_assoc}
use pico_keyboard_rt_recorde.PlaybackQueue.Refine.{contents}
use pico_keyboard_rt_recorde.PlaybackQueue
use pico_keyboard_rt_recorde.Protocol.{
  mode_armed, mode_playing, reason_finished, play_finished, play_metrics, mode_changed, type_known,
}
use pico_keyboard_rt_recorde.Protocol.Codec.{Bytes, encode_frame, covered}
use pico_keyboard_rt_recorde.Protocol.RoundTrip.{wire}
use pico_keyboard_rt_recorde.Transport.{Transport, tx_ring_capacity, parser_capacity}
use pico_keyboard_rt_recorde.Transport.Send.{queue_frame}
use pico_keyboard_rt_recorde.Transport.TxRing.{
  IsTxValid, tx_pending, appended, no_encoding, no_room, queue_frame_whole,
}
use pico_keyboard_rt_recorde.Mode.{Moded, play_finish}
use pico_keyboard_rt_recorde.Mode.Abstract.{finish, apply, Effect, reported, logged}
use pico_keyboard_rt_recorde.Mode.Safety.{full_cleanup}
use pico_keyboard_rt_recorde.Scheduler.{Metrics}
use pico_keyboard_rt_recorde.Scheduler.Run.{stop, end_run, ended, metrics, run_dry, set_scheduler}
use pico_keyboard_rt_recorde.Firmware.{
  Board, World, Firmware, metrics_payload, send_frame, report_completion, finish_mode,
  mode_clear_queue, mode_clear_physical, mode_all_release, send_mode_changed, scheduler_callbacks,
  sdk,
}
use pico_keyboard_rt_recorde.Firmware.Words.{le_bytes}
use pico_keyboard_rt_recorde.Firmware.Modes.{after, on_mode-after, running-mode_clear_queue}
use pico_keyboard_rt_recorde.SafetyRelease.{request}

pub finished-encoded :
    encode_frame play_finished none 0 parser_capacity ≡ some (wire play_finished 0 [])
unfolding encode_frame type_known wire covered
finished-encoded = refl

pub metrics-encoded :
    (m : Metrics)
    → encode_frame play_metrics (some (metrics_payload m)) 33 parser_capacity
      ≡ some (wire play_metrics 33 (metrics_payload m))
unfolding encode_frame type_known wire covered metrics_payload le_bytes
metrics-encoded m = refl

pub changed-encoded :
    (s r : ℕ)
    → encode_frame mode_changed (some (s ∷ r ∷ [])) 2 parser_capacity
      ≡ some (wire mode_changed 2 (s ∷ r ∷ []))
unfolding encode_frame type_known wire covered
changed-encoded s r = refl

pub length-finished : length (wire play_finished 0 []) ≡ 7
unfolding wire covered
length-finished = refl

pub length-metrics : (m : Metrics) → length (wire play_metrics 33 (metrics_payload m)) ≡ 40
unfolding wire covered metrics_payload le_bytes
length-metrics m = refl

pub length-changed : (s r : ℕ) → length (wire mode_changed 2 (s ∷ r ∷ [])) ≡ 9
unfolding wire covered
length-changed s r = refl

abbrev bytes_or_none : Option (List ℕ) → List ℕ
bytes_or_none none = []
bytes_or_none (some bytes) = bytes

-- A frame for which there is room.
pub queue_frame_appends :
    (type n : ℕ) (payload : Bytes) (bytes : List ℕ) (t : Transport)
    → IsTxValid t
    → encode_frame type payload n parser_capacity ≡ some bytes
    → length (tx_pending t) + length bytes ≤ tx_ring_capacity
    → let t' = (queue_frame type payload n t).1 in
      IsTxValid t' × (tx_pending t' ≡ tx_pending t ++ bytes)
queue_frame_appends type n payload bytes t v encoded room =
    let (v', outcome) = queue_frame_whole type payload n t v in
    elim outcome [
      | appended bs o yes_sent e ↦
          let same = ap bytes_or_none (sym o ∙ encoded) in
          (v', e ∙ ap (λ l. tx_pending t ++ l) same)
      | no_encoding o unsent e ↦ absurd (cc)
      | no_room bs o full unsent e ↦
          let same = ap length (ap bytes_or_none (sym o ∙ encoded)) in
          absurd (omega (arith, full, same, room))
    ]

-- The frames of the end of a run, in their order.
abbrev pub closing : Metrics → List ℕ
closing m = wire play_finished 0 [] ++ wire play_metrics 33 (metrics_payload m)

pub length-closing : (m : Metrics) → length (closing m) ≡ 47
length-closing m = omega (
  arith,
  length-append (wire play_finished 0 []) (wire play_metrics 33 (metrics_payload m)),
  length-finished,
  length-metrics m,
)
