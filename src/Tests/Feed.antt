-- ===== src/Tests/Feed.antt =====
-- Concrete inputs for the theorems on the session of the Zero: a batch of one event, the metrics of a run, and a
-- frame that is awaited.
use pico_keyboard_rt_recorde.Base.{
  ℕ, ◌-◌, ◌≡◌, refl, ap, ◌∙◌, pos, negsuc, false, inl, List, [], ◌∷◌, length, arith, window-nil,
  window-pop,
}
use pico_keyboard_rt_recorde.Protocol.{mode_armed}
use pico_keyboard_rt_recorde.Transport.{init, command_capacity}
use pico_keyboard_rt_recorde.Transport.CommandRing.{waiting}
use pico_keyboard_rt_recorde.PlaybackQueue.{init-IsValid, queue_capacity}
use pico_keyboard_rt_recorde.PlaybackQueue.Refine.{contents, length-contents}
use pico_keyboard_rt_recorde.Firmware.{Firmware}
use pico_keyboard_rt_recorde.Capture
use pico_keyboard_rt_recorde.Firmware.Valid.{AllValid}
use pico_keyboard_rt_recorde.Zero.Playback.{batch_count}
use pico_keyboard_rt_recorde.Zero.Playback.Acks as Feeder
use pico_keyboard_rt_recorde.Zero.Playback.Batch.{Fed, batch-Fed}
use pico_keyboard_rt_recorde.Firmware.Loop.{boot, run_commands}
use pico_keyboard_rt_recorde.Tests.Loop.{board}
use pico_keyboard_rt_recorde.Zero.{Message, returned}
use pico_keyboard_rt_recorde.Scheduler.{Metrics}
use pico_keyboard_rt_recorde.Firmware.{metrics_payload}
use pico_keyboard_rt_recorde.Zero.Metrics.{
  IsSized, as_read, validate_play_metrics, validate-metrics_payload,
}
use pico_keyboard_rt_recorde.Zero.Transport.Await.{Found, await_frame_lem}
use pico_keyboard_rt_recorde.Zero.Transport.{await_frame, require_not_error, send_queue_event}
use pico_keyboard_rt_recorde.Zero.Downlink.{frame_for, frames_for}
use pico_keyboard_rt_recorde.Tests.Wire.{
  press, event_bytes, event_writing-IsWriting, nothing_sent, clean_pong,
}

-- The same Pico with the event waiting as a command.
abbrev event_sent : Feeder.Sent
event_sent = record { offset_us = 5; report = press; bytes = event_bytes }

abbrev asked : Firmware (List ℕ)
asked = record (boot []) {
  world = record (boot []).world {
    mode = mode_armed;
    transport = record init {
      commands = λ _. frame_for (send_queue_event 5 press);
      command_head = 1;
    };
  };
}

asked-AllValid : AllValid asked
asked-AllValid = record {
  transport = record {
    tx = omega arith;
    command = omega arith;
    rx = omega arith;
    parser = omega arith;
  };
  queue = init-IsValid;
  capture = Capture.init-IsValid;
}

asked-waiting : waiting asked.world.transport ≡ frames_for (Feeder.writings (event_sent ∷ []))
asked-waiting =
    window-pop asked.world.transport.commands command_capacity 0 1 1 (omega arith) refl
    ∙ ap (◌∷◌ (frame_for (send_queue_event 5 press)))
        (window-nil asked.world.transport.commands command_capacity 1 0 refl)

asked_batch : 1 ≡ batch_count (queue_capacity - length (contents asked.queue)) 1
unfolding batch_count
asked_batch = omega (arith, length-contents asked.queue)

batch-Fed_example :
    Fed board
      (event_sent ∷ [])
      (record {
        queued_count = length (contents asked.queue);
        free_capacity = queue_capacity - length (contents asked.queue);
      })
      asked
      (run_commands board 5 asked)
batch-Fed_example =
    batch-Fed board 3 1 (event_sent ∷ []) asked asked-AllValid (inl refl) asked-waiting
      (event_writing-IsWriting, tt) asked_batch nothing_sent

-- The metrics of a run that was early once.
abbrev few_metrics : Metrics
few_metrics = record {
  dispatched_count = 3;
  underrun_count = 1;
  min_lateness_us = negsuc 1;
  max_lateness_us = pos 7;
  sum_lateness_us = pos 10;
  p95_lateness_us = pos 7;
  p99_lateness_us = pos 7;
  samples_truncated = false;
}

few_metrics-IsSized : IsSized few_metrics
few_metrics-IsSized = omega arith

validate-metrics_payload_example :
    validate_play_metrics (record { message_type = 12; payload = metrics_payload few_metrics })
    ≡ returned (as_read few_metrics)
validate-metrics_payload_example = validate-metrics_payload few_metrics few_metrics-IsSized

-- BUFFER_STATUS is awaited, and a PONG has arrived in front of it.
abbrev status : Message
status = record { message_type = 3; payload = 2 ∷ 1 ∷ 0 ∷ 255 ∷ 1 ∷ [] }

awaited :
    await_frame 3 (clean_pong.message ∷ status ∷ []) ≡ returned (status, clean_pong.message ∷ [])
unfolding await_frame require_not_error
awaited = refl

await_frame_lem_example :
    Found 3 (clean_pong.message ∷ status ∷ []) status (clean_pong.message ∷ [])
await_frame_lem_example = await_frame_lem 3 (clean_pong.message ∷ status ∷ []) awaited
