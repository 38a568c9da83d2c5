-- ===== src/Zero/Playback.antt =====
-- The batches of `PlaybackSession._send_through` of zero/app/playback.py: how many events are sent before the Zero
-- waits for their acknowledgements, and what it learns from these.
pub mod Acks
pub mod Batch
use pico_keyboard_rt_recorde.Base.{
  ℕ, zero, suc, true, false, List, [], ◌∷◌, leb, ◌==◌, if◌then◌else◌, min, ◌+◌, length,
}
use pico_keyboard_rt_recorde.Zero.{
  buffer_status, unexpected_state, Message, Attempt, returned, raised, ◌>>=◌,
}
use pico_keyboard_rt_recorde.Zero.Validate.{validate_buffer_status}
use pico_keyboard_rt_recorde.Zero.Transport.{await_frame}

abbrev pub pipeline_window : ℕ
pipeline_window = 4

unfoldable pub batch_count : ℕ → ℕ → ℕ
batch_count free_capacity left = min pipeline_window (min free_capacity left)

-- `_queued_count` and `_free_capacity`.
pub record Credit : Type 0 where
  pub queued_count : ℕ
  pub free_capacity : ℕ

-- The loop over the acknowledgements of a batch, with the frames that have arrived.
unfoldable pub take_acks : ℕ → ℕ → Credit → List Message → Attempt (Credit × List Message)
take_acks zero expected_state credit pending = returned (credit, pending)
take_acks (suc n) expected_state credit pending = elim (await_frame buffer_status pending) [
  | raised e ↦ raised e
  | returned (frame, rest) ↦ elim (validate_buffer_status frame) [
    | raised e ↦ raised e
    | returned (state, queued, free) ↦ elim (state == expected_state) [
      | false ↦ raised unexpected_state
      | true ↦
          take_acks n expected_state (record { queued_count = queued; free_capacity = free }) rest
    ]
  ]
]
