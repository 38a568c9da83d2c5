-- ===== src/Zero/Playback/Acks.antt =====
-- The acknowledgements of a batch of events, as `_send_through` of zero/app/playback.py takes them.
use pico_keyboard_rt_recorde.Base.{
  ℕ, suc, ◌+◌, ◌-◌, ◌≤◌, ◌≡◌, refl, ap, ◌∙◌, true, some, List, [], ◌∷◌, length, ◌==◌, arith,
}
use pico_keyboard_rt_recorde.Hid.{report_size}
use pico_keyboard_rt_recorde.PlaybackQueue.{Event, queue_capacity, event_of}
use pico_keyboard_rt_recorde.Zero.{buffer_status, Message, returned}
use pico_keyboard_rt_recorde.Zero.Transport.{send_queue_event, await_frame, require_not_error}
use pico_keyboard_rt_recorde.Zero.Uplink.{Sending, messages}
use pico_keyboard_rt_recorde.Zero.Downlink.{Writing, frames_for}
use pico_keyboard_rt_recorde.Zero.Credit.{status_message, status_sending, status-validated}
use pico_keyboard_rt_recorde.Zero.Playback.{Credit, batch_count, take_acks}

-- One event as the session holds it, and the bytes that `send_queue_event` wrote for it.
pub record Sent : Type 0 where
  pub offset_us : ℕ
  pub report : List ℕ
  pub bytes : List ℕ

abbrev pub writing : Sent → Writing
writing e = record { command = send_queue_event e.offset_us e.report; bytes = e.bytes }

abbrev pub writings : List Sent → List Writing
writings [] = []
writings (e ∷ es) = writing e ∷ writings es

abbrev pub events : List Sent → List Event
events [] = []
events (e ∷ es) = event_of e.offset_us (some e.report) report_size ∷ events es

-- The acknowledgements of a batch that starts with `n` queued events.
abbrev pub statuses : ℕ → ℕ → List Sent → List Sending
statuses mode n [] = []
statuses mode n (e ∷ es) = status_sending mode (n + 1) ∷ statuses mode (n + 1) es

pub length-frames : (es : List Sent) → length (frames_for (writings es)) ≡ length es
length-frames [] = refl
length-frames (e ∷ es) = ap suc (length-frames es)

pub length-events : (es : List Sent) → length (events es) ≡ length es
length-events [] = refl
length-events (e ∷ es) = ap suc (length-events es)

-- The session's credit behind the acknowledgements.
abbrev pub acked : Credit → ℕ → List Sent → Credit
acked credit n [] = credit
acked credit n (e ∷ es) =
    acked (record { queued_count = n + 1; free_capacity = queue_capacity - (n + 1) }) (n + 1) es

pub acked_exact :
    (n : ℕ) (es : List Sent)
    → acked (record { queued_count = n; free_capacity = queue_capacity - n }) n es
      ≡ record { queued_count = n + length es; free_capacity = queue_capacity - (n + length es) }
acked_exact n [] =
    ap (λ k. record { queued_count = k; free_capacity = queue_capacity - k }) (omega arith)
acked_exact n (e ∷ es) =
    acked_exact (n + 1) es
    ∙ ap (λ k. record { queued_count = k; free_capacity = queue_capacity - k }) (omega arith)

await-status :
    (mode n : ℕ) (rest : List Message)
    → await_frame buffer_status (status_message mode n ∷ rest)
      ≡ returned (status_message mode n, rest)
unfolding await_frame require_not_error
await-status mode n rest = refl

pub take_acks-statuses :
    (es : List Sent) (mode n : ℕ) (credit : Credit)
    → mode ≤ 4
    → n + length es ≤ queue_capacity
    → take_acks (length es) mode credit (messages (statuses mode n es))
      ≡ returned (acked credit n es, [])
unfolding take_acks
take_acks-statuses [] mode n credit m h = refl
take_acks-statuses (e ∷ es) mode n credit m h =
    let same : (mode == mode) ≡ true = ground arith in
    let first = await-status mode (n + 1) (messages (statuses mode (n + 1) es)) in
    let read = status-validated mode (n + 1) m (omega (arith, h)) in
    rw (first, take_acks)
      (rw (read, take_acks)
        (rw (same, take_acks) (take_acks-statuses es mode (n + 1) _ m (omega (arith, h)))))

-- A batch is at most as large as the window and as the credit.
pub batch_count_bounds :
    (free left : ℕ) → (batch_count free left ≤ 4) × (batch_count free left ≤ free)
unfolding batch_count
batch_count_bounds free left = (omega arith, omega arith)
