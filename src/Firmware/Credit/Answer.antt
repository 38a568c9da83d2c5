-- ===== src/Firmware/Credit/Answer.antt =====
-- What a QUEUE_EVENT does to the objects of pico/src/main.c, in every case.
use pico_keyboard_rt_recorde.Base.{
  ℕ, ◌+◌, ◌<◌, ◌≡◌, ◌≢◌, refl, ◌⊎◌, inl, inr, not, true, false, some, List, [], ◌∷◌, ◌++◌, length,
  drop, arith, if◌then◌else◌,
}
use pico_keyboard_rt_recorde.Protocol.{
  Frame, mode_armed, mode_playing, queue_event, queue_command_allowed,
}
use pico_keyboard_rt_recorde.Hid.{report_size}
use pico_keyboard_rt_recorde.Transport.{tx_ring_capacity}
use pico_keyboard_rt_recorde.Transport.TxRing.{IsTxValid, tx_pending}
use pico_keyboard_rt_recorde.PlaybackQueue.{
  Queue, queue_capacity, IsValid, event_of, push, push-IsValid,
}
use pico_keyboard_rt_recorde.PlaybackQueue.Refine.{contents, length-contents, push_refines}
use pico_keyboard_rt_recorde.Firmware.{Board, Firmware, send_frame, send_buffer_status}
use pico_keyboard_rt_recorde.Firmware.Words.{read_u64_le}
use pico_keyboard_rt_recorde.Firmware.Commands.{
  protocol_error, acknowledge, handle_queue_event, dispatch_queue_command, dispatch_command,
}
use pico_keyboard_rt_recorde.Firmware.Credit.{
  status_wire, event_in, with_event, told, untold, send_buffer_status-Told,
}

-- The queue, the transmit ring and the mode behind a QUEUE_EVENT that was taken and answered.
pub record Credited {E : Type 0} (frame : Frame) (y y' : Firmware E) : Type 0 where
  pub taken : contents y'.queue ≡ contents y.queue ++ event_in frame ∷ []
  pub answered :
      tx_pending y'.world.transport
      ≡ tx_pending y.world.transport ++ status_wire y.world.mode (length (contents y'.queue))
  pub same_mode : y'.world.mode ≡ y.world.mode
  pub same_run : y'.scheduler ≡ y.scheduler

-- What `push` does with an event of the right length.
push_cases :
    (t : ℕ) (bytes : List ℕ) (q : Queue)
    → IsValid q
    → ((length (contents q) < queue_capacity)
        × ((push t (some bytes) report_size q).0 ≡ true)
        × (contents (push t (some bytes) report_size q).1
            ≡ contents q ++ event_of t (some bytes) report_size ∷ []))
      ⊎ ((length (contents q) ≡ queue_capacity) × (push t (some bytes) report_size q ≡ (false, q)))
unfolding push
push_cases t bytes q v =
    ground (arith, length-contents q, v.bounded, push_refines t (some bytes) report_size v)

allowed_cases :
    (mode : ℕ)
    → (((mode ≡ mode_armed) ⊎ (mode ≡ mode_playing))
        × (queue_command_allowed queue_event mode ≡ true))
      ⊎ ((mode ≢ mode_armed)
          × (mode ≢ mode_playing)
          × (queue_command_allowed queue_event mode ≡ false))
unfolding queue_command_allowed
allowed_cases mode = ground arith

module _ {E : Type 0} (board : Board E) where
  -- A QUEUE_EVENT.
  dispatched :
      (frame : Frame) (y : Firmware E)
      → frame.type ≡ queue_event
      → dispatch_command board frame y ≡ (
          if not (queue_command_allowed queue_event y.world.mode)
          then protocol_error board y
          else handle_queue_event board frame y)
  unfolding dispatch_command dispatch_queue_command
  dispatched frame y e = rw e refl

  -- Behind the test of the mode.
  handle_queue_event_lem :
      (frame : Frame) (y : Firmware E)
      → IsValid y.queue
      → IsTxValid y.world.transport
      → let y' = handle_queue_event board frame y in
        let told = (send_buffer_status (with_event frame y) y.world).1 in
        ((length (contents y.queue) ≡ queue_capacity) × (y' ≡ protocol_error board y))
        ⊎ ((length (contents y.queue) < queue_capacity)
            × (tx_ring_capacity
                < length (tx_pending y.world.transport)
                  + length (status_wire y.world.mode (length (contents (with_event frame y)))))
            × (y' ≡ protocol_error board (record y { queue = with_event frame y; world = told })))
        ⊎ ((length (contents y.queue) < queue_capacity) × Credited frame y y')
  unfolding handle_queue_event acknowledge
  handle_queue_event_lem frame y v t =
      let q = with_event frame y in
      let v' =
        push-IsValid (read_u64_le frame.payload) (some (drop 9 frame.payload)) report_size v in
      elim (push_cases (read_u64_le frame.payload) (drop 9 frame.payload) y.queue v) [
        | inr (full, e) ↦ inl (full, rw e refl)
        | inl (room, accepted, last) ↦ elim (send_buffer_status-Told q y.world v' t) [
          | told queued sent ↦
              rw (accepted, queued)
                (inr (
                  inr (
                    room,
                    record {
                      taken = last;
                      answered = sent;
                      same_mode = unfold send_buffer_status in unfold send_frame in refl;
                      same_run = refl;
                    },
                  )))
          | untold refused full ↦ rw (accepted, refused) (inr (inl (room, full, refl)))
        ]
      ]

  -- A QUEUE_EVENT ends in one of three ways. In a mode other than ARMED and PLAYING, or with a full queue,
  -- it is a protocol error of a program that is otherwise as before. Otherwise the event stands last in the
  -- queue; and either BUFFER_STATUS, with the mode, the new number of queued events and the room that is
  -- left, stands last among the bytes for the UART, and the mode and the run are as before; or there is no
  -- room for these bytes, and that is a protocol error. The queue and the transmit counters are valid.
  pub queue_event_answered :
      (frame : Frame) (y : Firmware E)
      → frame.type ≡ queue_event
      → IsValid y.queue
      → IsTxValid y.world.transport
      → let y' = dispatch_command board frame y in
        let told = (send_buffer_status (with_event frame y) y.world).1 in
        ((((y.world.mode ≢ mode_armed) × (y.world.mode ≢ mode_playing))
            ⊎ (length (contents y.queue) ≡ queue_capacity))
          × (y' ≡ protocol_error board y))
        ⊎ (((y.world.mode ≡ mode_armed) ⊎ (y.world.mode ≡ mode_playing))
            × (length (contents y.queue) < queue_capacity)
            × (tx_ring_capacity
                < length (tx_pending y.world.transport)
                  + length (status_wire y.world.mode (length (contents (with_event frame y)))))
            × (y' ≡ protocol_error board (record y { queue = with_event frame y; world = told })))
        ⊎ (((y.world.mode ≡ mode_armed) ⊎ (y.world.mode ≡ mode_playing))
            × (length (contents y.queue) < queue_capacity)
            × Credited frame y y')
  queue_event_answered frame y e v t =
      rw (dispatched frame y e) (elim (allowed_cases y.world.mode) [
        | inr (p, q, refused) ↦ rw refused (inl (inl (p, q), refl))
        | inl (mode, allowed) ↦ rw allowed (elim (handle_queue_event_lem frame y v t) [
          | inl (full, r) ↦ inl (inr full, r)
          | inr (inl (room, full, r)) ↦ inr (inl (mode, room, full, r))
          | inr (inr (room, c)) ↦ inr (inr (mode, room, c))
        ])
      ])
