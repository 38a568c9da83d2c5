-- ===== src/Zero/Playback/Batch.antt =====
-- A batch of events of zero/app/playback.py on its way through pico/src/main.c and back.
use mathlib.Core.Path.{subst}
use mathlib.Core.List.{append_assoc, append-nil}
use pico_keyboard_rt_recorde.Base.{
  ℕ, suc, ◌+◌, ◌-◌, ◌*◌, ◌≤◌, ◌<◌, ◌≡◌, refl, sym, ap, ap₂, ◌∙◌, ◌⊎◌, inl, inr, some, List, [], ◌∷◌,
  ◌++◌, length, arith, All, length-append,
}
use pico_keyboard_rt_recorde.Protocol.{mode_armed, mode_playing}
use pico_keyboard_rt_recorde.Hid.{report_size}
use pico_keyboard_rt_recorde.Transport.{tx_ring_capacity}
use pico_keyboard_rt_recorde.Transport.TxRing.{tx_pending}
use pico_keyboard_rt_recorde.Transport.CommandRing.{waiting}
use pico_keyboard_rt_recorde.Transport.ValidRings.{pop_command-IsValid}
use pico_keyboard_rt_recorde.Transport.Commands.{pop_command}
use pico_keyboard_rt_recorde.Transport.Resync.{joined}
use pico_keyboard_rt_recorde.PlaybackQueue.{queue_capacity, event_of}
use pico_keyboard_rt_recorde.PlaybackQueue.Refine.{contents, length-contents}
use pico_keyboard_rt_recorde.Firmware.{Board, Firmware}
use pico_keyboard_rt_recorde.Firmware.Loop.{run_commands}
use pico_keyboard_rt_recorde.Firmware.Commands.{dispatch_command}
use pico_keyboard_rt_recorde.Firmware.Serve.{serve, drop_command, run_commands_serves}
use pico_keyboard_rt_recorde.Firmware.Valid.{AllValid, AllValid-Closed}
use pico_keyboard_rt_recorde.Firmware.ClosedSteps.{dispatch_command_closed}
use pico_keyboard_rt_recorde.Zero.{Message, returned}
use pico_keyboard_rt_recorde.Zero.Transport.{send_queue_event}
use pico_keyboard_rt_recorde.Zero.Decoder.{decoder}
use pico_keyboard_rt_recorde.Zero.Decoder.Chunks.{feed_all}
use pico_keyboard_rt_recorde.Zero.Uplink.{Sending, IsSending, stream, messages, stream_delivered}
use pico_keyboard_rt_recorde.Zero.Downlink.{IsWriting, frame_for, frames_for, written-Reads}
use pico_keyboard_rt_recorde.Zero.Credit.{
  status_sending, status-IsSending, append-sending, event-Stepped, length-status, rested,
}
use pico_keyboard_rt_recorde.Zero.Playback.{Credit, batch_count, take_acks}
use pico_keyboard_rt_recorde.Zero.Playback.Acks.{
  Sent, writing, writings, events, statuses, length-frames, length-events, acked_exact,
  take_acks-statuses, batch_count_bounds,
}

-- Taking a command out of its ring leaves the rest as it is.
drop_command-AllValid :
    {E : Type 0} (board : Board E) (y : Firmware E) → AllValid y → AllValid (drop_command board y)
drop_command-AllValid board y h = record {
  transport = pop_command-IsValid y.world.transport h.transport;
  queue = h.queue;
  capture = h.capture;
}

tx_pending-drop_command :
    {E : Type 0} (board : Board E) (y : Firmware E)
    → tx_pending (drop_command board y).world.transport ≡ tx_pending y.world.transport
unfolding pop_command
tx_pending-drop_command board y = ground arith

contents-drop_command :
    {E : Type 0} (board : Board E) (y : Firmware E)
    → contents (drop_command board y).queue ≡ contents y.queue
contents-drop_command board y = refl

length-stream_end :
    (ss : List Sending) (mode n : ℕ)
    → All IsSending ss
    → mode ≤ 4
    → n ≤ queue_capacity
    → length (stream (ss ++ status_sending mode n ∷ [])) ≡ length (stream ss) + 12
length-stream_end ss mode n g m h =
    let status = status_sending mode n in
    let (_, joint) = append-sending ss status g (status-IsSending mode n m h) refl in
    omega (arith, ap length joint, length-append (stream ss) status.encoded, length-status mode n)

module _ {E : Type 0} (board : Board E) where
  -- How the program stands behind the events `es`.
  record Batched (es : List Sent) (ss : List Sending) (y y' : Firmware E) : Type 0 where
    queued : contents y'.queue ≡ contents y.queue ++ events es
    pending :
        tx_pending y'.world.transport
        ≡ stream (ss ++ statuses y.world.mode (length (contents y.queue)) es)
    sendings : All IsSending (ss ++ statuses y.world.mode (length (contents y.queue)) es)
    same_mode : y'.world.mode ≡ y.world.mode

  serve-Batched :
      (es : List Sent) (ss : List Sending) (y : Firmware E)
      → AllValid y
      → (y.world.mode ≡ mode_armed) ⊎ (y.world.mode ≡ mode_playing)
      → length (contents y.queue) + length es ≤ queue_capacity
      → tx_pending y.world.transport ≡ stream ss
      → All IsSending ss
      → length (stream ss) + 12 * length es ≤ tx_ring_capacity
      → All (λ (e : Sent). IsWriting (writing e)) es
      → Batched es ss y (serve board (frames_for (writings es)) y)
  unfolding serve
  serve-Batched [] ss y v armed room sent g fits ws = record {
    queued = sym (append-nil (contents y.queue));
    pending = sent ∙ ap stream (sym (append-nil ss));
    sendings = rw append-nil g;
    same_mode = refl;
  }
  serve-Batched (e ∷ es) ss y v armed room sent g fits (w, ws) =
      let z = drop_command board y in
      let vz = drop_command-AllValid board y v in
      let f = frame_for (send_queue_event e.offset_us e.report) in
      let n = length (contents y.queue) in
      let mode = y.world.mode in
      let status = status_sending mode (n + 1) in
      let one =
        event-Stepped board e.offset_us e.report e.bytes ss z (written-Reads (writing e) w) vz.queue
          vz.transport.tx armed (omega (arith, room)) (tx_pending-drop_command board y ∙ sent) g
          (omega (arith, fits)) in
      let y2 = dispatch_command board f z in
      let v2 = dispatch_command_closed AllValid board (AllValid-Closed board) f z vz in
      let small : mode ≤ 4 = elim armed [ inl a ↦ omega (arith, a) | inr a ↦ omega (arith, a) ] in
      let more : length (contents y2.queue) ≡ n + 1 = omega (
        arith,
        ap length one.queued,
        length-append (contents y.queue) (event_of e.offset_us (some e.report) report_size ∷ []),
      ) in
      let longer = length-stream_end ss mode (n + 1) g small (omega (arith, room)) in
      let armed2 : (y2.world.mode ≡ mode_armed) ⊎ (y2.world.mode ≡ mode_playing) = elim armed [
        | inl a ↦ inl (one.same_mode ∙ a)
        | inr a ↦ inr (one.same_mode ∙ a)
      ] in
      let rest =
        serve-Batched es (ss ++ status ∷ []) y2 v2 armed2 (omega (arith, room, more)) one.pending
          one.sendings (omega (arith, fits, longer)) ws in
      let same : (ss ++ status ∷ []) ++ statuses y2.world.mode (length (contents y2.queue)) es
          ≡ ss ++ statuses mode n (e ∷ es) =
        append_assoc ss (status ∷ []) (statuses y2.world.mode (length (contents y2.queue)) es)
        ∙ ap₂ (λ m k. ss ++ status ∷ statuses m k es) one.same_mode more in
      record {
        queued =
            rest.queued
            ∙ ap (λ l. l ++ events es) one.queued
            ∙ append_assoc (contents y.queue)
                (event_of e.offset_us (some e.report) report_size ∷ []) (events es);
        pending = rest.pending ∙ ap stream same;
        sendings = subst (All IsSending) same rest.sendings;
        same_mode = rest.same_mode ∙ one.same_mode;
      }

  -- A batch of events of the playback session, as the Pico takes it and as the session learns of it.
  pub record Fed (es : List Sent) (credit : Credit) (y y' : Firmware E) : Type 0 where
    pub queued : contents y'.queue ≡ contents y.queue ++ events es
    pub same_mode : y'.world.mode ≡ y.world.mode
    pub acks : List Message
    pub arrived :
        (chunks : List (List ℕ))
        → joined chunks ≡ tx_pending y'.world.transport
        → feed_all chunks decoder ≡ (acks, decoder)
    pub learnt :
        let n = length (contents y'.queue) in
        take_acks (length es) y.world.mode credit acks
        ≡ returned (record { queued_count = n; free_capacity = queue_capacity - n }, [])

  -- A batch of the playback session never overflows the Pico: when the events of a batch, of the size that the
  -- session computes from an exact credit, wait as commands, the command loop puts all of them last into the
  -- playback queue, in their order, and keeps the mode; and the Zero, to which the answers come in any
  -- chunks, decodes one acknowledgement for each event and takes them all, and behind these its credit is
  -- exact again: the number of queued events and the room that the Pico's queue has left. The events are those
  -- that the Zero's encoder wrote; the Pico is ARMED or PLAYING, its rings and queues are valid, and no byte
  -- waits for the line.
  pub batch-Fed :
      (k left : ℕ) (es : List Sent) (y : Firmware E)
      → AllValid y
      → (y.world.mode ≡ mode_armed) ⊎ (y.world.mode ≡ mode_playing)
      → waiting y.world.transport ≡ frames_for (writings es)
      → All (λ (e : Sent). IsWriting (writing e)) es
      → length es ≡ batch_count (queue_capacity - length (contents y.queue)) left
      → tx_pending y.world.transport ≡ []
      → let n = length (contents y.queue) in
        Fed es
          (record { queued_count = n; free_capacity = queue_capacity - n })
          y
          (run_commands board (suc (length es) + k) y)
  batch-Fed k left es y v armed wait ws sized none =
      let n = length (contents y.queue) in
      let (short, small_enough) = batch_count_bounds (queue_capacity - n) left in
      let inside : n ≤ queue_capacity = omega (arith, length-contents y.queue, v.queue.bounded) in
      let room : n + length es ≤ queue_capacity = omega (arith, inside, sized, small_enough) in
      let credit : Credit = record { queued_count = n; free_capacity = queue_capacity - n } in
      let few : length (waiting y.world.transport) < suc (length es) =
        omega (arith, ap length wait, length-frames es) in
      let (served, _, _) =
        run_commands_serves board (suc (length es)) k y v.transport.command few in
      let b = serve-Batched es [] y v armed room none tt (omega (arith, short, sized)) ws in
      let y' = serve board (frames_for (writings es)) y in
      let e : run_commands board (suc (length es) + k) y ≡ y' =
        served ∙ ap (λ l. serve board l y) wait in
      let small : y.world.mode ≤ 4 = elim armed [
        | inl a ↦ omega (arith, a)
        | inr a ↦ omega (arith, a)
      ] in
      let size : n + length es ≡ length (contents y'.queue) = omega (
        arith,
        ap length b.queued,
        length-append (contents y.queue) (events es),
        length-events es,
      ) in
      let fed : Fed es credit y y' = record {
        queued = b.queued;
        same_mode = b.same_mode;
        acks = messages (statuses y.world.mode n es);
        arrived = λ chunks same.
            stream_delivered chunks (statuses y.world.mode n es) [] [] b.sendings rested
              (same ∙ b.pending);
        learnt =
            take_acks-statuses es y.world.mode n credit small room
            ∙ ap (λ c. returned (c, [])) (acked_exact n es)
            ∙ ap
                (λ m.
                  returned (record { queued_count = m; free_capacity = queue_capacity - m }, []))
                size;
      } in
      subst (Fed es credit y) (sym e) fed
