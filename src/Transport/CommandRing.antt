-- ===== src/Transport/CommandRing.antt =====
-- The command ring of pico/src/uart_transport.c as a list: its free-running counters wrap at 2^8, and the
-- slots are the counters modulo the capacity.
use pico_keyboard_rt_recorde.Base.{
  ℕ, ◌+◌, ◌%◌, ◌^◌, ◌≤◌, ◌<◌, ◌≡◌, refl, ap, ◌∙◌, ◌⊎◌, inl, inr, ◌||◌, not, Bool, true, false, List,
  [], ◌∷◌, ◌++◌, leb, length, arith, window, window-push, length-window, update, u8, dec_lt,
}
use pico_keyboard_rt_recorde.Protocol.{Frame, type_is_command, frame_payload_valid}
use pico_keyboard_rt_recorde.Transport.{Transport, command_capacity, distance8, latch_fault}
use pico_keyboard_rt_recorde.Transport.Commands.{
  enqueue_command, refuse_frame, overflow_commands, push_command,
}

abbrev pub command_count : Transport → ℕ
command_count t = distance8 t.command_head t.command_tail

-- The parsed commands that wait for the main loop, oldest first.
abbrev pub waiting : Transport → List Frame
waiting t = window t.commands command_capacity t.command_tail (command_count t)

pub record IsCommandValid (t : Transport) : Type 0 where
  pub head_in : t.command_head < 2 ^ 8
  pub tail_in : t.command_tail < 2 ^ 8
  pub bounded : command_count t ≤ command_capacity

-- A step that leaves the command ring alone and latches the fault.
record Refused (t t' : Transport) : Type 0 where
  valid : IsCommandValid t'
  same : waiting t' ≡ waiting t
  fault : t'.fault_pending ≡ true

refuse_frame-Refused : (f : Frame) (t : Transport) → IsCommandValid t → Refused t (refuse_frame f t)
unfolding refuse_frame latch_fault
refuse_frame-Refused f t v = record {
  valid = record { head_in = v.head_in; tail_in = v.tail_in; bounded = v.bounded };
  same = refl;
  fault = refl;
}

overflow_commands-Refused : (t : Transport) → IsCommandValid t → Refused t (overflow_commands t)
unfolding overflow_commands latch_fault
overflow_commands-Refused t v = record {
  valid = record { head_in = v.head_in; tail_in = v.tail_in; bounded = v.bounded };
  same = refl;
  fault = refl;
}

push_command-waiting :
    (f : Frame) (t : Transport)
    → IsCommandValid t
    → command_count t < command_capacity
    → IsCommandValid (push_command f t)
      × (waiting (push_command f t) ≡ waiting t ++ f ∷ [])
      × ((push_command f t).fault_pending ≡ t.fault_pending)
unfolding push_command
push_command-waiting f t v h =
    let more : distance8 (u8 (t.command_head + 1)) t.command_tail ≡ command_count t + 1 =
      omega (arith, v.head_in, v.tail_in) in
    let slots = update t.commands (t.command_head % command_capacity) f in
    (
      record { head_in = omega arith; tail_in = v.tail_in; bounded = omega (arith, more) },
      ap (window slots command_capacity t.command_tail) more
          ∙ window-push t.commands command_capacity f (command_count t) t.command_tail
              (t.command_head % command_capacity) h (omega (arith, v.head_in, v.tail_in)),
      refl,
    )

length-waiting : (t : Transport) → length (waiting t) ≡ command_count t
length-waiting t = length-window t.commands command_capacity t.command_tail (command_count t)

-- The test of the type and the payload, read both ways.
shape_cases :
    (a b : Bool)
    → ((not a || not b ≡ true) × ((a ≡ false) ⊎ (b ≡ false)))
      ⊎ ((not a || not b ≡ false) × (a ≡ true) × (b ≡ true))
shape_cases false b = inl (refl, inl refl)
shape_cases true false = inl (refl, inr refl)
shape_cases true true = inr (refl, refl, refl)

-- A frame is accepted by the parser's end of the command ring exactly when it is a command with a
-- payload of the right shape and fewer than 8 commands wait; it then waits last, and otherwise the
-- waiting commands stay as they are and a fault is pending. The counters are valid before and after.
pub enqueue_command_refines :
    (frame : Frame) (t : Transport)
    → IsCommandValid t
    → let t' = enqueue_command frame t in
      IsCommandValid t'
      × (((type_is_command frame.type ≡ true)
            × (frame_payload_valid frame ≡ true)
            × (length (waiting t) < command_capacity)
            × (waiting t' ≡ waiting t ++ frame ∷ [])
            × (t'.fault_pending ≡ t.fault_pending))
          ⊎ (((type_is_command frame.type ≡ false)
                ⊎ (frame_payload_valid frame ≡ false)
                ⊎ (command_capacity ≤ length (waiting t)))
              × (waiting t' ≡ waiting t)
              × (t'.fault_pending ≡ true)))
unfolding enqueue_command
enqueue_command_refines frame t v =
    elim (shape_cases (type_is_command frame.type) (frame_payload_valid frame)) [
      | inl (bad, why) ↦
          let r = refuse_frame-Refused frame t v in
          rw bad (r.valid, inr (elim why [ inl a ↦ inl a | inr b ↦ inr (inl b) ], r.same, r.fault))
      | inr (good, command, shaped) ↦ rw good (elim (dec_lt (command_count t) command_capacity) [
        | yes p ↦
            let space : leb command_capacity (command_count t) ≡ false = ground arith in
            let (w, e, f) = push_command-waiting frame t v p in
            rw space (w, inl (command, shaped, rw (length-waiting t) p, e, f))
        | no p ↦
            let full : leb command_capacity (command_count t) ≡ true = ground arith in
            let r = overflow_commands-Refused t v in
            let all : command_capacity ≤ length (waiting t) = omega (arith, length-waiting t, p) in
            rw full (r.valid, inr (inr (inr all), r.same, r.fault))
      ])
    ]
