-- ===== src/Firmware/Interrupts/Delivery.antt =====
-- Commands that arrive at the UART of pico/src/uart_transport_pico.c, from the interrupt to the command ring of
-- pico/src/uart_transport.c.
use pico_keyboard_rt_recorde.Base.{
  ℕ, ◌+◌, ◌≤◌, ◌≡◌, refl, sym, ap, ◌∙◌, inl, inr, true, List, [], ◌∷◌, ◌++◌, length, arith,
  length-append, All,
}
use mathlib.Core.List.{append_assoc, append-nil}
use pico_keyboard_rt_recorde.Protocol.{
  Frame, protocol_version, max_payload, type_is_command, frame_payload_valid,
}
use pico_keyboard_rt_recorde.Protocol.RoundTrip.{wire, frame_of}
use pico_keyboard_rt_recorde.Transport.{Transport, rx_ring_capacity, command_capacity}
use pico_keyboard_rt_recorde.Transport.Receive.{poll}
use pico_keyboard_rt_recorde.Transport.CommandRing.{IsCommandValid, waiting}
use pico_keyboard_rt_recorde.Transport.Parse.{feed, feed-append, frame_delivered}
use pico_keyboard_rt_recorde.Transport.Drain.{received, IsRxValid}
use pico_keyboard_rt_recorde.Firmware.Interrupts.{Turn, run_turns, bytes_of, turns_feed}

-- Frames as the Zero sends them: commands of the right shape.
pub record IsCommand (f : Frame) : Type 0 where
  pub command : type_is_command f.type ≡ true
  pub shaped : frame_payload_valid f ≡ true
  pub sized : length f.payload ≡ f.payload_len
  pub fits : f.payload_len ≤ max_payload
  pub versioned : f.version ≡ protocol_version

rebuilt : (f : Frame) → IsCommand f → f ≡ frame_of f.type f.payload_len f.payload
rebuilt f c = ap (λ v. record f { version = v }) c.versioned

abbrev pub wires : List Frame → List ℕ
wires [] = []
wires (f ∷ fs) = wire f.type f.payload_len f.payload ++ wires fs

-- The parser turns the bytes of commands into those commands.
wires-delivered :
    (fs : List Frame) (t : Transport)
    → All IsCommand fs
    → t.parser_len ≡ 0
    → IsCommandValid t
    → length (waiting t) + length fs ≤ command_capacity
    → let t' = feed (wires fs) t in
      (t'.parser_len ≡ 0) × (waiting t' ≡ waiting t ++ fs) × (t'.fault_pending ≡ t.fault_pending)
unfolding feed
wires-delivered [] t g z v h = (z, sym (append-nil (waiting t)), refl)
wires-delivered (f ∷ fs) t (c, g) z v h =
    let one = wire f.type f.payload_len f.payload in
    let t' = feed one t in
    let same = rebuilt f c in
    let shaped = sym (ap frame_payload_valid same) ∙ c.shaped in
    let (z', v', outcome) = frame_delivered f.type f.payload_len f.payload t c.sized c.fits z v in
    rw (feed-append one (wires fs) t) (elim outcome [
      | inl (_, _, _, last, calm) ↦
          let last' : waiting t' ≡ waiting t ++ f ∷ [] =
            last ∙ ap (λ k. waiting t ++ k ∷ []) (sym same) in
          let room : length (waiting t') + length fs ≤ command_capacity =
            omega (arith, h, ap length last', length-append (waiting t) (f ∷ [])) in
          let (z'', w, calm') = wires-delivered fs t' g z' v' room in
          (z'', w ∙ ap (λ l. l ++ fs) last' ∙ append_assoc (waiting t) (f ∷ []) fs, calm' ∙ calm)
      | inr (inl e, _, _) ↦ absurd (cc)
      | inr (inr (inl e), _, _) ↦ absurd (cc)
      | inr (inr (inr e), _, _) ↦ absurd (omega arith)
    ])

-- However the bytes of a sequence of commands are spread over interrupts, and wherever polls come between
-- these, behind a last poll all of the commands wait, each once and in their order, behind those that
-- waited before; the parser waits for the next frame, the receive ring is empty, and no fault is added.
-- The bytes fit into the receive ring, the commands into the command ring, and at the start the receive
-- ring is empty, the parser waits for a frame and the counters are valid.
pub commands_delivered :
    (turns : List Turn) (fs : List Frame) (t : Transport)
    → IsRxValid t
    → IsCommandValid t
    → received t ≡ []
    → t.parser_len ≡ 0
    → All IsCommand fs
    → bytes_of turns ≡ wires fs
    → length (wires fs) ≤ rx_ring_capacity
    → length (waiting t) + length fs ≤ command_capacity
    → let t' = poll (run_turns turns t) in
      (waiting t' ≡ waiting t ++ fs)
      × (received t' ≡ [])
      × (t'.parser_len ≡ 0)
      × (t'.fault_pending ≡ t.fault_pending)
commands_delivered turns fs t v w none z g e fits room =
    let joined : received t ++ bytes_of turns ≡ wires fs = rw (none, e) refl in
    let all = turns_feed turns t v (rw joined fits) in
    let k = rw joined at all in
    let (z', last, calm) = wires-delivered fs t g z w room in
    (
      ap waiting k.same ∙ last,
      k.bytes,
      ap (λ (r : Transport). r.parser_len) k.same ∙ z',
      ap (λ (r : Transport). r.fault_pending) k.same ∙ calm,
    )
