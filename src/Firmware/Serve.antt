-- ===== src/Firmware/Serve.antt =====
-- The command loop of pico/src/main.c: every command that waits is dispatched once, in order.
use pico_keyboard_rt_recorde.Base.{
  ℕ, zero, suc, ◌+◌, ◌-◌, ◌%◌, ◌<◌, ◌≡◌, refl, sym, ap, ◌∙◌, ◌⊎◌, inl, inr, true, false, none, some,
  Array, List, [], ◌∷◌, ◌==◌, length, arith, window, window-nil, window-pop, u8, ℕ_discrete,
}
use pico_keyboard_rt_recorde.Protocol.{Frame}
use pico_keyboard_rt_recorde.Protocol.Codec.{Bytes, encode_frame}
use pico_keyboard_rt_recorde.Transport.{Transport, command_capacity, parser_capacity, distance8}
use pico_keyboard_rt_recorde.Transport.Commands.{pop_command}
use pico_keyboard_rt_recorde.Transport.Send.{queue_frame}
use pico_keyboard_rt_recorde.Transport.CommandRing.{IsCommandValid, command_count, waiting}
use pico_keyboard_rt_recorde.Transport.ValidRings.{queue_encoded-OnlyTx}
use pico_keyboard_rt_recorde.Firmware.{Board, Firmware, on_world, send_frame}
use pico_keyboard_rt_recorde.Firmware.Commands.{dispatch_command}
use pico_keyboard_rt_recorde.Firmware.Loop.{run_commands}
use pico_keyboard_rt_recorde.Firmware.Closed.{Elementary, Closed, on_mode_rule}
use pico_keyboard_rt_recorde.Firmware.ClosedSteps.{dispatch_command_closed}

pop_command_refines :
    (t : Transport)
    → IsCommandValid t
    → let (f, t') = pop_command t in
      IsCommandValid t'
      × (((f ≡ none) × (waiting t ≡ []) × (t' ≡ t))
          ⊎ ((c : Frame) × (f ≡ some c) × (waiting t ≡ c ∷ waiting t')))
unfolding pop_command
pop_command_refines t v = elim (ℕ_discrete t.command_tail t.command_head) [
  | yes e ↦
      let same : (t.command_tail == t.command_head) ≡ true = ground arith in
      let none_left : command_count t ≡ 0 = omega (arith, v.head_in, v.tail_in, e) in
      rw same
        (v, inl (refl, window-nil t.commands command_capacity t.command_tail _ none_left, refl))
  | no e ↦
      let differ : (t.command_tail == t.command_head) ≡ false = ground arith in
      let next = u8 (t.command_tail + 1) in
      let less : distance8 t.command_head next ≡ command_count t - 1 =
        omega (arith, v.head_in, v.tail_in, e) in
      let some_left : 0 < command_count t = omega (arith, v.head_in, v.tail_in, e) in
      let first =
        window-pop t.commands command_capacity t.command_tail next (command_count t) some_left
          (omega arith) in
      let oldest = t.commands (t.command_tail % command_capacity) in
      rw differ (
        record {
          head_in = v.head_in;
          tail_in = omega arith;
          bounded = omega (arith, less, v.bounded);
        },
        inr (
          oldest,
          refl,
          first ∙ ap (λ n. oldest ∷ window t.commands command_capacity next n) (sym less),
        ),
      )
]

abbrev command_ring : Transport → Array Frame × ℕ × ℕ
command_ring t = (t.commands, t.command_head, t.command_tail)

queue_frame-command_ring :
    (type n : ℕ) (payload : Bytes) (t : Transport)
    → command_ring (queue_frame type payload n t).1 ≡ command_ring t
unfolding queue_frame
queue_frame-command_ring type n payload t =
    let (a, h, s, e) = queue_encoded-OnlyTx (encode_frame type payload n parser_capacity) t in
    ap command_ring e

-- A command ring that stays as it is.
Unchanged-Elementary :
    {E : Type 0} (r : Array Frame × ℕ × ℕ)
    → Elementary {E = E} (λ y. command_ring y.world.transport ≡ r)
unfolding send_frame
Unchanged-Elementary r = record {
  others = λ s l f b y h. h;
  framed = λ type n payload y h. queue_frame-command_ring type n payload y.world.transport ∙ h;
  capture_cleared = λ y h. h;
  capture_popped = λ y h. h;
  capture_marked = λ y h. h;
  queue_cleared = λ y h. h;
  queue_popped = λ y h. h;
  queue_pushed = λ t l n y allowed h. h;
}

Unchanged-Closed :
    {E : Type 0} (board : Board E) (r : Array Frame × ℕ × ℕ)
    → Closed board (λ y. command_ring y.world.transport ≡ r)
Unchanged-Closed board r = record {
  elementary = Unchanged-Elementary r;
  moded = on_mode_rule _ (Unchanged-Elementary r) board (λ m y h. h);
}

abbrev waiting_in : Array Frame × ℕ × ℕ → List Frame
waiting_in (a, h, x) = window a command_capacity x (distance8 h x)

valid_from :
    (t t' : Transport) → command_ring t' ≡ command_ring t → IsCommandValid t → IsCommandValid t'
valid_from t t' e v =
    let head : t'.command_head ≡ t.command_head =
      ap (λ (r : Array Frame × ℕ × ℕ). let (a, h, x) = r in h) e in
    let tail : t'.command_tail ≡ t.command_tail =
      ap (λ (r : Array Frame × ℕ × ℕ). let (a, h, x) = r in x) e in
    record {
      head_in = rw head v.head_in;
      tail_in = rw tail v.tail_in;
      bounded = rw (head, tail) v.bounded;
    }

module _ {E : Type 0} (board : Board E) where
  abbrev pub drop_command : Firmware E → Firmware E
  drop_command y = on_world (λ w. record w { transport = (pop_command w.transport).1 }) y

  -- Each command is taken out of the ring and then dispatched.
  unfoldable pub serve : List Frame → Firmware E → Firmware E
  serve [] y = y
  serve (f ∷ fs) y = serve fs (dispatch_command board f (drop_command y))

  dispatch_command-command_ring :
      (f : Frame) (y : Firmware E)
      → command_ring (dispatch_command board f y).world.transport ≡ command_ring y.world.transport
  dispatch_command-command_ring f y =
      dispatch_command_closed _ board (Unchanged-Closed board (command_ring y.world.transport)) f y
        refl

  -- The command loop is the dispatch of the waiting commands, each once, oldest first, whatever they do; it
  -- ends with no command waiting, and more turns of it would change nothing. The counters of the command
  -- ring are valid before and after.
  pub run_commands_serves :
      (n k : ℕ) (y : Firmware E)
      → IsCommandValid y.world.transport
      → length (waiting y.world.transport) < n
      → (run_commands board (n + k) y ≡ serve (waiting y.world.transport) y)
        × (waiting (run_commands board (n + k) y).world.transport ≡ [])
        × IsCommandValid (run_commands board (n + k) y).world.transport
  unfolding run_commands serve
  run_commands_serves zero k y v h = absurd (omega arith)
  run_commands_serves (suc n) k y v h =
      let t = y.world.transport in
      let more : suc n + k ≡ suc (n + k) = omega arith in
      let (v', outcome) = pop_command_refines t v in
      rw more (elim outcome [
        | inl (nothing, empty, same) ↦ rw (nothing, run_commands) (rw (empty, serve) refl, empty, v)
        | inr (f, found, first) ↦
            let y' = drop_command y in
            let served = dispatch_command board f y' in
            let kept = dispatch_command-command_ring f y' in
            let left : waiting served.world.transport ≡ waiting y'.world.transport =
              ap waiting_in kept in
            let fewer : length (waiting served.world.transport) < n =
              omega (arith, h, ap length first, ap length left) in
            let v'' = valid_from y'.world.transport served.world.transport kept v' in
            let (all, empty, valid) = run_commands_serves n k served v'' fewer in
            rw (found, run_commands)
              (
                all ∙ ap (λ fs. serve fs served) left ∙ sym (ap (λ fs. serve fs y) first),
                empty,
                valid,
              )
      ])
