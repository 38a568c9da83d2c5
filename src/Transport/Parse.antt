-- ===== src/Transport/Parse.antt =====
-- The parser of `pico_uart_transport_poll` on the bytes of a whole frame.
use pico_keyboard_rt_recorde.Base.{
  ℕ, ◌+◌, ◌*◌, ◌/◌, ◌%◌, ◌≤◌, ◌<◌, ◌≡◌, refl, sym, ap, ◌∙◌, ◌⊎◌, inl, inr, true, false, List, [],
  ◌∷◌, ◌++◌, length, get_or, drop, Array, update, prefix, prefix_cong, arith, ℕ_discrete, dec_lt,
  length-append,
}
use pico_keyboard_rt_recorde.Protocol.{
  magic, protocol_version, max_payload, header_len, type_is_command, frame_payload_valid,
}
use pico_keyboard_rt_recorde.Protocol.Crc.{crc16}
use pico_keyboard_rt_recorde.Protocol.Codec.{decode_frame, ok, covered}
use pico_keyboard_rt_recorde.Protocol.RoundTrip.{wire, frame_of, decode-wire}
use pico_keyboard_rt_recorde.Transport.{Transport, command_capacity}
use pico_keyboard_rt_recorde.Transport.Receive.{accept_byte, after_store, handle_result}
use pico_keyboard_rt_recorde.Transport.CommandRing.{
  IsCommandValid, waiting, enqueue_command_refines,
}
use pico_keyboard_rt_recorde.Transport.ParseSteps.{
  partway, Agrees, accept_stores, after_header, after_payload, after_last, drop_cons, prefix-get_or,
  update-Agrees,
}

-- The parser's steps on a sequence of bytes.
unfoldable pub feed : List ℕ → Transport → Transport
feed [] t = t
feed (b ∷ bs) t = feed bs (accept_byte b t)

pub feed-append : (xs ys : List ℕ) (t : Transport) → feed (xs ++ ys) t ≡ feed ys (feed xs t)
unfolding feed
feed-append [] ys t = refl
feed-append (x ∷ xs) ys t = feed-append xs ys _

module _ (bytes : List ℕ) (n : ℕ) (fits : n ≤ max_payload) (size : length bytes ≡ 7 + n)
    (starts : get_or bytes 0 0 ≡ magic) (versioned : get_or bytes 1 0 ≡ protocol_version)
    (sized : get_or bytes 3 0 + get_or bytes 4 0 * 256 ≡ n) (t : Transport) where
  -- How the parser ends up: with the whole frame, which is then handled.
  pub record Parsed (r : Transport) : Type 0 where
    pub array : Array ℕ
    pub whole : prefix array (7 + n) ≡ bytes
    pub handled : r ≡ handle_result (decode_frame bytes) (partway t array (7 + n))

  length_of : (p : Array ℕ) (k : ℕ) → Agrees bytes p k → header_len ≤ k → p 3 + p 4 * 256 ≡ n
  length_of p k h le =
      let third = h 3 (omega arith) in let fourth = h 4 (omega arith) in rw (third, fourth) sized

  -- Before the last byte, a byte is only stored.
  goes_on :
      (p : Array ℕ) (k : ℕ)
      → Agrees bytes p k
      → k < 7 + n
      → after_store (partway t p k) ≡ partway t p k
  goes_on p k h lt = elim (dec_lt k header_len) [
    | yes q ↦
        after_header t p k q (elim (ℕ_discrete k 2) [
          | yes e ↦ inr (h 1 (omega (arith, e)) ∙ versioned)
          | no e ↦ inl e
        ])
    | no q ↦ after_payload t p k n (omega arith) (length_of p k h (omega arith)) fits lt
  ]

  stores :
      (p : Array ℕ) (k b : ℕ)
      → b ≡ get_or bytes k 0
      → k < 7 + n
      → accept_byte b (partway t p k) ≡ after_store (partway t (update p k b) (k + 1))
  stores p k b e lt =
      accept_stores t p k b (elim (ℕ_discrete k 0) [ yes z ↦ inr (e ∙ rw z starts) | no z ↦ inl z ])
        (omega arith)

  finishes : (p : Array ℕ) → Agrees bytes p (7 + n) → Parsed (after_store (partway t p (7 + n)))
  finishes p h =
      let all : prefix p (7 + n) ≡ bytes =
        prefix_cong p (λ i. get_or bytes i 0) (7 + n) h ∙ rw (← size) (prefix-get_or bytes) in
      record {
        array = p;
        whole = all;
        handled =
            after_last t p n (length_of p (7 + n) h (omega arith)) fits
            ∙ ap (λ l. handle_result (decode_frame l) (partway t p (7 + n))) all;
      }

  pub walk :
      (rest : List ℕ) (b k : ℕ) (p : Array ℕ)
      → drop k bytes ≡ b ∷ rest
      → Agrees bytes p k
      → Parsed (feed (b ∷ rest) (partway t p k))
  unfolding feed
  walk [] b k p d h =
      let (same, left, count) = drop_cons bytes k b [] d in
      let last : k + 1 ≡ 7 + n = omega (arith, count, size) in
      let h' = update-Agrees bytes p k b h same in
      rw (stores p k b same (omega arith), last) (finishes (update p k b) (rw last at h'))
  walk (c ∷ rest) b k p d h =
      let (same, left, count) = drop_cons bytes k b (c ∷ rest) d in
      let more : k + 1 < 7 + n = omega (arith, count, size) in
      let h' = update-Agrees bytes p k b h same in
      rw (stores p k b same (omega arith), goes_on (update p k b) (k + 1) h' more)
        (walk rest c (k + 1) (update p k b) left h')

pub length-wire :
    (type n : ℕ) (payload : List ℕ) → length payload ≡ n → length (wire type n payload) ≡ 7 + n
unfolding wire covered
length-wire type n payload e =
    let crc = crc16 (covered type payload n) in
    omega (arith, length-append payload (crc % 256 ∷ crc / 256 ∷ []))

wire-Parsed :
    (type n : ℕ) (payload : List ℕ) (t : Transport) (e : length payload ≡ n)
    (fits : n ≤ max_payload)
    → t.parser_len ≡ 0
    → (array : Array ℕ) × (feed (wire type n payload) t
        ≡ handle_result (ok (frame_of type n payload)) (partway t array (7 + n)))
unfolding wire covered
wire-Parsed type n payload t e fits z =
    let crc = crc16 (covered type payload n) in
    let rest = covered type payload n ++ crc % 256 ∷ crc / 256 ∷ [] in
    let sized : n % 256 + n / 256 * 256 ≡ n = omega arith in
    let start : partway t t.parser 0 ≡ t = ap (λ k. record t { parser_len = k }) (sym z) in
    let parsed =
      walk (magic ∷ rest) n fits (length-wire type n payload e) refl refl sized t rest magic 0
        t.parser refl (λ i lt. absurd (omega (arith, lt))) in
    (
      parsed.array,
      ap (feed (magic ∷ rest)) (sym start)
          ∙ parsed.handled
          ∙ ap (λ r. handle_result r (partway t parsed.array (7 + n)))
              (decode-wire type n payload e fits),
    )

-- A frame that arrives byte by byte at a parser that waits for a frame is delivered whole, whatever the
-- buffer held before: behind its last byte the parser waits for the next frame, and the frame stands last
-- among the waiting commands if it is a command of the right shape and fewer than 8 wait. Otherwise the
-- waiting commands stay as they are and a fault is pending. The payload has the announced length of at
-- most 64 bytes, and the counters of the command ring are valid before and after.
pub frame_delivered :
    (type n : ℕ) (payload : List ℕ) (t : Transport)
    → length payload ≡ n
    → n ≤ max_payload
    → t.parser_len ≡ 0
    → IsCommandValid t
    → let f = frame_of type n payload in
      let t' = feed (wire type n payload) t in
      (t'.parser_len ≡ 0)
      × IsCommandValid t'
      × (((type_is_command type ≡ true)
            × (frame_payload_valid f ≡ true)
            × (length (waiting t) < command_capacity)
            × (waiting t' ≡ waiting t ++ f ∷ [])
            × (t'.fault_pending ≡ t.fault_pending))
          ⊎ (((type_is_command type ≡ false)
                ⊎ (frame_payload_valid f ≡ false)
                ⊎ (command_capacity ≤ length (waiting t)))
              × (waiting t' ≡ waiting t)
              × (t'.fault_pending ≡ true)))
unfolding handle_result
frame_delivered type n payload t e fits z v =
    let (array, parsed) = wire-Parsed type n payload t e fits z in
    let whole = partway t array (7 + n) in
    let v' : IsCommandValid whole = record {
      head_in = v.head_in;
      tail_in = v.tail_in;
      bounded = v.bounded;
    } in
    let (w, outcome) = enqueue_command_refines (frame_of type n payload) whole v' in
    rw parsed
      (refl, record { head_in = w.head_in; tail_in = w.tail_in; bounded = w.bounded }, outcome)
