-- ===== src/Transport/Resync.antt =====
-- The parser of `pico_uart_transport_poll` on bytes that are no frame.
use pico_keyboard_rt_recorde.Base.{
  ℕ, ◌+◌, ◌*◌, ◌≤◌, ◌<◌, ◌≡◌, ◌≢◌, refl, sym, ap, ◌∙◌, inl, inr, Bool, true, List, [], ◌∷◌, ◌++◌,
  length, get_or, ◌==◌, not, ◌&&◌, arith, All,
}
use pico_keyboard_rt_recorde.Protocol.{
  Frame, magic, protocol_version, max_payload, type_is_command, frame_payload_valid,
}
use pico_keyboard_rt_recorde.Protocol.Codec.{
  DecodeResult, ok, too_short, bad_magic, bad_version, bad_length, bad_crc, decode_frame,
}
use pico_keyboard_rt_recorde.Protocol.RoundTrip.{wire, frame_of}
use pico_keyboard_rt_recorde.Transport.{Transport, command_capacity, note_decode_error, latch_fault}
use pico_keyboard_rt_recorde.Transport.Receive.{accept_byte, handle_result}
use pico_keyboard_rt_recorde.Transport.CommandRing.{IsCommandValid, waiting}
use pico_keyboard_rt_recorde.Transport.ParseSteps.{partway}
use pico_keyboard_rt_recorde.Transport.Parse.{feed, feed-append, walk, frame_delivered}

-- What the parser drops as a whole: a byte that starts no frame, or as many bytes as a frame header
-- announces, that do not decode.
pub data Damage : List ℕ → Type 0 where
  stray : (b : ℕ) → b ≢ magic → Damage (b ∷ [])
  broken :
      (bytes : List ℕ) (n : ℕ)
      → n ≤ max_payload
      → length bytes ≡ 7 + n
      → get_or bytes 0 0 ≡ magic
      → get_or bytes 1 0 ≡ protocol_version
      → get_or bytes 3 0 + get_or bytes 4 0 * 256 ≡ n
      → ((f : Frame) → decode_frame bytes ≢ ok f)
      → Damage bytes

-- What is left of dropped bytes: a parser that waits for a frame, and the fault.
record Dropped (t t' : Transport) : Type 0 where
  waits : t'.parser_len ≡ 0
  valid : IsCommandValid t'
  same : waiting t' ≡ waiting t
  fault : t'.fault_pending ≡ true

note-Dropped :
    (r : DecodeResult) (t : Transport)
    → IsCommandValid t
    → Dropped t (record (note_decode_error r t) { parser_len = 0 })
unfolding note_decode_error latch_fault
note-Dropped r t v = record {
  waits = refl;
  valid = record { head_in = v.head_in; tail_in = v.tail_in; bounded = v.bounded };
  same = refl;
  fault = refl;
}

handle_result-Dropped :
    (r : DecodeResult) (t : Transport)
    → IsCommandValid t
    → ((f : Frame) → r ≢ ok f)
    → Dropped t (handle_result r t)
unfolding handle_result
handle_result-Dropped (ok f) t v h = absurd (h f refl)
handle_result-Dropped too_short t v h = note-Dropped too_short t v
handle_result-Dropped bad_magic t v h = note-Dropped bad_magic t v
handle_result-Dropped bad_version t v h = note-Dropped bad_version t v
handle_result-Dropped bad_length t v h = note-Dropped bad_length t v
handle_result-Dropped bad_crc t v h = note-Dropped bad_crc t v

stray-Dropped :
    (b : ℕ) (t : Transport)
    → b ≢ magic
    → t.parser_len ≡ 0
    → IsCommandValid t
    → Dropped t (accept_byte b t)
unfolding accept_byte
stray-Dropped b t ne z v =
    let refused : (t.parser_len == 0 && not (b == magic)) ≡ true = ground arith in
    let noted = note-Dropped bad_magic t v in
    rw refused (record {
      waits = unfold note_decode_error in unfold latch_fault in z;
      valid = record {
        head_in = noted.valid.head_in;
        tail_in = noted.valid.tail_in;
        bounded = noted.valid.bounded;
      };
      same = noted.same;
      fault = noted.fault;
    })

Damage-Dropped :
    (bytes : List ℕ) (t : Transport)
    → Damage bytes
    → t.parser_len ≡ 0
    → IsCommandValid t
    → Dropped t (feed bytes t)
unfolding feed
Damage-Dropped _ t (stray b ne) z v = stray-Dropped b t ne z v
Damage-Dropped _ t (broken [] n fits size starts versioned sized bad) z v = absurd (omega arith)
Damage-Dropped _ t (broken (b ∷ rest) n fits size starts versioned sized bad) z v =
    let start : partway t t.parser 0 ≡ t = ap (λ k. record t { parser_len = k }) (sym z) in
    let parsed =
      walk (b ∷ rest) n fits size starts versioned sized t rest b 0 t.parser refl
        (λ i lt. absurd (omega (arith, lt))) in
    let whole = partway t parsed.array (7 + n) in
    let v' : IsCommandValid whole = record {
      head_in = v.head_in;
      tail_in = v.tail_in;
      bounded = v.bounded;
    } in
    let d = handle_result-Dropped (decode_frame (b ∷ rest)) whole v' bad in
    let e = ap (feed (b ∷ rest)) (sym start) ∙ parsed.handled in
    rw e (record { waits = d.waits; valid = d.valid; same = d.same; fault = d.fault })

abbrev pub joined : List (List ℕ) → List ℕ
joined [] = []
joined (d ∷ ds) = d ++ joined ds

-- The fault behind a number of dropped parts.
abbrev pub fault_after : List (List ℕ) → Bool → Bool
fault_after [] fault = fault
fault_after (_ ∷ _) fault = true

damages_dropped :
    (ds : List (List ℕ)) (t : Transport)
    → All Damage ds
    → t.parser_len ≡ 0
    → IsCommandValid t
    → let t' = feed (joined ds) t in
      (t'.parser_len ≡ 0)
      × IsCommandValid t'
      × (waiting t' ≡ waiting t)
      × (t'.fault_pending ≡ fault_after ds t.fault_pending)
unfolding feed
damages_dropped [] t g z v = (z, v, refl, refl)
damages_dropped (d ∷ ds) t (g, gs) z v =
    let one = Damage-Dropped d t g z v in
    let (z', v', same, fault) = damages_dropped ds (feed d t) gs one.waits one.valid in
    rw (feed-append d (joined ds) t)
      (z', v', same ∙ one.same, fault ∙ still ds (feed d t) one.fault)
  where
    still :
        (ds : List (List ℕ)) (t : Transport)
        → t.fault_pending ≡ true
        → fault_after ds t.fault_pending ≡ true
    still [] t h = h
    still (d ∷ ds) t h = refl

-- The parser finds the next frame behind damaged input: bytes that start no frame and parts that have a
-- frame's start and length but do not decode are dropped, each as a whole, with a fault; a command of the
-- right shape behind them is delivered whole and stands last among the waiting commands, and the parser
-- waits for the next frame. Before, the parser waits for a frame, the counters of the command ring are
-- valid and fewer than 8 commands wait; the payload has the announced length of at most 64 bytes.
pub frame_resynchronised :
    (ds : List (List ℕ)) (type n : ℕ) (payload : List ℕ) (t : Transport)
    → All Damage ds
    → length payload ≡ n
    → n ≤ max_payload
    → type_is_command type ≡ true
    → frame_payload_valid (frame_of type n payload) ≡ true
    → t.parser_len ≡ 0
    → IsCommandValid t
    → length (waiting t) < command_capacity
    → let t' = feed (joined ds ++ wire type n payload) t in
      (t'.parser_len ≡ 0)
      × (waiting t' ≡ waiting t ++ frame_of type n payload ∷ [])
      × (t'.fault_pending ≡ fault_after ds t.fault_pending)
frame_resynchronised ds type n payload t g size fits command shaped z v room =
    let (z', v', same, fault) = damages_dropped ds t g z v in
    let (z'', v'', outcome) = frame_delivered type n payload (feed (joined ds) t) size fits z' v' in
    rw (feed-append (joined ds) (wire type n payload) t) (elim outcome [
      | inl (_, _, _, last, calm) ↦
          (z'', last ∙ ap (λ l. l ++ frame_of type n payload ∷ []) same, calm ∙ fault)
      | inr (inl e, _, _) ↦ absurd (cc)
      | inr (inr (inl e), _, _) ↦ absurd (cc)
      | inr (inr (inr e), _, _) ↦ absurd (omega (arith, e, room, ap length same))
    ])
