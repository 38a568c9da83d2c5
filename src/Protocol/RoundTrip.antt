-- ===== src/Protocol/RoundTrip.antt =====
-- Encoding and decoding of frames are inverse to each other (pico/src/uart_protocol.c).
use pico_keyboard_rt_recorde.Base.{
  ℕ, zero, suc, ◌+◌, ◌*◌, ◌/◌, ◌%◌, ◌≤◌, ◌<◌, ◌≡◌, ◌≢◌, sym, refl, ap, ◌∙◌, true, some, List, [],
  ◌∷◌, ◌++◌, length, get_or, take, arith, length-append, take-append, All,
}
use pico_keyboard_rt_recorde.Protocol.{magic, protocol_version, max_payload, Frame, type_known}
use pico_keyboard_rt_recorde.Protocol.Crc.{crc16}
use pico_keyboard_rt_recorde.Protocol.Codec.{Bytes, copy, covered, encode_frame, ok, decode_frame}

-- The frame that carries `payload` under `type`.
abbrev pub frame_of : ℕ → ℕ → List ℕ → Frame
frame_of type n payload = record {
  version = protocol_version;
  type = type;
  payload_len = n;
  payload = payload;
}

-- The bytes of a frame whose payload has `n` bytes.
unfoldable pub wire : ℕ → ℕ → List ℕ → List ℕ
unfolding covered
wire type n payload =
    let crc = crc16 (covered type payload n) in
    magic ∷ (covered type payload n ++ crc % 256 ∷ crc / 256 ∷ [])

five : (n : ℕ) → 5 + n ≡ suc (suc (suc (suc (suc n))))
five n = omega arith

six : (n : ℕ) → 6 + n ≡ suc (suc (suc (suc (suc (suc n)))))
six n = omega arith

four : (n : ℕ) → 4 + n ≡ suc (suc (suc (suc n)))
four n = omega arith

get_or-append {ℓ} :
    {A : Type ℓ} (xs : List A) (y z d : A)
    → (get_or (xs ++ y ∷ z ∷ []) (length xs) d ≡ y)
      × (get_or (xs ++ y ∷ z ∷ []) (suc (length xs)) d ≡ z)
get_or-append [] y z d = (refl, refl)
get_or-append (x ∷ xs) y z d = get_or-append xs y z d

-- Decoding a frame that is laid out as fields, when its length and its checksum are right.
decode-fields :
    (t lo hi c d : ℕ) (q : List ℕ)
    → length q ≡ lo + hi * 256
    → length q ≤ max_payload
    → crc16 (protocol_version ∷ t ∷ lo ∷ hi ∷ q) ≡ c + d * 256
    → decode_frame (magic ∷ protocol_version ∷ t ∷ lo ∷ hi ∷ (q ++ c ∷ d ∷ []))
      ≡ ok (frame_of t (length q) q)
unfolding decode_frame
decode-fields t lo hi c d q e h crc =
    rw (← e, four (length q), five (length q), six (length q), take-append q (c ∷ d ∷ []))
      (rw ((get_or-append q c d 0).0, (get_or-append q c d 0).1, crc)
        (ground (arith, length-append q (c ∷ d ∷ []))))

-- Decoding undoes the layout.
pub decode-wire :
    (t n : ℕ) (q : List ℕ)
    → length q ≡ n
    → n ≤ max_payload
    → decode_frame (wire t n q) ≡ ok (frame_of t n q)
unfolding wire covered
decode-wire t n q e h =
    decode-fields t (n % 256) (n / 256) (crc % 256) (crc / 256) q (omega arith) (omega arith)
      (omega arith)
    ∙ ap (λ k. ok (frame_of t k q)) e
  where
    crc : ℕ
    crc = crc16 (protocol_version ∷ t ∷ n % 256 ∷ n / 256 ∷ q)

-- What the encoder returns is the layout of the copied payload, and the length fits.
pub encode-eq-wire :
    (t n size : ℕ) (payload : Bytes) {bytes : List ℕ}
    → encode_frame t payload n size ≡ some bytes
    → (bytes ≡ wire t n (copy n payload)) × (n ≤ max_payload) × (type_known t ≡ true)
unfolding encode_frame wire
encode-eq-wire t n size payload h = ground arith

-- Decoding an encoded frame gives back the type, the length and the payload bytes, under version 2,
-- whenever the encoder accepts its input and the payload pointer has the bytes that are announced.
pub decode-encode :
    (t n size : ℕ) (payload : Bytes) {bytes : List ℕ}
    → length (copy n payload) ≡ n
    → encode_frame t payload n size ≡ some bytes
    → decode_frame bytes ≡ ok (frame_of t n (copy n payload))
decode-encode t n size payload e h =
    let (w, fits, known) = encode-eq-wire t n size payload h in
    ap decode_frame w ∙ decode-wire t n (copy n payload) e fits

-- The last two items of a list of known length.
split_last_two :
    (m : ℕ) (xs : List ℕ)
    → length xs ≡ m + 2
    → xs ≡ take m xs ++ get_or xs m 0 ∷ get_or xs (suc m) 0 ∷ []
split_last_two m [] h = absurd (omega arith)
split_last_two zero (x ∷ []) h = absurd (omega arith)
split_last_two zero (x ∷ y ∷ []) h = refl
split_last_two zero (x ∷ y ∷ z ∷ xs) h = absurd (omega arith)
split_last_two (suc m) (x ∷ xs) h = ap (◌∷◌ x) (split_last_two m xs (omega arith))

length-take_of_le {ℓ} : {A : Type ℓ} (m : ℕ) (xs : List A) → m ≤ length xs → length (take m xs) ≡ m
length-take_of_le zero xs h = refl
length-take_of_le (suc m) [] h = absurd (omega arith)
length-take_of_le (suc m) (x ∷ xs) h = ap suc (length-take_of_le m xs (omega arith))

-- What the decoder has checked when it accepts.
pub record Accepted (bytes : List ℕ) (f : Frame) : Type 0 where
  pub canonical : bytes ≡ wire f.type f.payload_len f.payload
  pub version_two : f.version ≡ protocol_version
  pub sized : length f.payload ≡ f.payload_len
  pub fits : f.payload_len ≤ max_payload

-- Fewer than seven bytes are never accepted.
short : (bytes : List ℕ) {f : Frame} → length bytes < 7 → decode_frame bytes ≢ ok f
unfolding decode_frame
short bytes h e = ground arith

get_or-lt : (xs : List ℕ) (i : ℕ) → All (λ x. x < 256) xs → get_or xs i 0 < 256
get_or-lt [] i h = omega arith
get_or-lt (x ∷ xs) zero h = h.0
get_or-lt (x ∷ xs) (suc i) h = get_or-lt xs i h.1

-- The tests that an accepted list of at least five bytes has passed.
decode-checks :
    (a b t lo hi : ℕ) (r : List ℕ) (f : Frame)
    → decode_frame (a ∷ b ∷ t ∷ lo ∷ hi ∷ r) ≡ ok f
    → let m = lo + hi * 256 in
      (a ≡ magic)
      × (b ≡ protocol_version)
      × (m ≤ max_payload)
      × (length r ≡ m + 2)
      × (crc16 (b ∷ t ∷ lo ∷ hi ∷ take m r) ≡ get_or r m 0 + get_or r (suc m) 0 * 256)
      × (f ≡ frame_of t m (take m r))
unfolding decode_frame
decode-checks a b t lo hi r f h =
    let h' = rw (four (lo + hi * 256), five (lo + hi * 256), six (lo + hi * 256)) at h in
    ground arith

low_byte : (lo hi : ℕ) → lo < 256 → (lo + hi * 256) % 256 ≡ lo
low_byte lo hi h = omega arith

high_byte : (lo hi : ℕ) → lo < 256 → (lo + hi * 256) / 256 ≡ hi
high_byte lo hi h = omega arith

-- The layout, when both length bytes and both checksum bytes are given.
wire-fields :
    (t lo hi c d : ℕ) (q : List ℕ)
    → lo < 256
    → c < 256
    → crc16 (protocol_version ∷ t ∷ lo ∷ hi ∷ q) ≡ c + d * 256
    → wire t (lo + hi * 256) q ≡ magic ∷ protocol_version ∷ t ∷ lo ∷ hi ∷ (q ++ c ∷ d ∷ [])
unfolding wire covered
wire-fields t lo hi c d q hl hc crc =
    rw (low_byte lo hi hl, high_byte lo hi hl) (rw crc (rw (low_byte c d hc, high_byte c d hc)))

decode-Accepted_fields :
    (a b t lo hi : ℕ) (r : List ℕ) (f : Frame)
    → All (λ x. x < 256) (a ∷ b ∷ t ∷ lo ∷ hi ∷ r)
    → decode_frame (a ∷ b ∷ t ∷ lo ∷ hi ∷ r) ≡ ok f
    → Accepted (a ∷ b ∷ t ∷ lo ∷ hi ∷ r) f
decode-Accepted_fields a b t lo hi r f bs h =
    let m = lo + hi * 256 in
    let (ea, eb, fits, len, crc, ef) = decode-checks a b t lo hi r f h in
    let crc' : crc16 (protocol_version ∷ t ∷ lo ∷ hi ∷ take m r)
        ≡ get_or r m 0 + get_or r (suc m) 0 * 256 =
      rw eb at crc in
    let w =
      wire-fields t lo hi (get_or r m 0) (get_or r (suc m) 0) (take m r) bs.1.1.1.0
        (get_or-lt r m bs.1.1.1.1.1) crc' in
    let sized = length-take_of_le m r (omega arith) in
    rw (ef, ea, eb)
      (record {
        canonical =
            ap (λ x. magic ∷ protocol_version ∷ t ∷ lo ∷ hi ∷ x) (split_last_two m r len) ∙ sym w;
        version_two = refl;
        sized = sized;
        fits = fits;
      })

-- Whatever list of bytes the decoder accepts, it is exactly the layout of the frame it returns: one
-- frame has one encoding, its version is 2, and its payload has the announced length, at most 64.
pub decode-Accepted :
    (bytes : List ℕ) {f : Frame}
    → All (λ x. x < 256) bytes
    → decode_frame bytes ≡ ok f
    → Accepted bytes f
decode-Accepted [] bs h = absurd (short [] (omega arith) h)
decode-Accepted (a ∷ []) bs h = absurd (short (a ∷ []) (omega arith) h)
decode-Accepted (a ∷ b ∷ []) bs h = absurd (short (a ∷ b ∷ []) (omega arith) h)
decode-Accepted (a ∷ b ∷ c ∷ []) bs h = absurd (short (a ∷ b ∷ c ∷ []) (omega arith) h)
decode-Accepted (a ∷ b ∷ c ∷ d ∷ []) bs h = absurd (short (a ∷ b ∷ c ∷ d ∷ []) (omega arith) h)
decode-Accepted (a ∷ b ∷ t ∷ lo ∷ hi ∷ r) {f} bs h = decode-Accepted_fields a b t lo hi r f bs h
