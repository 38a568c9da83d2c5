-- ===== src/Zero/Encode/Agreement.antt =====
-- `encode_frame` of zero/app/uart_protocol.py and `pico_uart_encode_frame` of pico/src/uart_protocol.c agree.
use pico_keyboard_rt_recorde.Base.{
  ℕ, ◌≤◌, ◌<◌, ◌≡◌, refl, ap, true, Option, none, some, List, [], ◌∷◌, length, take, arith, All,
  dec_lt, inl, inr, Bool-cases,
}
use pico_keyboard_rt_recorde.Protocol.{type_known}
use pico_keyboard_rt_recorde.Protocol.Crc.{crc16}
use pico_keyboard_rt_recorde.Protocol.Codec
use pico_keyboard_rt_recorde.Protocol.RoundTrip.{wire}
use pico_keyboard_rt_recorde.Transport.{parser_capacity}
use pico_keyboard_rt_recorde.Zero.{is_zero_to_pico, Attempt, returned, raised}
use pico_keyboard_rt_recorde.Zero.Crc.{crc16_ccitt_false, crc16_ccitt_false-eq}
use pico_keyboard_rt_recorde.Zero.Encode
use pico_keyboard_rt_recorde.Zero.Encode.{covered}

abbrev pub result {ℓ} : {A : Type ℓ} → Attempt A → Option A
result (returned a) = some a
result (raised _) = none

copy_all : (q : List ℕ) → take (length q) q ≡ q
copy_all [] = refl
copy_all (x ∷ q) = ap (◌∷◌ x) (copy_all q)

to_pico-lt : (t : ℕ) → is_zero_to_pico t ≡ true → t < 256
to_pico-lt t h = ground arith

same_checksum :
    (t : ℕ) (q : List ℕ)
    → is_zero_to_pico t ≡ true
    → All (λ b. b < 256) q
    → length q ≤ 64
    → crc16_ccitt_false (covered t q) ≡ crc16 (Codec.covered t q (length q))
unfolding Codec.covered
same_checksum t q h g fits =
    crc16_ccitt_false-eq (covered t q)
      (omega arith, (to_pico-lt t h, (omega arith, (omega (arith, fits), g))))

-- The Zero's encoder is the Pico's encoder with a buffer for the largest frame, on every message type that
-- the Zero sends and every payload of bytes: both give the same bytes, or both refuse.
pub encode_frame-eq :
    (t : ℕ) (q : List ℕ)
    → is_zero_to_pico t ≡ true
    → All (λ b. b < 256) q
    → result (Encode.encode_frame t q) ≡ Codec.encode_frame t (some q) (length q) parser_capacity
unfolding Encode.encode_frame Codec.encode_frame Codec.covered type_known
encode_frame-eq t q h g = elim (dec_lt 64 (length q)) [
  | yes p ↦ ground arith
  | no p ↦
      let crc = same_checksum t q h g (omega (arith, p)) in rw (copy_all q) (rw crc (ground arith))
]

-- What a returned frame looks like.
pub encode_frame-wire :
    (t : ℕ) (q : List ℕ) {bytes : List ℕ}
    → All (λ b. b < 256) q
    → Encode.encode_frame t q ≡ returned bytes
    → (bytes ≡ wire t (length q) q) × (length q ≤ 64)
unfolding Encode.encode_frame wire
encode_frame-wire t q g e = elim (Bool-cases (is_zero_to_pico t)) [
  | inl h ↦
      let fits : length q ≤ 64 = ground arith in
      let crc = same_checksum t q h g fits in (ground (arith, crc), fits)
  | inr h ↦ absurd (ground arith)
]
