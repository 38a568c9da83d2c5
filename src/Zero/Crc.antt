-- ===== src/Zero/Crc.antt =====
-- `crc16_ccitt_false` of zero/app/uart_protocol.py, and its agreement with `pico_uart_crc16` of
-- pico/src/uart_protocol.c.
use Prim.Native.Nat.{digits, bit_xor-bitwise, differ}
use pico_keyboard_rt_recorde.Base.{
  ℕ, zero, suc, ◌*◌, ◌/◌, ◌%◌, ◌^◌, ◌<◌, ◌≡◌, refl, ap, ◌∙◌, not, List, [], ◌∷◌, ◌==◌,
  if◌then◌else◌, bit_and, bit_xor, u16, arith, All,
}
use pico_keyboard_rt_recorde.Protocol.Crc.{
  crc_bit, crc_bits, crc_byte, crc_from, crc16, crc_byte-lt,
}

-- The body of the inner loop.
shifted : ℕ → ℕ
shifted crc =
    if not (bit_and crc 0x8000 == 0) then bit_xor (crc * 2) 0x1021 % 65536 else crc * 2 % 65536

-- The inner loop, over the turns that are left.
eight_shifts : ℕ → ℕ → ℕ
unfolding shifted
eight_shifts zero crc = crc
eight_shifts (suc n) crc = eight_shifts n (shifted crc)

-- The outer loop.
over_bytes : ℕ → List ℕ → ℕ
unfolding eight_shifts
over_bytes crc [] = crc
over_bytes crc (byte ∷ bytes) = over_bytes (eight_shifts 8 (bit_xor crc (byte * 256))) bytes

unfoldable pub crc16_ccitt_false : List ℕ → ℕ
unfolding over_bytes
crc16_ccitt_false bytes = over_bytes 0xffff bytes

differ-lt : (a b : ℕ) → a < 2 → b < 2 → differ a b < 2
differ-lt zero b p q = q
differ-lt (suc zero) zero p q = omega arith
differ-lt (suc zero) (suc zero) p q = omega arith
differ-lt (suc zero) (suc (suc b)) p q = absurd (omega arith)
differ-lt (suc (suc a)) b p q = absurd (omega arith)

xor_digits-lt : (n k a b : ℕ) → a < 2 ^ k → b < 2 ^ k → digits (λ b. b) differ n a b < 2 ^ k
xor_digits-lt zero k a b p q = q
xor_digits-lt (suc n) k zero b p q = q
xor_digits-lt (suc n) zero (suc a) b p q = absurd (omega arith)
xor_digits-lt (suc n) (suc k) (suc a) b p q = omega (
  arith,
  xor_digits-lt n k (suc a / 2) (b / 2) (omega arith) (omega arith),
  differ-lt (suc a % 2) (b % 2) (omega arith) (omega arith),
)

-- An exclusive or has no more digits than its operands.
bit_xor-lt : (k a b : ℕ) → a < 2 ^ k → b < 2 ^ k → bit_xor a b < 2 ^ k
bit_xor-lt k a b p q = omega (arith, bit_xor-bitwise a b, xor_digits-lt a k a b p q)

eight_shifts-eq : (n c : ℕ) → eight_shifts n c ≡ crc_bits n c
unfolding eight_shifts shifted crc_bits crc_bit
eight_shifts-eq zero c = refl
eight_shifts-eq (suc n) c = eight_shifts-eq n (crc_bit c)

over_bytes-eq :
    (bytes : List ℕ) (c : ℕ)
    → All (λ b. b < 256) bytes
    → c < 2 ^ 16
    → over_bytes c bytes ≡ crc_from c bytes
unfolding over_bytes crc_from crc_byte
over_bytes-eq [] c g h = refl
over_bytes-eq (b ∷ bs) c (hb, g) h =
    let x = bit_xor c (b * 256) in
    let small : x < 2 ^ 16 = bit_xor-lt 16 c (b * 256) h (omega (arith, hb)) in
    let same : x ≡ u16 x = omega (arith, small) in
    ap (λ y. over_bytes y bs) (eight_shifts-eq 8 x ∙ ap (crc_bits 8) same)
    ∙ over_bytes-eq bs (crc_byte c b) g (crc_byte-lt c b)

-- Both ends of the link compute the same checksum, on every list of bytes.
pub crc16_ccitt_false-eq :
    (bytes : List ℕ) → All (λ b. b < 256) bytes → crc16_ccitt_false bytes ≡ crc16 bytes
unfolding crc16_ccitt_false crc16
crc16_ccitt_false-eq bytes g = over_bytes-eq bytes 0xffff g (omega arith)
