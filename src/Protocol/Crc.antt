-- ===== src/Protocol/Crc.antt =====
-- `pico_uart_crc16` of pico/src/uart_protocol.c: CRC-16/CCITT-FALSE, bit by bit.
use pico_keyboard_rt_recorde.Base.{
  ℕ, zero, suc, ◌*◌, ◌<◌, not, List, [], ◌∷◌, ◌==◌, if◌then◌else◌, bit_and, bit_xor, u16, arith,
}

-- One turn of the inner loop: the bit that leaves at the top decides whether the polynomial is added.
unfoldable pub crc_bit : ℕ → ℕ
crc_bit crc =
    if not (bit_and crc 0x8000 == 0) then u16 (bit_xor (crc * 2) 0x1021) else u16 (crc * 2)

unfoldable pub crc_bits : ℕ → ℕ → ℕ
unfolding crc_bit
crc_bits zero crc = crc
crc_bits (suc n) crc = crc_bits n (crc_bit crc)

-- One turn of the outer loop.
unfoldable pub crc_byte : ℕ → ℕ → ℕ
unfolding crc_bits
crc_byte crc b = crc_bits 8 (u16 (bit_xor crc (b * 256)))

unfoldable pub crc_from : ℕ → List ℕ → ℕ
unfolding crc_byte
crc_from crc [] = crc
crc_from crc (b ∷ bs) = crc_from (crc_byte crc b) bs

unfoldable pub crc16 : List ℕ → ℕ
unfolding crc_from
crc16 bytes = crc_from 0xffff bytes

crc_bit-lt : (c : ℕ) → crc_bit c < 65536
unfolding crc_bit
crc_bit-lt c = ground arith

crc_bits-lt : (n c : ℕ) → c < 65536 → crc_bits n c < 65536
unfolding crc_bits
crc_bits-lt zero c h = h
crc_bits-lt (suc n) c h = crc_bits-lt n (crc_bit c) (crc_bit-lt c)

pub crc_byte-lt : (c b : ℕ) → crc_byte c b < 65536
unfolding crc_byte
crc_byte-lt c b = crc_bits-lt 8 (u16 (bit_xor c (b * 256))) (omega arith)

pub crc_from-lt : (bytes : List ℕ) (c : ℕ) → c < 65536 → crc_from c bytes < 65536
unfolding crc_from
crc_from-lt [] c h = h
crc_from-lt (b ∷ bs) c h = crc_from-lt bs (crc_byte c b) (crc_byte-lt c b)

-- The checksum is a 16-bit value.
pub crc16-lt : (bytes : List ℕ) → crc16 bytes < 65536
unfolding crc16
crc16-lt bytes = crc_from-lt bytes 0xffff (omega arith)
