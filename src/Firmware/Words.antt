-- ===== src/Firmware/Words.antt =====
-- `write_u32_le`, `write_u64_le` and `read_u64_le` of pico/src/main.c: numbers as bytes, lowest first.
use pico_keyboard_rt_recorde.Base.{
  ℕ, zero, suc, ◌+◌, ◌*◌, ◌/◌, ◌%◌, ◌^◌, ◌<◌, ◌≡◌, List, [], ◌∷◌, arith, ◌++◌,
}

-- The loop of the writers: `n` bytes.
unfoldable pub le_bytes : ℕ → ℕ → List ℕ
le_bytes zero value = []
le_bytes (suc n) value = value % 256 ∷ le_bytes n (value / 256)

-- The loop of the reader; the bytes are disjoint parts of the word, so `|=` adds them.
unfoldable pub read_le : ℕ → List ℕ → ℕ
read_le zero bytes = 0
read_le (suc n) [] = 0
read_le (suc n) (b ∷ bs) = b + 256 * read_le n bs

unfoldable pub read_u64_le : List ℕ → ℕ
unfolding read_le
read_u64_le bytes = read_le 8 bytes

-- Reading the eight bytes of a 64-bit number gives the number, whatever bytes follow.
pub read_u64_le-le_bytes :
    (value : ℕ) (rest : List ℕ) → value < 2 ^ 64 → read_u64_le (le_bytes 8 value ++ rest) ≡ value
unfolding read_u64_le le_bytes
read_u64_le-le_bytes value rest h = omega arith
