-- ===== src/Zero/Decoder/Slices.antt =====
-- Slices of a buffer that bytes are appended to (`IncrementalDecoder.feed` of zero/app/uart_protocol.py).
use pico_keyboard_rt_recorde.Base.{
  ℕ, zero, suc, ◌+◌, ◌≤◌, ◌<◌, ◌≡◌, refl, ap, ◌∙◌, List, [], ◌∷◌, ◌++◌, length, get_or, take, drop,
  arith,
}

pub get_or-append_of_lt :
    (xs ys : List ℕ) (i d : ℕ) → i < length xs → get_or (xs ++ ys) i d ≡ get_or xs i d
get_or-append_of_lt [] ys i d h = absurd (omega arith)
get_or-append_of_lt (x ∷ xs) ys zero d h = refl
get_or-append_of_lt (x ∷ xs) ys (suc i) d h = get_or-append_of_lt xs ys i d (omega arith)

pub drop-append_of_le :
    (n : ℕ) (xs ys : List ℕ) → n ≤ length xs → drop n (xs ++ ys) ≡ drop n xs ++ ys
drop-append_of_le zero xs ys h = refl
drop-append_of_le (suc n) [] ys h = absurd (omega arith)
drop-append_of_le (suc n) (x ∷ xs) ys h = drop-append_of_le n xs ys (omega arith)

take-append_of_le : (n : ℕ) (xs ys : List ℕ) → n ≤ length xs → take n (xs ++ ys) ≡ take n xs
take-append_of_le zero xs ys h = refl
take-append_of_le (suc n) [] ys h = absurd (omega arith)
take-append_of_le (suc n) (x ∷ xs) ys h = ap (◌∷◌ x) (take-append_of_le n xs ys (omega arith))

pub length-drop_add : (n : ℕ) (xs : List ℕ) → n ≤ length xs → length (drop n xs) + n ≡ length xs
length-drop_add zero xs h = omega arith
length-drop_add (suc n) [] h = absurd (omega arith)
length-drop_add (suc n) (x ∷ xs) h = omega (arith, length-drop_add n xs (omega arith))

pub slice-append :
    (k n : ℕ) (xs ys : List ℕ) → k + n ≤ length xs → take n (drop k (xs ++ ys)) ≡ take n (drop k xs)
slice-append k n xs ys h =
    ap (take n) (drop-append_of_le k xs ys (omega (arith, h)))
    ∙ take-append_of_le n (drop k xs) ys (omega (arith, h, length-drop_add k xs (omega (arith, h))))
