-- ===== src/Scheduler/Samples/Extremes.antt =====
-- Sums, extremes and beginnings of a list to which an item is added at the end, as the statistics of
-- pico/src/playback_scheduler.c keep them.
use pico_keyboard_rt_recorde.Base.{
  ℕ, zero, suc, ◌+◌, ◌≤◌, ◌<◌, ◌≡◌, refl, ap, ◌∙◌, ◌⊎◌, inl, inr, List, [], ◌∷◌, ◌++◌, length, take,
  if◌then◌else◌, ℤ, pos, pos_part, neg_part, ltb_ℤ, ◌+ℤ◌, ◌≤ℤ◌, +ℤ_parts, arith, All, Bool-cases,
}

abbrev pub sum : List ℤ → ℤ
sum [] = pos 0
sum (x ∷ xs) = x +ℤ sum xs

abbrev pub Among : ℤ → List ℤ → Type 0
Among x [] = ⊥
Among x (y ∷ ys) = (x ≡ y) ⊎ Among x ys

abbrev pub IsLeast : ℤ → List ℤ → Type 0
IsLeast m l = Among m l × All (λ x. m ≤ℤ x) l

abbrev pub IsGreatest : ℤ → List ℤ → Type 0
IsGreatest m l = Among m l × All (λ x. x ≤ℤ m) l

eq_of_parts : (a b : ℤ) → pos_part a + neg_part b ≡ pos_part b + neg_part a → a ≡ b
eq_of_parts a b h = ground arith

pub sum-snoc : (xs : List ℤ) (x : ℤ) → sum (xs ++ x ∷ []) ≡ sum xs +ℤ x
sum-snoc [] x = eq_of_parts _ _ (omega (arith, +ℤ_parts x (pos 0), +ℤ_parts (pos 0) x))
sum-snoc (y ∷ xs) x =
    let rest = sum-snoc xs x in
    ap (λ t. y +ℤ t) rest
    ∙ eq_of_parts _ _ (
        omega (
          arith,
          +ℤ_parts y (sum xs +ℤ x),
          +ℤ_parts (sum xs) x,
          +ℤ_parts (y +ℤ sum xs) x,
          +ℤ_parts y (sum xs),
        ))

Among-snoc : (m x : ℤ) (xs : List ℤ) → Among m xs → Among m (xs ++ x ∷ [])
Among-snoc m x [] h = elim h [ ]
Among-snoc m x (y ∷ xs) (inl e) = inl e
Among-snoc m x (y ∷ xs) (inr h) = inr (Among-snoc m x xs h)

Among-self : (x : ℤ) (xs : List ℤ) → Among x (xs ++ x ∷ [])
Among-self x [] = inl refl
Among-self x (y ∷ xs) = inr (Among-self x xs)

All-snoc : (P : ℤ → Type 0) (xs : List ℤ) (x : ℤ) → All P xs → P x → All P (xs ++ x ∷ [])
All-snoc P [] x g h = (h, tt)
All-snoc P (y ∷ xs) x (g, gs) h = (g, All-snoc P xs x gs h)

All-weaken : {P Q : ℤ → Type 0} (xs : List ℤ) → ((x : ℤ) → P x → Q x) → All P xs → All Q xs
All-weaken [] f g = tt
All-weaken (x ∷ xs) f (g, gs) = (f x g, All-weaken xs f gs)

pub IsLeast-snoc :
    (m x : ℤ) (xs : List ℤ) → IsLeast m xs → IsLeast (if ltb_ℤ x m then x else m) (xs ++ x ∷ [])
IsLeast-snoc m x xs (found, low) = elim (Bool-cases (ltb_ℤ x m)) [
  | inl t ↦
      rw t
        (Among-self x xs, All-snoc _ xs x (All-weaken xs (λ y h. ground arith) low) (omega arith))
  | inr f ↦ rw f (Among-snoc m x xs found, All-snoc _ xs x low (ground arith))
]

pub IsGreatest-snoc :
    (m x : ℤ) (xs : List ℤ)
    → IsGreatest m xs
    → IsGreatest (if ltb_ℤ m x then x else m) (xs ++ x ∷ [])
IsGreatest-snoc m x xs (found, high) = elim (Bool-cases (ltb_ℤ m x)) [
  | inl t ↦
      rw t
        (Among-self x xs, All-snoc _ xs x (All-weaken xs (λ y h. ground arith) high) (omega arith))
  | inr f ↦ rw f (Among-snoc m x xs found, All-snoc _ xs x high (ground arith))
]

pub take-snoc_of_lt :
    (n : ℕ) (xs : List ℤ) (x : ℤ) → length xs < n → take n (xs ++ x ∷ []) ≡ take n xs ++ x ∷ []
take-snoc_of_lt zero xs x h = absurd (omega arith)
take-snoc_of_lt (suc zero) [] x h = refl
take-snoc_of_lt (suc (suc n)) [] x h = refl
take-snoc_of_lt (suc n) (y ∷ xs) x h = ap (◌∷◌ y) (take-snoc_of_lt n xs x (omega arith))

pub take-snoc_of_le :
    (n : ℕ) (xs : List ℤ) (x : ℤ) → n ≤ length xs → take n (xs ++ x ∷ []) ≡ take n xs
take-snoc_of_le zero xs x h = refl
take-snoc_of_le (suc n) [] x h = absurd (omega arith)
take-snoc_of_le (suc n) (y ∷ xs) x h = ap (◌∷◌ y) (take-snoc_of_le n xs x (omega arith))
