-- ===== src/Scheduler/Samples/Sorted.antt =====
-- The insertion sort of the lateness samples orders them, and neither loses nor adds one.
use mathlib.Core.List.{Perm, append_assoc}
use mathlib.Core.List.Perm
use pico_keyboard_rt_recorde.Base.{
  ℕ, zero, suc, ◌≤◌, ◌<◌, ◌≡◌, refl, ap, ◌∙◌, inl, inr, true, false, Bool-cases, List, [], ◌∷◌,
  ◌++◌, Array, update, update_self, update_ne, prefix, prefix_cong, prefix-update, ℤ, ltb_ℤ, ◌≤ℤ◌,
  arith, dec_lt,
}
use pico_keyboard_rt_recorde.Scheduler.Samples.{sink}

-- The first `n` entries are in ascending order.
abbrev pub IsSortedTo : Array ℤ → ℕ → Type 0
IsSortedTo a n = (i j : ℕ) → i ≤ j → j < n → a i ≤ℤ a j

≤ℤ_refl : (a : ℤ) → a ≤ℤ a
≤ℤ_refl a = omega arith

-- What `sink` writes lies at or below `j`.
pub sink_above : (key : ℤ) (j : ℕ) (a : Array ℤ) (k : ℕ) → j < k → sink key j a k ≡ a k
unfolding sink
sink_above key zero a k h = update_ne a 0 k key (λ e. absurd (omega (arith, e)))
sink_above key (suc j) a k h = elim (Bool-cases (ltb_ℤ key (a j))) [
  | inl y ↦ rw y (
      sink_above key j (update a (suc j) (a j)) k (omega arith)
      ∙ update_ne a (suc j) k (a j) (λ e. absurd (omega (arith, e))))
  | inr n ↦ rw n (update_ne a (suc j) k key (λ e. absurd (omega (arith, e))))
]

-- A bound of the key and of the entries below `j` bounds what `sink` leaves up to `j`.
sink_bounded :
    (key x : ℤ) (j : ℕ) (a : Array ℤ)
    → key ≤ℤ x
    → ((k : ℕ) → k < j → a k ≤ℤ x)
    → (k : ℕ) → k ≤ j
    → sink key j a k ≤ℤ x
unfolding sink
sink_bounded key x zero a hk ha k h = ground arith
sink_bounded key x (suc j) a hk ha k h = elim (Bool-cases (ltb_ℤ key (a j))) [
  | inl y ↦ rw y (elim (dec_lt k (suc j)) [
    | yes lt ↦
        sink_bounded key x j (update a (suc j) (a j)) hk
          (λ i hi.
            rw (update_ne a (suc j) i (a j) (λ e. absurd (omega (arith, e)))) (ha i (omega arith)))
          k (omega arith)
    | no ge ↦
        let top : k ≡ suc j = omega arith in
        rw top (
          rw
            (
              sink_above key j (update a (suc j) (a j)) (suc j) (omega arith),
              update_self a (suc j) (a j),
            )
            (ha j (omega arith)))
  ])
  | inr n ↦ rw n (ground (arith, ha k))
]

-- Inserting the key into the sorted entries below `j` sorts those up to `j`.
pub sink_sorts :
    (key : ℤ) (j : ℕ) (a : Array ℤ) → IsSortedTo a j → IsSortedTo (sink key j a) (suc j)
unfolding sink
sink_sorts key zero a s i k p q =
    let e : i ≡ 0 = omega arith in let f : k ≡ 0 = omega arith in rw (e, f) (omega arith)
sink_sorts key (suc j) a s i k p q = elim (Bool-cases (ltb_ℤ key (a j))) [
  | inl y ↦
      let a' = update a (suc j) (a j) in
      let low : (m : ℕ) → m < suc j → a' m ≡ a m =
        λ m h. update_ne a (suc j) m (a j) (λ e. absurd (omega (arith, e))) in
      rw y (elim (dec_lt k (suc j)) [
        | yes lt ↦
            sink_sorts key j a'
              (λ m n u v. rw (low m (omega arith), low n (omega arith)) (s m n u (omega arith))) i k
              p lt
        | no ge ↦ elim (dec_lt i (suc j)) [
          | yes lt ↦
              let top : k ≡ suc j = omega arith in
              rw top (
                rw (sink_above key j a' (suc j) (omega arith), update_self a (suc j) (a j))
                  (sink_bounded key (a j) j a' (ground (arith, y))
                    (λ m h. rw (low m (omega arith)) (s m j (omega arith) (omega arith))) i
                    (omega arith)))
          | no ge' ↦ let e : i ≡ k = omega arith in rw e (≤ℤ_refl (sink key j a' k))
        ]
      ])
  | inr n ↦ rw n (ground (arith, s i k, s i j))
]

sink_zero : (key : ℤ) (a : Array ℤ) → sink key 0 a ≡ update a 0 key
unfolding sink
sink_zero key a = refl

sink_lt :
    (key : ℤ) (j : ℕ) (a : Array ℤ)
    → ltb_ℤ key (a j) ≡ true
    → sink key (suc j) a ≡ sink key j (update a (suc j) (a j))
unfolding sink
sink_lt key j a y = rw y refl

sink_ge :
    (key : ℤ) (j : ℕ) (a : Array ℤ)
    → ltb_ℤ key (a j) ≡ false
    → sink key (suc j) a ≡ update a (suc j) key
unfolding sink
sink_ge key j a n = rw n refl

-- The last entry that a prefix of an updated array shows.
prefix-update-suc :
    {A : Type 0} (a : Array A) (n : ℕ) (v : A)
    → prefix (update a n v) (suc n) ≡ prefix a n ++ v ∷ []
unfolding prefix
prefix-update-suc a n v = rw (update_self a n v) (ap (λ l. l ++ v ∷ []) (prefix-update a n v))

pub prefix-suc : {A : Type 0} (a : Array A) (n : ℕ) → prefix a (suc n) ≡ prefix a n ++ a n ∷ []
unfolding prefix
prefix-suc a n = refl

swap_last :
    {A : Type 0} (l : List A) (x y : A) → Perm ((l ++ x ∷ []) ++ y ∷ []) ((l ++ y ∷ []) ++ x ∷ [])
swap_last l x y =
    rw (append_assoc l (x ∷ []) (y ∷ []), append_assoc l (y ∷ []) (x ∷ []))
      (Perm.append_left l (Perm.swap y x []))

-- Up to order, `sink` adds the key to the entries below `j`.
pub sink-perm :
    (key : ℤ) (j : ℕ) (a : Array ℤ) → Perm (prefix (sink key j a) (suc j)) (prefix a j ++ key ∷ [])
sink-perm key zero a = rw (sink_zero key a, prefix-update-suc a 0 key) (Perm.refl _)
sink-perm key (suc j) a = elim (Bool-cases (ltb_ℤ key (a j))) [
  | inl y ↦
      let a' = update a (suc j) (a j) in
      let same : prefix a' j ≡ prefix a j =
        prefix_cong a' a j (λ k h. update_ne a (suc j) k (a j) (λ e. absurd (omega (arith, e)))) in
      let last : sink key j a' (suc j) ≡ a j =
        sink_above key j a' (suc j) (omega arith) ∙ update_self a (suc j) (a j) in
      rw (sink_lt key j a y, prefix-suc (sink key j a') (suc j), last, prefix-suc a j)
        (Perm.trans (Perm.append_right (a j ∷ []) (sink-perm key j a'))
          (rw same (swap_last (prefix a j) key (a j))))
  | inr n ↦ rw (sink_ge key j a n, prefix-update-suc a (suc j) key) (Perm.refl _)
]
