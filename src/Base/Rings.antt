-- ===== src/Base/Rings.antt =====
-- A C array as a function from indices; the ring-buffer views that the components share.
use Prim.Native.Nat.{ℕ, zero, suc, ◌+◌, ◌-◌, ◌%◌, ◌<◌}
use mathlib.Core.Path.{◌≡◌, refl, sym, ap, ap₂, ◌∙◌}
use mathlib.Core.Logic.{◌≢◌}
use mathlib.Core.List.{List, [], ◌∷◌, ◌++◌}
use native.Mathlib.Nat.{add-zero, mod-add-mod, mod-eq_of_lt, mod-eq-sub-mod, mod-lt}
use native.Mathlib.Decide.{dec_lt}
use native.Mathlib.Omega.{arith}
use pico_keyboard_rt_recorde.Base.Tests.{◌==◌, if◌then◌else◌}
use pico_keyboard_rt_recorde.Base.Lists.{length}

abbrev pub Array {ℓ} : Type ℓ → Type ℓ
Array A = ℕ → A

module _ {ℓ} {A : Type ℓ} where
  abbrev pub update : Array A → ℕ → A → Array A
  update a i v j = if j == i then v else a j

  pub update_self : (a : Array A) (i : ℕ) (v : A) → update a i v i ≡ v
  update_self a i v = ground arith

  pub update_ne : (a : Array A) (i j : ℕ) (v : A) → j ≢ i → update a i v j ≡ a j
  update_ne a i j v h = ground arith

  -- The `n` entries from index `i` on, going round at `size`.
  pub window : Array A → ℕ → ℕ → ℕ → List A
  window a size i zero = []
  window a size i (suc n) = a (i % size) ∷ window a size (i + 1) n

  pub length-window : (a : Array A) (size i n : ℕ) → length (window a size i n) ≡ n
  unfolding window
  length-window a size i zero = refl
  length-window a size i (suc n) = ap suc (length-window a size (i + 1) n)

-- Fewer than `size` steps round the ring do not come back to the start.
add-mod-ne : (size x d : ℕ) → x < size → 0 < d → d < size → (x + d) % size ≢ x
add-mod-ne size x d hx pos hd = elim (dec_lt (x + d) size) [
  | yes p ↦ omega (arith, mod-eq_of_lt p)
  | no p ↦ omega (
    arith,
    mod-eq-sub-mod {n = x + d} {m = size} (omega arith),
    mod-eq_of_lt {n = x + d - size} {m = size} (omega arith),
  )
]

-- Two positions less than `size` apart have different slots.
pub slot-ne : (size i d : ℕ) → 0 < d → d < size → i % size ≢ (i + d) % size
slot-ne size i d pos hd e =
    add-mod-ne size (i % size) d (mod-lt i (omega arith)) pos hd (mod-add-mod i size d ∙ sym e)

module _ {ℓ} {A : Type ℓ} where
  -- A window depends on its start only through the slot.
  pub window_cong :
      (a : Array A) (size i j n : ℕ) → i % size ≡ j % size → window a size i n ≡ window a size j n
  unfolding window
  window_cong a size i j zero e = refl
  window_cong a size i j (suc n) e = ap₂ ◌∷◌ (ap a e) (window_cong a size (i + 1) (j + 1) n next)
    where
      next : (i + 1) % size ≡ (j + 1) % size
      next = sym (mod-add-mod i size 1) ∙ ap (λ k. (k + 1) % size) e ∙ mod-add-mod j size 1

  -- A write at the slot just past a window of fewer than `size` entries extends it by that entry.
  pub window-update :
      (a : Array A) (size : ℕ) (v : A) (n i w : ℕ)
      → n < size
      → w ≡ (i + n) % size
      → window (update a w v) size i (suc n) ≡ window a size i n ++ v ∷ []
  unfolding window
  window-update a size v zero i w h e =
      ap (λ x. x ∷ []) (rw e (rw (add-zero i) (update_self a (i % size) v)))
  window-update a size v (suc n) i w h e =
      ap₂ ◌∷◌
        (rw e
          (update_ne a ((i + suc n) % size) (i % size) v (slot-ne size i (suc n) (omega arith) h)))
        (window-update a size v n (i + 1) w (omega arith) (e ∙ ap (λ k. k % size) (omega arith)))

  -- The same for a count that is written as a sum.
  pub window-push :
      (a : Array A) (size : ℕ) (v : A) (n i w : ℕ)
      → n < size
      → w ≡ (i + n) % size
      → window (update a w v) size i (n + 1) ≡ window a size i n ++ v ∷ []
  window-push a size v n i w h e =
      let one : n + 1 ≡ suc n = omega arith in rw one (window-update a size v n i w h e)

  -- A window that is not empty begins with the entry at its slot; the rest starts at the next slot.
  pub window-pop :
      (a : Array A) (size i next n : ℕ)
      → 0 < n
      → next % size ≡ (i + 1) % size
      → window a size i n ≡ a (i % size) ∷ window a size next (n - 1)
  unfolding window
  window-pop a size i next zero h e = absurd (omega arith)
  window-pop a size i next (suc n) h e =
      let pred : suc n - 1 ≡ n = omega arith in
      rw pred (ap (◌∷◌ (a (i % size))) (sym (window_cong a size next (i + 1) n e)))

  pub window-nil : (a : Array A) (size i n : ℕ) → n ≡ 0 → window a size i n ≡ []
  unfolding window
  window-nil a size i n e = rw e

  -- The first `n` entries.
  unfoldable pub prefix : Array A → ℕ → List A
  prefix a zero = []
  prefix a (suc n) = prefix a n ++ a n ∷ []

  -- Arrays that agree below `n` have the same first `n` entries.
  pub prefix_cong :
      (a b : Array A) (n : ℕ) → ((k : ℕ) → k < n → a k ≡ b k) → prefix a n ≡ prefix b n
  unfolding prefix
  prefix_cong a b zero h = refl
  prefix_cong a b (suc n) h =
      ap₂ (λ p x. p ++ x ∷ []) (prefix_cong a b n (λ k lt. h k (omega arith))) (h n (omega arith))

  pub prefix-update : (a : Array A) (n : ℕ) (v : A) → prefix (update a n v) n ≡ prefix a n
  prefix-update a n v =
      prefix_cong (update a n v) a n (λ k lt. update_ne a n k v (λ e. absurd (omega (arith, e))))
