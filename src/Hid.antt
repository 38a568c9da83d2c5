-- ===== src/Hid.antt =====
-- pico/include/hid_boot_keyboard.h and pico/src/hid_boot_keyboard.c: the 8-byte Boot Keyboard report.
use pico_keyboard_rt_recorde.Base.{
  ℕ, ◌≡◌, refl, ap, not, Bool, true, false, List, [], ◌∷◌, ◌==◌, if◌then◌else◌, length, get_or,
  take, drop, arith,
}

abbrev pub report_size : ℕ
report_size = 8

abbrev pub usage_key_a : ℕ
usage_key_a = 0x04

-- `pico_hid_boot_keyboard_report_t`; `keycode` has six bytes.
pub record Report : Type 0 where
  pub modifier : ℕ
  pub reserved : ℕ
  pub keycode : List ℕ

-- The struct as the 8 bytes that it occupies, and back (`memcpy`).
unfoldable pub report_bytes : Report → List ℕ
report_bytes r = r.modifier ∷ r.reserved ∷ r.keycode

unfoldable pub report_of_bytes : List ℕ → Report
report_of_bytes bytes = record {
  modifier = get_or bytes 0 0;
  reserved = get_or bytes 1 0;
  keycode = take 6 (drop 2 bytes);
}

unfoldable pub release_all : Report
release_all = record { modifier = 0; reserved = 0; keycode = 0 ∷ 0 ∷ 0 ∷ 0 ∷ 0 ∷ 0 ∷ [] }

unfoldable pub make_key_press : ℕ → ℕ → Report
unfolding release_all
make_key_press modifier key_usage = record release_all {
  modifier = modifier;
  keycode = key_usage ∷ 0 ∷ 0 ∷ 0 ∷ 0 ∷ 0 ∷ [];
}

-- The loop of `is_release` over the bytes of the report.
unfoldable pub all_zero : List ℕ → Bool
all_zero [] = true
all_zero (b ∷ bs) = if not (b == 0) then false else all_zero bs

unfoldable pub is_release : Report → Bool
unfolding report_bytes all_zero
is_release r = all_zero (report_bytes r)

-- Six bytes are their first six.
take_six : (xs : List ℕ) → length xs ≡ 6 → take 6 xs ≡ xs
take_six (a ∷ b ∷ c ∷ d ∷ e ∷ f ∷ []) h = refl
take_six [] h = absurd (omega arith)
take_six (a ∷ []) h = absurd (omega arith)
take_six (a ∷ b ∷ []) h = absurd (omega arith)
take_six (a ∷ b ∷ c ∷ []) h = absurd (omega arith)
take_six (a ∷ b ∷ c ∷ d ∷ []) h = absurd (omega arith)
take_six (a ∷ b ∷ c ∷ d ∷ e ∷ []) h = absurd (omega arith)
take_six (a ∷ b ∷ c ∷ d ∷ e ∷ f ∷ g ∷ xs) h = absurd (omega arith)

-- A report with six key slots survives the copy to bytes and back.
pub report_of_bytes-report_bytes :
    (r : Report) → length r.keycode ≡ 6 → report_of_bytes (report_bytes r) ≡ r
unfolding report_of_bytes report_bytes
report_of_bytes-report_bytes r h =
    ap (λ (k : List ℕ). record { modifier = r.modifier; reserved = r.reserved; keycode = k })
      (take_six r.keycode h)
