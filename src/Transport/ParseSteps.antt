-- ===== src/Transport/ParseSteps.antt =====
-- Single steps of the parser of `pico_uart_transport_poll`, and the array that it fills.
use pico_keyboard_rt_recorde.Base.{
  ℕ, zero, suc, ◌+◌, ◌*◌, ◌≤◌, ◌<◌, ◌≡◌, ◌≢◌, refl, ap, ◌∙◌, ◌⊎◌, List, [], ◌∷◌, ◌++◌, length,
  get_or, drop, Array, update, update_self, update_ne, prefix, arith, ℕ_discrete,
}
use pico_keyboard_rt_recorde.Protocol.{magic, protocol_version, max_payload, header_len}
use pico_keyboard_rt_recorde.Protocol.Codec.{decode_frame}
use pico_keyboard_rt_recorde.Transport.{Transport, parser_capacity}
use pico_keyboard_rt_recorde.Transport.Receive.{
  accept_byte, after_store, store_byte, reset_full, handle_result,
}

-- The transport with a parser that holds `k` bytes of `p`.
abbrev pub partway : Transport → Array ℕ → ℕ → Transport
partway t p k = record t { parser = p; parser_len = k }

-- A byte that may start or go on a frame is stored.
pub accept_stores :
    (t : Transport) (p : Array ℕ) (k b : ℕ)
    → (k ≢ 0) ⊎ (b ≡ magic)
    → k < parser_capacity
    → accept_byte b (partway t p k) ≡ after_store (partway t (update p k b) (k + 1))
unfolding accept_byte reset_full store_byte
accept_stores t p k b h lt = ground arith

-- The header goes on: the second byte is the version.
pub after_header :
    (t : Transport) (p : Array ℕ) (k : ℕ)
    → k < header_len
    → (k ≢ 2) ⊎ (p 1 ≡ protocol_version)
    → after_store (partway t p k) ≡ partway t p k
unfolding after_store
after_header t p k lt h = ground arith

-- The payload and the checksum go on.
pub after_payload :
    (t : Transport) (p : Array ℕ) (k n : ℕ)
    → header_len ≤ k
    → p 3 + p 4 * 256 ≡ n
    → n ≤ max_payload
    → k < 7 + n
    → after_store (partway t p k) ≡ partway t p k
unfolding after_store
after_payload t p k n le e fits lt = ground arith

-- The frame is whole.
pub after_last :
    (t : Transport) (p : Array ℕ) (n : ℕ)
    → p 3 + p 4 * 256 ≡ n
    → n ≤ max_payload
    → after_store (partway t p (7 + n))
      ≡ handle_result (decode_frame (prefix p (7 + n))) (partway t p (7 + n))
unfolding after_store
after_last t p n e fits = ground arith

-- What is left behind `k` bytes begins with byte `k`.
pub drop_cons :
    (xs : List ℕ) (k b : ℕ) (rest : List ℕ)
    → drop k xs ≡ b ∷ rest
    → (b ≡ get_or xs k 0) × (drop (k + 1) xs ≡ rest) × (k + 1 + length rest ≡ length xs)
drop_cons [] zero b rest h = absurd (cc)
drop_cons [] (suc k) b rest h = absurd (cc)
drop_cons (x ∷ xs) zero b rest h = (ground arith, ground arith, ground arith)
drop_cons (x ∷ xs) (suc k) b rest h =
    let (same, left, size) = drop_cons xs k b rest h in
    let e : suc k + 1 ≡ suc (k + 1) = omega arith in (same, rw e left, omega (arith, size))

prefix-suc_first : (a : Array ℕ) (n : ℕ) → prefix a (suc n) ≡ a 0 ∷ prefix (λ i. a (suc i)) n
unfolding prefix
prefix-suc_first a zero = refl
prefix-suc_first a (suc n) = ap (λ l. l ++ a (suc n) ∷ []) (prefix-suc_first a n)

pub prefix-get_or : (xs : List ℕ) → prefix (λ i. get_or xs i 0) (length xs) ≡ xs
unfolding prefix
prefix-get_or [] = refl
prefix-get_or (x ∷ xs) =
    prefix-suc_first (λ i. get_or (x ∷ xs) i 0) (length xs) ∙ ap (◌∷◌ x) (prefix-get_or xs)

abbrev pub Agrees : List ℕ → Array ℕ → ℕ → Type 0
Agrees xs p k = (i : ℕ) → i < k → p i ≡ get_or xs i 0

pub update-Agrees :
    (xs : List ℕ) (p : Array ℕ) (k b : ℕ)
    → Agrees xs p k
    → b ≡ get_or xs k 0
    → Agrees xs (update p k b) (k + 1)
update-Agrees xs p k b h e i lt = elim (ℕ_discrete i k) [
  | yes same ↦ rw same (update_self p k b ∙ e)
  | no differ ↦ update_ne p k i b differ ∙ h i (omega arith)
]
