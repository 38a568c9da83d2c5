-- ===== src/Zero/Decoder/Runs.antt =====
-- The loop of `IncrementalDecoder.feed` as a derivation, and what more bytes behind the buffer do to it
-- (zero/app/uart_protocol.py).
use pico_keyboard_rt_recorde.Base.{
  ℕ, zero, suc, ◌+◌, ◌*◌, ◌≤◌, ◌<◌, ◌≡◌, ◌≢◌, refl, sym, ap, ◌∙◌, inl, inr, true, false, List, [],
  ◌∷◌, ◌++◌, length, get_or, drop, ◌==◌, arith, length-append, Bool-cases, dec_lt,
}
use mathlib.Core.Path.{subst}
use pico_keyboard_rt_recorde.Zero.{magic, Message}
use pico_keyboard_rt_recorde.Zero.Decoder.Slices.{
  get_or-append_of_lt, drop-append_of_le, slice-append,
}
use pico_keyboard_rt_recorde.Zero.Decoder.{
  Detail, IncrementalDecoder, from_magic, sync, Look, waits, rejects, delivers, candidate, reject,
  consume, more,
}

-- `feed_loop` starts at `d`, returns `frames` and leaves `d'`.
pub data Runs : IncrementalDecoder → List Message → IncrementalDecoder → Type 0 where
  stops : {d d' : IncrementalDecoder} → candidate (sync d) ≡ waits → d' ≡ sync d → Runs d [] d'
  skips :
      {d d' : IncrementalDecoder} {frames : List Message} (detail : Detail)
      → candidate (sync d) ≡ rejects detail
      → Runs (reject detail (sync d)) frames d'
      → Runs d frames d'
  takes :
      {d d' : IncrementalDecoder} {frames : List Message} (frame : Message) (n : ℕ)
      → candidate (sync d) ≡ delivers frame n
      → Runs (consume n (sync d)) frames d'
      → Runs d (frame ∷ frames) d'

pub length-from_magic : (bs : List ℕ) → length (from_magic bs) ≤ length bs
unfolding from_magic
length-from_magic [] = omega arith
length-from_magic (b ∷ bs) = ground (arith, length-from_magic bs)

pub length-drop {ℓ} :
    {A : Type ℓ} (n : ℕ) (xs : List A) → 0 < n → 0 < length xs → length (drop n xs) < length xs
length-drop zero xs p q = absurd (omega arith)
length-drop (suc n) [] p q = absurd (omega arith)
length-drop (suc zero) (x ∷ xs) p q = omega arith
length-drop (suc (suc n)) (x ∷ []) p q = omega arith
length-drop (suc (suc n)) (x ∷ y ∷ xs) p q =
    omega (arith, length-drop (suc n) (y ∷ xs) (omega arith) (omega arith))

-- A candidate that is rejected or delivered has its header; a frame that is delivered is in the buffer.
abbrev pub Decided : IncrementalDecoder → Look → Type 0
Decided d waits = Unit {0}
Decided d (rejects _) = 5 ≤ length d.buffer
Decided d (delivers _ n) = (5 ≤ length d.buffer) × (0 < n) × (n ≤ length d.buffer)

pub candidate-Decided : (d : IncrementalDecoder) → Decided d (candidate d)
unfolding candidate
candidate-Decided d = ground arith

-- A candidate with its header is not judged otherwise for more bytes behind it, unless it waits for them.
candidate-more :
    (d : IncrementalDecoder) (ys : List ℕ)
    → candidate d ≢ waits
    → candidate (more ys d) ≡ candidate d
unfolding candidate
candidate-more d ys h =
    let b = d.buffer in
    let n = get_or b 3 0 + get_or b 4 0 * 256 in
    elim (dec_lt (length b) 5) [
      | yes p ↦ absurd (h (ground arith))
      | no p ↦
          let e1 = get_or-append_of_lt b ys 1 0 (omega (arith, p)) in
          let e2 = get_or-append_of_lt b ys 2 0 (omega (arith, p)) in
          let e3 = get_or-append_of_lt b ys 3 0 (omega (arith, p)) in
          let e4 = get_or-append_of_lt b ys 4 0 (omega (arith, p)) in
          elim (dec_lt (length b) (7 + n)) [
            | yes q ↦ rw (e1, e2, e3, e4) (ground (arith, length-append b ys, h))
            | no q ↦
                let e5 = get_or-append_of_lt b ys (5 + n) 0 (omega (arith, q)) in
                let e6 = get_or-append_of_lt b ys (6 + n) 0 (omega (arith, q)) in
                let crc = slice-append 1 (4 + n) b ys (omega (arith, q)) in
                let payload = slice-append 5 n b ys (omega (arith, q)) in
                rw (e1, e2, e3, e4)
                  (rw (e5, e6, crc, payload) (rw (length-append b ys) (ground arith)))
          ]
    ]

from_magic_at : (b : ℕ) (bs : List ℕ) → (b == magic) ≡ true → from_magic (b ∷ bs) ≡ b ∷ bs
unfolding from_magic
from_magic_at b bs e = rw e refl

from_magic_past : (b : ℕ) (bs : List ℕ) → (b == magic) ≡ false → from_magic (b ∷ bs) ≡ from_magic bs
unfolding from_magic
from_magic_past b bs e = rw e refl

from_magic-more : (xs ys : List ℕ) → from_magic (from_magic xs ++ ys) ≡ from_magic (xs ++ ys)
from_magic-more [] ys = unfold from_magic in refl
from_magic-more (b ∷ bs) ys = elim (Bool-cases (b == magic)) [
  | inl e ↦ ap (λ l. from_magic (l ++ ys)) (from_magic_at b bs e)
  | inr e ↦
      ap (λ l. from_magic (l ++ ys)) (from_magic_past b bs e)
      ∙ from_magic-more bs ys
      ∙ sym (from_magic_past b (bs ++ ys) e)
]

from_magic_found :
    (xs ys : List ℕ) → 0 < length (from_magic xs) → from_magic (xs ++ ys) ≡ from_magic xs ++ ys
from_magic_found [] ys h = absurd (unfold from_magic in omega arith)
from_magic_found (b ∷ bs) ys h = elim (Bool-cases (b == magic)) [
  | inl e ↦ from_magic_at b (bs ++ ys) e ∙ sym (ap (λ l. l ++ ys) (from_magic_at b bs e))
  | inr e ↦
      let past = from_magic_past b bs e in
      from_magic_past b (bs ++ ys) e
      ∙ from_magic_found bs ys (rw past at h)
      ∙ sym (ap (λ l. l ++ ys) past)
]

pub sync-more-sync :
    (d : IncrementalDecoder) (ys : List ℕ) → sync (more ys (sync d)) ≡ sync (more ys d)
unfolding sync
sync-more-sync d ys = ap (λ l. record d { buffer = l }) (from_magic-more d.buffer ys)

sync-more :
    (d : IncrementalDecoder) (ys : List ℕ)
    → 0 < length (sync d).buffer
    → sync (more ys d) ≡ more ys (sync d)
unfolding sync
sync-more d ys h = ap (λ l. record d { buffer = l }) (from_magic_found d.buffer ys h)

-- Only what stands behind the first MAGIC counts.
Runs-sync :
    {d e d' : IncrementalDecoder} {frames : List Message}
    → sync d ≡ sync e
    → Runs d frames d'
    → Runs e frames d'
Runs-sync s (Runs.stops c q) = stops (ap candidate (sym s) ∙ c) (q ∙ s)
Runs-sync {d} {e} {d'} s (Runs.skips {frames = frames} detail c r) =
    skips detail (ap candidate (sym s) ∙ c) (subst (λ x. Runs (reject detail x) frames d') s r)
Runs-sync {d} {e} {d'} s (Runs.takes {frames = frames} frame n c r) =
    takes frame n (ap candidate (sym s) ∙ c) (subst (λ x. Runs (consume n x) frames d') s r)

rejects-ne-waits : {l : Look} {detail : Detail} → l ≡ rejects detail → l ≢ waits
rejects-ne-waits e h = cc

delivers-ne-waits : {l : Look} {frame : Message} {n : ℕ} → l ≡ delivers frame n → l ≢ waits
delivers-ne-waits e h = cc

-- A run over a buffer, followed by one over what it left and more bytes, is one over both.
pub Runs-more :
    {d d' d'' : IncrementalDecoder} {frames others : List Message} (ys : List ℕ)
    → Runs d frames d'
    → Runs (more ys d') others d''
    → Runs (more ys d) (frames ++ others) d''
unfolding reject
Runs-more {d} {d'} {d''} {others = others} ys (Runs.stops c q) after =
    Runs-sync (sync-more-sync d ys) (subst (λ x. Runs (more ys x) others d'') q after)
Runs-more {d} {d'} {d''} {others = others} ys (Runs.skips {frames = frames} detail c r) after =
    let x = sync d in
    let all = Runs-more ys r after in
    let size : 5 ≤ length x.buffer = subst (Decided x) c (candidate-Decided x) in
    let e = sync-more d ys (omega (arith, size)) in
    let same = drop-append_of_le 1 x.buffer ys (omega (arith, size)) in
    let moved : reject detail (sync (more ys d)) ≡ more ys (reject detail x) =
      ap (reject detail) e
      ∙ ap (λ l. record x { errors = x.errors ++ detail ∷ []; buffer = l }) same in
    skips detail (ap candidate e ∙ candidate-more x ys (rejects-ne-waits c) ∙ c)
      (subst (λ z. Runs z (frames ++ others) d'') (sym moved) all)
Runs-more {d} {d'} {d''} {others = others} ys (Runs.takes {frames = frames} frame n c r) after =
    let x = sync d in
    let all = Runs-more ys r after in
    let (size, _, inside) = subst (Decided x) c (candidate-Decided x) in
    let e = sync-more d ys (omega (arith, size)) in
    let same = drop-append_of_le n x.buffer ys inside in
    let moved : consume n (sync (more ys d)) ≡ more ys (consume n x) =
      ap (consume n) e ∙ ap (λ l. record x { buffer = l }) same in
    takes frame n (ap candidate e ∙ candidate-more x ys (delivers-ne-waits c) ∙ c)
      (subst (λ z. Runs z (frames ++ others) d'') (sym moved) all)
