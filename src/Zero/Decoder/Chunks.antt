-- ===== src/Zero/Decoder/Chunks.antt =====
-- `IncrementalDecoder` of zero/app/uart_protocol.py does not depend on how the stream is cut into chunks.
use mathlib.Core.Path.{subst}
use mathlib.Core.List.{append_assoc, append-nil}
use pico_keyboard_rt_recorde.Base.{
  ℕ, zero, suc, ◌≤◌, ◌<◌, ◌≡◌, refl, sym, ap, ◌∙◌, ◌⊎◌, inl, inr, List, [], ◌∷◌, ◌++◌, length,
  arith,
}
use pico_keyboard_rt_recorde.Transport.Resync.{joined}
use pico_keyboard_rt_recorde.Zero.{Message}
use pico_keyboard_rt_recorde.Zero.Decoder.{
  Detail, IncrementalDecoder, sync, Look, waits, rejects, delivers, candidate, reject, consume,
  feed_loop, more, feed,
}
use pico_keyboard_rt_recorde.Zero.Decoder.Runs.{
  Runs, stops, skips, takes, length-from_magic, length-drop, Decided, candidate-Decided, Runs-more,
  sync-more-sync,
}

length-sync : (d : IncrementalDecoder) → length (sync d).buffer ≤ length d.buffer
unfolding sync
length-sync d = length-from_magic d.buffer

-- A turn that goes on leaves a shorter buffer.
reject_shorter :
    (d : IncrementalDecoder) (detail : Detail)
    → candidate (sync d) ≡ rejects detail
    → length (reject detail (sync d)).buffer < length d.buffer
unfolding reject
reject_shorter d detail c =
    let size : 5 ≤ length (sync d).buffer =
      subst (Decided (sync d)) c (candidate-Decided (sync d)) in
    omega (arith, length-sync d, length-drop 1 (sync d).buffer (omega arith) (omega (arith, size)))

consume_shorter :
    (d : IncrementalDecoder) (frame : Message) (n : ℕ)
    → candidate (sync d) ≡ delivers frame n
    → length (consume n (sync d)).buffer < length d.buffer
consume_shorter d frame n c =
    let (size, some_bytes, _) = subst (Decided (sync d)) c (candidate-Decided (sync d)) in
    omega (arith, length-sync d, length-drop n (sync d).buffer some_bytes (omega (arith, size)))

-- What a run returns is what the loop returns, with any fuel beyond the number of bytes.
pub Runs-feed_loop :
    {d d' : IncrementalDecoder} {frames : List Message} (fuel : ℕ)
    → Runs d frames d'
    → length d.buffer < fuel
    → feed_loop fuel d ≡ (frames, d')
unfolding feed_loop
Runs-feed_loop zero r h = absurd (omega arith)
Runs-feed_loop (suc fuel) (Runs.stops c q) h = rw (c, feed_loop) (ap (λ x. ([], x)) (sym q))
Runs-feed_loop {d} (suc fuel) (Runs.skips detail c r) h =
    rw (c, feed_loop)
      (Runs-feed_loop {d = reject detail (sync d)} fuel r
        (omega (arith, h, reject_shorter d detail c)))
Runs-feed_loop {d} (suc fuel) (Runs.takes frame n c r) h =
    let rest =
      Runs-feed_loop {d = consume n (sync d)} fuel r
        (omega (arith, h, consume_shorter d frame n c)) in
    rw (c, feed_loop) (ap (λ (p : List Message × IncrementalDecoder). (frame ∷ p.0, p.1)) rest)

Look-cases :
    (l : Look)
    → (l ≡ waits)
      ⊎ ((detail : Detail) × (l ≡ rejects detail))
      ⊎ ((frame : Message) × (n : ℕ) × (l ≡ delivers frame n))
Look-cases waits = inl refl
Look-cases (rejects detail) = inr (inl (detail, refl))
Look-cases (delivers frame n) = inr (inr (frame, n, refl))

-- The loop ends, by a buffer in which no frame is complete.
ended :
    (fuel : ℕ) (d : IncrementalDecoder)
    → length d.buffer < fuel
    → (frames : List Message) × (d' : IncrementalDecoder) × Runs d frames d'
ended zero d h = absurd (omega arith)
ended (suc fuel) d h = elim (Look-cases (candidate (sync d))) [
  | inl c ↦ ([], sync d, stops c refl)
  | inr (inl (detail, c)) ↦
      let (frames, d', r) =
        ended fuel (reject detail (sync d)) (omega (arith, h, reject_shorter d detail c)) in
      (frames, d', skips detail c r)
  | inr (inr (frame, n, c)) ↦
      let (frames, d', r) =
        ended fuel (consume n (sync d)) (omega (arith, h, consume_shorter d frame n c)) in
      (frame ∷ frames, d', takes frame n c r)
]

-- `feed` is a run over the buffer and the new bytes.
pub feed-Runs :
    (bytes : List ℕ) (d : IncrementalDecoder)
    → Runs (more bytes d) (feed bytes d).0 (feed bytes d).1
unfolding feed
feed-Runs bytes d =
    let d0 = more bytes d in
    let (frames, d', r) = ended (suc (length d0.buffer)) d0 (omega arith) in
    let e = Runs-feed_loop (suc (length d0.buffer)) r (omega arith) in
    subst (λ (p : List Message × IncrementalDecoder). Runs d0 p.0 p.1) (sym e) r

pub Runs-feed :
    {d' : IncrementalDecoder} {frames : List Message} (bytes : List ℕ) (d : IncrementalDecoder)
    → Runs (more bytes d) frames d'
    → feed bytes d ≡ (frames, d')
unfolding feed
Runs-feed bytes d r = Runs-feed_loop (suc (length (more bytes d).buffer)) r (omega arith)

-- The decoder on one chunk after another.
abbrev pub feed_all : List (List ℕ) → IncrementalDecoder → List Message × IncrementalDecoder
feed_all [] d = ([], d)
feed_all (chunk ∷ chunks) d =
    let r = feed_all chunks (feed chunk d).1 in ((feed chunk d).0 ++ r.0, r.1)

-- A decoder that waits for bytes: between two calls it always does.
pub record AtRest (d : IncrementalDecoder) : Type 0 where
  pub synced : sync d ≡ d
  pub waiting : candidate d ≡ waits

more-nil : (d : IncrementalDecoder) → more [] d ≡ d
more-nil d = ap (λ l. record d { buffer = l }) (append-nil d.buffer)

sync-sync : (d : IncrementalDecoder) → sync (sync d) ≡ sync d
sync-sync d = ap sync (sym (more-nil (sync d))) ∙ sync-more-sync d [] ∙ ap sync (more-nil d)

Runs-AtRest : {d d' : IncrementalDecoder} {frames : List Message} → Runs d frames d' → AtRest d'
Runs-AtRest {d} (Runs.stops c q) =
    subst AtRest (sym q) (record { synced = sync-sync d; waiting = c })
Runs-AtRest (Runs.skips detail c r) = Runs-AtRest r
Runs-AtRest (Runs.takes frame n c r) = Runs-AtRest r

feed_all-Runs :
    (chunks : List (List ℕ)) (d : IncrementalDecoder)
    → AtRest d
    → Runs (more (joined chunks) d) (feed_all chunks d).0 (feed_all chunks d).1
feed_all-Runs [] d rest =
    let same : sync (more [] d) ≡ d = ap sync (more-nil d) ∙ rest.synced in
    stops (ap candidate same ∙ rest.waiting) (sym same)
feed_all-Runs (chunk ∷ chunks) d rest =
    let first = feed-Runs chunk d in
    let later = feed_all-Runs chunks (feed chunk d).1 (Runs-AtRest first) in
    let moved : more (joined chunks) (more chunk d) ≡ more (joined (chunk ∷ chunks)) d =
      ap (λ l. record d { buffer = l }) (append_assoc d.buffer chunk (joined chunks)) in
    let r = feed_all chunks (feed chunk d).1 in
    subst (λ x. Runs x ((feed chunk d).0 ++ r.0) r.1) moved (Runs-more (joined chunks) first later)

-- The decoder returns the same frames, notes the same errors and keeps the same bytes however the stream
-- is cut into chunks, down to single bytes; and behind each call it waits for bytes again. At the start
-- the decoder waits for bytes, as a new one does.
pub feed-chunks :
    (chunks : List (List ℕ)) (d : IncrementalDecoder)
    → AtRest d
    → (feed_all chunks d ≡ feed (joined chunks) d) × AtRest (feed_all chunks d).1
feed-chunks chunks d rest =
    let all = feed_all-Runs chunks d rest in
    (sym (Runs-feed (joined chunks) d all), Runs-AtRest all)
