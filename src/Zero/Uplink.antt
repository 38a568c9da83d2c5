-- ===== src/Zero/Uplink.antt =====
-- From the Pico to the Zero: what pico/src/uart_protocol.c encodes, `IncrementalDecoder` of
-- zero/app/uart_protocol.py decodes.
use mathlib.Core.Path.{subst}
use mathlib.Core.List.{append_assoc}
use pico_keyboard_rt_recorde.Base.{
  ℕ, suc, ◌+◌, ◌*◌, ◌/◌, ◌%◌, ◌≤◌, ◌<◌, ◌≡◌, ◌≢◌, ◌==◌, refl, sym, ap, ◌∙◌, true, false, some, List,
  [], ◌∷◌, ◌++◌, length, get_or, take, drop, arith, All, length-append, take-append, drop-append,
}
use pico_keyboard_rt_recorde.Protocol.{type_known, frame_payload_valid}
use pico_keyboard_rt_recorde.Protocol.Crc.{crc16}
use pico_keyboard_rt_recorde.Protocol.Codec.{covered, encode_frame}
use pico_keyboard_rt_recorde.Protocol.RoundTrip.{wire, frame_of, encode-eq-wire}
use pico_keyboard_rt_recorde.Transport.{parser_capacity}
use pico_keyboard_rt_recorde.Transport.Parse.{length-wire}
use pico_keyboard_rt_recorde.Transport.Resync.{joined}
use pico_keyboard_rt_recorde.Zero.{magic, is_pico_to_zero, Message}
use pico_keyboard_rt_recorde.Zero.Crc.{crc16_ccitt_false, crc16_ccitt_false-eq}
use pico_keyboard_rt_recorde.Zero.Validate.{pico_payload_is_valid}
use pico_keyboard_rt_recorde.Zero.Decoder.{
  Detail, IncrementalDecoder, decoder, from_magic, sync, delivers, candidate, consume,
}
use pico_keyboard_rt_recorde.Zero.Decoder.Runs.{Runs, stops, takes}
use pico_keyboard_rt_recorde.Zero.Decoder.Chunks.{AtRest, feed_all, feed-chunks, Runs-feed}

-- The Pico accepts a payload for sending exactly if the Zero accepts it, for every message type that the
-- Pico sends.
pub pico_payload_is_valid-eq :
    (t : ℕ) (payload : List ℕ)
    → is_pico_to_zero t ≡ true
    → pico_payload_is_valid t payload ≡ frame_payload_valid (frame_of t (length payload) payload)
unfolding pico_payload_is_valid frame_payload_valid type_known
pico_payload_is_valid-eq t payload h = ground arith

-- A decoder with the settings of a new one.
abbrev pub standard : List Detail → List ℕ → IncrementalDecoder
standard errors buffer = record decoder { buffer = buffer; errors = errors }

get_or-past :
    (xs rest : List ℕ) (y z d : ℕ)
    → (get_or (xs ++ y ∷ z ∷ rest) (length xs) d ≡ y)
      × (get_or (xs ++ y ∷ z ∷ rest) (suc (length xs)) d ≡ z)
get_or-past [] rest y z d = (refl, refl)
get_or-past (x ∷ xs) rest y z d = get_or-past xs rest y z d

four : (n : ℕ) → 4 + n ≡ suc (suc (suc (suc n)))
four n = omega arith

five : (n : ℕ) → 5 + n ≡ suc (suc (suc (suc (suc n))))
five n = omega arith

six : (n : ℕ) → 6 + n ≡ suc (suc (suc (suc (suc (suc n)))))
six n = omega arith

candidate-fields :
    (errors : List Detail) (t lo hi c d : ℕ) (q rest : List ℕ)
    → length q ≡ lo + hi * 256
    → length q ≤ 64
    → is_pico_to_zero t ≡ true
    → pico_payload_is_valid t q ≡ true
    → crc16_ccitt_false (2 ∷ t ∷ lo ∷ hi ∷ q) ≡ c + d * 256
    → candidate (standard errors (165 ∷ 2 ∷ t ∷ lo ∷ hi ∷ (q ++ c ∷ d ∷ rest)))
      ≡ delivers (record { message_type = t; payload = q }) (7 + length q)
unfolding candidate
candidate-fields errors t lo hi c d q rest e h known shaped crc =
    rw (← e, four (length q), five (length q), six (length q), take-append q (c ∷ d ∷ rest))
      (rw ((get_or-past q rest c d 0).0, (get_or-past q rest c d 0).1, crc, shaped)
        (ground (arith, length-append q (c ∷ d ∷ rest))))

-- One frame on the line, with the bytes that no sender meant in front of it.
pub record Sending : Type 0 where
  pub noise : List ℕ
  pub message : Message
  pub encoded : List ℕ

-- The Pico's encoder gave the bytes, for a message type and a payload that the Pico sends; the noise holds
-- no MAGIC.
pub record IsSending (s : Sending) : Type 0 where
  pub quiet : All (λ b. b ≢ magic) s.noise
  pub kind : is_pico_to_zero s.message.message_type ≡ true
  pub shaped :
      frame_payload_valid
        (frame_of s.message.message_type (length s.message.payload) s.message.payload)
      ≡ true
  pub byte_sized : All (λ b. b < 256) s.message.payload
  pub by_pico :
      encode_frame s.message.message_type
        (some s.message.payload)
        (length s.message.payload)
        parser_capacity
      ≡ some s.encoded

abbrev pub stream : List Sending → List ℕ
stream [] = []
stream (s ∷ ss) = s.noise ++ (s.encoded ++ stream ss)

abbrev pub messages : List Sending → List Message
messages [] = []
messages (s ∷ ss) = s.message ∷ messages ss

copy_all : (q : List ℕ) → take (length q) q ≡ q
copy_all [] = refl
copy_all (x ∷ q) = ap (◌∷◌ x) (copy_all q)

kind-lt : (t : ℕ) → is_pico_to_zero t ≡ true → t < 256
kind-lt t h = ground arith

candidate-wire :
    (errors : List Detail) (t : ℕ) (q rest : List ℕ)
    → length q ≤ 64
    → is_pico_to_zero t ≡ true
    → pico_payload_is_valid t q ≡ true
    → All (λ b. b < 256) q
    → candidate (sync (standard errors (wire t (length q) q ++ rest)))
      ≡ delivers (record { message_type = t; payload = q }) (7 + length q)
unfolding sync wire covered
candidate-wire errors t q rest h known shaped small =
    let n = length q in
    let crc = crc16 (2 ∷ t ∷ n % 256 ∷ n / 256 ∷ q) in
    let agreed =
      crc16_ccitt_false-eq (2 ∷ t ∷ n % 256 ∷ n / 256 ∷ q)
        (omega arith, (kind-lt t known, (omega arith, (omega (arith, h), small)))) in
    rw (append_assoc q (crc % 256 ∷ crc / 256 ∷ []) rest) (
      candidate-fields errors t (n % 256) (n / 256) (crc % 256) (crc / 256) q rest (omega arith) h
        known shaped (agreed ∙ omega arith))

from_magic-noise :
    (noise bytes : List ℕ)
    → All (λ b. b ≢ magic) noise
    → from_magic (noise ++ bytes) ≡ from_magic bytes
unfolding from_magic
from_magic-noise [] bytes g = refl
from_magic-noise (b ∷ noise) bytes (h, g) =
    let e : (b == magic) ≡ false = ground arith in rw e (from_magic-noise noise bytes g)

-- The decoder takes one frame from the front of its buffer.
sending-Runs :
    (s : Sending) (rest : List ℕ) (errors : List Detail) {frames : List Message}
    {d' : IncrementalDecoder}
    → IsSending s
    → Runs (standard errors rest) frames d'
    → Runs (standard errors (s.noise ++ (s.encoded ++ rest))) (s.message ∷ frames) d'
unfolding sync
sending-Runs s rest errors {frames} {d'} g r =
    let t = s.message.message_type in
    let q = s.message.payload in
    let (w, fits, _) = encode-eq-wire t (length q) parser_capacity (some q) g.by_pico in
    let these : s.encoded ≡ wire t (length q) q = w ∙ ap (wire t (length q)) (copy_all q) in
    let shaped = pico_payload_is_valid-eq t q g.kind ∙ g.shaped in
    let skipped : sync (standard errors (s.noise ++ (s.encoded ++ rest)))
        ≡ sync (standard errors (s.encoded ++ rest)) =
      ap (standard errors) (from_magic-noise s.noise (s.encoded ++ rest) g.quiet) in
    let found = candidate-wire errors t q rest fits g.kind shaped g.byte_sized in
    let size = length-wire t (length q) q refl in
    let left : consume (7 + length q) (sync (standard errors (wire t (length q) q ++ rest)))
        ≡ standard errors rest =
      ap (standard errors) (
        unfold wire in
        ap (λ k. drop k (wire t (length q) q ++ rest)) (sym size)
        ∙ drop-append (wire t (length q) q) rest) in
    let same = skipped ∙ ap (λ l. sync (standard errors (l ++ rest))) these in
    takes s.message (7 + length q) (ap candidate same ∙ found)
      (subst (λ x. Runs x frames d') (sym (ap (consume (7 + length q)) same ∙ left)) r)

stream-Runs :
    (ss : List Sending) (errors : List Detail)
    → All IsSending ss
    → Runs (standard errors (stream ss)) (messages ss) (standard errors [])
unfolding sync candidate
stream-Runs [] errors g = stops refl refl
stream-Runs (s ∷ ss) errors (g, gs) = sending-Runs s (stream ss) errors g (stream-Runs ss errors gs)

-- Frames that the Pico encodes arrive at the Zero: of a stream of such frames, with noise that holds no
-- MAGIC in front of each, the decoder returns exactly their messages, in order, however the stream is cut
-- into chunks; it notes no error and holds no byte afterwards. The payloads have the shapes that the Pico
-- sends. The decoder has the settings of a new one, and may hold the start of the stream already, from
-- which no frame can be taken yet.
pub stream_delivered :
    (chunks : List (List ℕ)) (ss : List Sending) (errors : List Detail) (held : List ℕ)
    → All IsSending ss
    → AtRest (standard errors held)
    → held ++ joined chunks ≡ stream ss
    → feed_all chunks (standard errors held) ≡ (messages ss, standard errors [])
stream_delivered chunks ss errors held g rest e =
    let r = stream-Runs ss errors g in
    (feed-chunks chunks (standard errors held) rest).0
    ∙ Runs-feed (joined chunks) (standard errors held)
        (subst (λ l. Runs (standard errors l) (messages ss) (standard errors [])) (sym e) r)
