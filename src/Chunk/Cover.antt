-- ===== src/Chunk/Cover.antt =====
-- lib/chunk.ts: the slices of `chunk` cover the text, and its loop ends.
use priority_kb.Base.{
  Text, ℕ, zero, suc, ◌+◌, ◌≤◌, ◌<◌, List, [], ◌∷◌, Option, none, some, subst, length, option_map,
  leb, ltb, ltb→lt, ltb-false, ◌==◌, ==_iff, ◌≡◌, refl, sym, ap, ◌∙◌, ◌⊎◌, leb→le, Bool-cases, inl,
  inr, arith,
}
use priority_kb.Chunk.Offsets.{Encoder, token_index}
use priority_kb.Chunk.Search.{OffsetMap}
use priority_kb.Chunk.Decoding.{Documented, Readable, readable-Decodes}
use priority_kb.Chunk.Lengths.{has_token, char_offsets-OffsetMap}
use priority_kb.Chunk.Rounds.{Sound, Good, pass-Good, index-lt, index-inside, index-end}
use priority_kb.Chunk.Slices.{
  Job, Piece, Pass, finished, continued, Opts, given, min_trailing_tokens, pass, pieces_from,
  merge_last, trailing_merge, sealed, whole, pieces, job, Chunked, sliced, encode_error, unfinished,
  slices_of_pieces, chunk_tokens, chunk,
}

-- The slices begin at `start`; each is sound; the next begins after this one's start and no later
-- than its end; and the last ends where the text ends.
abbrev pub Covers : ℕ → ℕ → List Piece → Type 0
Covers len start [] = start ≡ len
Covers len start (p ∷ ps) =
    (p.content_start ≡ start)
    × Sound len p
    × ((next : ℕ) × (start < next) × (next ≤ p.content_end) × Covers len next ps)

Pass-cases :
    (x : Pass)
    → ((p : Piece) × (x ≡ finished p)) ⊎ ((p : Piece) × (next : ℕ) × (x ≡ continued p next))
Pass-cases (finished p) = inl (p, refl)
Pass-cases (continued p next) = inr (p, next, refl)

module _ (j : Job) (m : OffsetMap j.offsets j.total (length j.body)) where
  abbrev Done : ℕ → Option (List Piece) → Type 0
  Done start o = (ps : List Piece) × (o ≡ some ps) × Covers (length j.body) start ps

  Done-finished :
      (start : ℕ) (p : Piece)
      → start < length j.body
      → Good j start (finished p)
      → Done start (some (p ∷ []))
  Done-finished start p h g =
      (p ∷ [], refl, (g.0, g.1, (length j.body, h, omega (arith, g.2), refl)))

  Done-continued :
      (start next : ℕ) (p : Piece) (o : Option (List Piece))
      → Good j start (continued p next)
      → Done next o
      → Done start (option_map (λ ps. p ∷ ps) o)
  Done-continued start next p o g (ps, e, c) =
      (p ∷ ps, ap (option_map (λ qs. p ∷ qs)) e, (g.0, g.1, (next, g.2, g.3, c)))

  next-bounds :
      (start next : ℕ) (p : Piece) → Good j start (continued p next) → next ≤ length j.body
  next-bounds start next p g = omega (arith, g.1, g.3)

  pieces_from-Done :
      (fuel start : ℕ)
      → start ≤ length j.body
      → j.total < fuel + token_index j.offsets start
      → Done start (pieces_from j fuel start)
  unfolding pieces_from
  pieces_from-Done zero start h k = absurd (omega (arith, index-inside j m start))
  pieces_from-Done (suc fuel) start h k = elim (Bool-cases (ltb start (length j.body))) [
    | inr e ↦
        let end : start ≡ length j.body = omega (arith, ltb-false _ _ e) in
        rw (e, pieces_from) ([], refl, end)
    | inl e ↦
        let less : start < length j.body = ltb→lt _ _ e in
        let good = pass-Good j m start less in
        elim (Pass-cases (pass j start)) [
          | inl (p, q) ↦
              let g : Good j start (finished p) = rw q at good in
              rw (e, q, pieces_from) (Done-finished start p less g)
          | inr (p, next, q) ↦
              let g : Good j start (continued p next) = rw q at good in
              rw (e, q, pieces_from)
                (Done-continued start next p (pieces_from j fuel next) g
                  (pieces_from-Done fuel next (next-bounds start next p g) (omega (arith, g.4))))
        ]
  ]

  merge_last-Covers :
      (n start : ℕ) (p q : Piece)
      → Covers (length j.body) start (p ∷ q ∷ [])
      → Covers (length j.body) start (merge_last j.offsets n p q)
  unfolding merge_last
  merge_last-Covers n start p q (a, s, (next, b, c, (d, t, (end, e, f, g)))) =
      let inside = index-lt j m p.content_start (omega (arith, s)) in
      let close : q.content_end ≡ length j.body = omega (arith, t) in
      let full : token_index j.offsets q.content_end ≡ j.total =
        ap (token_index j.offsets) close ∙ index-end j m in
      elim (Bool-cases (leb n q.token_count)) [
        | inl u ↦ rw (u, merge_last) (a, s, (next, b, c, (d, t, (end, e, f, g))))
        | inr u ↦ elim (Bool-cases (leb q.content_end p.content_end)) [
          | inl v ↦
              let past = leb→le _ _ v in
              rw (u, v, merge_last) (a, s, (length j.body, omega (arith, s), omega arith, refl))
          | inr v ↦
              rw (u, v, merge_last)
                (
                  a,
                  (omega (arith, s), omega arith, omega (arith, inside, full)),
                  (length j.body, omega (arith, s), omega arith, refl),
                )
        ]
      ]

  trailing_merge-Covers :
      (n start : ℕ) (ps : List Piece)
      → Covers (length j.body) start ps
      → Covers (length j.body) start (trailing_merge j.offsets n ps)
  unfolding trailing_merge
  trailing_merge-Covers n start [] c = c
  trailing_merge-Covers n start (p ∷ []) c = c
  trailing_merge-Covers n start (p ∷ q ∷ []) c = merge_last-Covers n start p q c
  trailing_merge-Covers n start (p ∷ q ∷ r ∷ ps) (a, s, (next, b, c, d)) =
      (a, s, (next, b, c, trailing_merge-Covers n next (q ∷ r ∷ ps) d))

  pieces-Done : (n : ℕ) → 0 < length j.body → 0 < j.total → Done 0 (pieces j n)
  unfolding pieces
  pieces-Done n h t = elim (Bool-cases (leb j.total j.size)) [
    | inl e ↦
        rw (e, pieces)
          (whole j ∷ [], refl, (refl, (h, omega arith, t), (length j.body, h, omega arith, refl)))
    | inr e ↦
        let loop = pieces_from-Done (suc j.total) 0 (omega arith) (omega arith) in
        rw (e, pieces)
          (
            trailing_merge j.offsets n loop.0,
            ap (option_map (trailing_merge j.offsets n)) loop.1,
            trailing_merge-Covers n 0 loop.0 loop.2,
          )
  ]

-- The slices tile the text; or the encoder threw on it. The loop ends in every case.
abbrev pub Tiles : {K : Type 0} → Encoder K → Text → Chunked → Type 0
Tiles enc text (sliced ss) = (ps : List Piece) × (ss ≡ sealed ps) × Covers (length text) 0 ps
Tiles enc text encode_error = enc.encode text ≡ none
Tiles enc text unfinished = ⊥

chunk_tokens-Tiles :
    {K : Type 0} (enc : Encoder K) (text : Text) (opts : Opts)
    → Documented enc
    → Readable text
    → 0 < length text
    → (o : Option (List K)) → enc.encode text ≡ o
    → Tiles enc text (chunk_tokens enc text opts o)
unfolding chunk_tokens slices_of_pieces job
chunk_tokens-Tiles enc text opts doc r some_text none e = e
chunk_tokens-Tiles enc text opts doc r some_text (some tokens) e =
    let map = char_offsets-OffsetMap enc tokens text doc e r some_text in
    let d = readable-Decodes enc doc tokens text e r in
    let n = given opts.min_trailing min_trailing_tokens in
    let done =
      pieces-Done (job enc tokens text opts) map n some_text
        (has_token enc tokens text d some_text) in
    subst (λ o. Tiles enc text (slices_of_pieces o)) (sym done.1) (done.0, refl, done.2)

-- For every text whose normal form has no byte order mark in front and is no longer than a string can
-- be, and for all options that are natural numbers, the chunker ends: with the encoder's error, or
-- with slices. These begin at the text's start; each is not empty, lies in the normalised text and
-- has a token; each next one begins after the start and no later than the end of the one before; and
-- the last one ends where the text ends. The encoder and the decoder behave as documented.
pub chunk-Covers :
    {K : Type 0} (enc : Encoder K) (nfc : Text → Text) (body : Text) (opts : Opts)
    → Documented enc
    → Readable (nfc body)
    → Tiles enc (nfc body) (chunk enc nfc body opts)
unfolding chunk
chunk-Covers enc nfc body opts doc r = elim (Bool-cases (length (nfc body) == 0)) [
  | inl e ↦ rw (e, chunk) ([], refl, sym ((==_iff _ _).0 e))
  | inr e ↦
      let some_text : 0 < length (nfc body) = ground arith in
      rw (e, chunk)
        (chunk_tokens-Tiles enc (nfc body) opts doc r some_text (enc.encode (nfc body)) refl)
]
