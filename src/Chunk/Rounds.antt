-- ===== src/Chunk/Rounds.antt =====
-- lib/chunk.ts: one pass of the loop of `chunk` over a map of offsets.
use priority_kb.Base.{
  ℕ, ◌+◌, ◌≤◌, ◌<◌, length, leb, ◌==◌, ==_iff, ◌≡◌, refl, sym, ap, ◌∙◌, Bool-cases, lt_or_le, inl,
  inr, arith,
}
use priority_kb.Chunk.Offsets.{offset_at, token_index}
use priority_kb.Chunk.Boundary.{find_boundary}
use priority_kb.Chunk.Search.{OffsetMap, Floor, token_index-Floor}
use priority_kb.Chunk.Slices.{
  Job, Piece, Pass, finished, continued, end_token, effective_boundary, next_token, pass_from, pass,
}

-- A slice of a text of `len` units: not empty, inside the text, of at least one token.
abbrev pub Sound : ℕ → Piece → Type 0
Sound len p = (p.content_start < p.content_end) × (p.content_end ≤ len) × (0 < p.token_count)

-- A slice from `start`, to the end of the text or with a next one that begins after this one's
-- start, no later than its end, and at a later token.
abbrev pub Good : Job → ℕ → Pass → Type 0
Good j start (finished p) =
    (p.content_start ≡ start) × Sound (length j.body) p × (p.content_end ≡ length j.body)
Good j start (continued p next) =
    (p.content_start ≡ start)
    × Sound (length j.body) p
    × (start < next)
    × (next ≤ p.content_end)
    × (token_index j.offsets start < token_index j.offsets next)

module _ (j : Job) (m : OffsetMap j.offsets j.total (length j.body)) where
  abbrev at : ℕ → ℕ
  at i = offset_at j.offsets i

  abbrev index : ℕ → ℕ
  index o = token_index j.offsets o

  floor : (o : ℕ) → Floor j.offsets o (index o)
  floor = token_index-Floor j.offsets j.total (length j.body) m

  pub index-lt : (o : ℕ) → o < length j.body → index o < j.total
  index-lt o h =
      let f = floor o in
      elim (lt_or_le (index o) j.total) [
        | inl k ↦ k
        | inr k ↦
            let same : j.total ≡ index o = omega (arith, f.inside, m.count) in
            let at_end = ap at same in absurd (omega (arith, f.below, at_end, m.last))
      ]

  pub index-inside : (o : ℕ) → index o ≤ j.total
  index-inside o = omega (arith, (floor o).inside, m.count)

  pub index-end : index (length j.body) ≡ j.total
  index-end =
      let f = floor (length j.body) in
      elim (lt_or_le (index (length j.body)) j.total) [
        | inl k ↦ absurd (omega (arith, f.above j.total k (omega (arith, m.count)), m.last))
        | inr k ↦ omega (arith, f.inside, m.count)
      ]

  -- The token of an offset of the map is no earlier one.
  index-at : (n : ℕ) → n ≤ j.total → n ≤ index (at n)
  index-at n h =
      let f = floor (at n) in
      elim (lt_or_le (index (at n)) n) [
        | inl k ↦ absurd (omega (arith, f.above n k (omega (arith, m.count))))
        | inr k ↦ k
      ]

  effective_boundary-at : (e : ℕ) → effective_boundary j e ≡ at e
  unfolding effective_boundary
  effective_boundary-at e = elim (Bool-cases (e == j.total)) [
    | inl p ↦
        let same : e ≡ j.total = (==_iff _ _).0 p in
        rw (p, effective_boundary) (sym m.last ∙ ap at (sym same))
    | inr p ↦ rw (p, effective_boundary) refl
  ]

  end_token-bounds :
      (start i : ℕ) → i < j.total → (i < end_token j start i) × (end_token j start i ≤ j.total)
  unfolding end_token
  end_token-bounds start i h =
      let target = at (i + j.size) in
      let cut = find_boundary j.body start target j.forbidden in
      let f = floor cut in
      elim (Bool-cases (leb (index cut) i)) [
        | inl p ↦ rw (p, end_token) (omega arith, omega arith)
        | inr p ↦
            let more : i < index cut = ground arith in
            rw (p, end_token) (more, omega (arith, f.inside, m.count))
      ]

  next_token-bounds : (i e : ℕ) → i < e → (i < next_token j i e) × (next_token j i e ≤ e)
  unfolding next_token
  next_token-bounds i e h = ground arith

  pass_from-Good :
      (start e : ℕ)
      → start < length j.body
      → index start < e
      → e ≤ j.total
      → Good j start (pass_from j start (index start) e)
  unfolding pass_from
  pass_from-Good start e h k l =
      let i = index start in
      let n = next_token j i e in
      let nb = next_token-bounds i e k in
      let f = floor start in
      let end : effective_boundary j e ≡ at e = effective_boundary-at e in
      let after : start < at e = f.above e k (omega (arith, m.count)) in
      let inside : at e ≤ length j.body = omega (arith, m.mono e j.total, m.last) in
      elim (Bool-cases (leb j.total n)) [
        | inl p ↦
            let full : e ≡ j.total = ground (arith, nb) in
            rw (p, pass_from)
              (
                refl,
                (omega (arith, end), omega (arith, end), omega arith),
                end ∙ ap at full ∙ m.last,
              )
        | inr p ↦
            let early : n < j.total = ground arith in
            rw (p, pass_from)
              (
                refl,
                (omega (arith, end), omega (arith, end), omega arith),
                f.above n nb.0 (omega (arith, m.count)),
                omega (arith, end, m.mono n e nb.1 l),
                omega (arith, nb, index-at n (omega arith)),
              )
      ]

  pub pass-Good : (start : ℕ) → start < length j.body → Good j start (pass j start)
  unfolding pass
  pass-Good start h =
      let i = index start in
      elim (Bool-cases (leb j.total (i + j.size))) [
        | inl p ↦ rw (p, pass) (refl, (h, omega arith, omega (arith, index-lt start h)), refl)
        | inr p ↦
            let b = end_token-bounds start i (index-lt start h) in
            rw (p, pass) (pass_from-Good start (end_token j start i) h b.0 b.1)
      ]
