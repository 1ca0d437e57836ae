-- ===== src/Chunk/Search.antt =====
-- lib/chunk.ts: what `tokenIndexAtCharOffset` finds in a map of offsets.
use priority_kb.Base.{
  ℕ, zero, suc, ◌+◌, ◌-◌, ◌≤◌, ◌<◌, List, length, leb, leb→le, ◌≡◌, Bool-cases, inl, inr, arith,
}
use priority_kb.Chunk.Offsets.{offset_at, mid, search, token_index}

-- The starts of `total` tokens and the end of a text of `size` units, in order. The search adds two
-- indices as 32-bit words.
pub record OffsetMap (offsets : List ℕ) (total size : ℕ) : Type 0 where
  pub count : length offsets ≡ suc total
  pub first : offset_at offsets 0 ≡ 0
  pub last : offset_at offsets total ≡ size
  pub mono : (i j : ℕ) → i ≤ j → j ≤ total → offset_at offsets i ≤ offset_at offsets j
  pub small : total < 2147483648

-- `i` is the last index whose offset is at most `o`.
pub record Floor (offsets : List ℕ) (o i : ℕ) : Type 0 where
  pub inside : i < length offsets
  pub below : offset_at offsets i ≤ o
  pub above : (j : ℕ) → i < j → j < length offsets → o < offset_at offsets j

mid-bounds : (lo hi : ℕ) → lo < hi → hi < 2147483648 → (lo < mid lo hi) × (mid lo hi ≤ hi)
unfolding mid
mid-bounds lo hi h k = (omega arith, omega arith)

module _ (offsets : List ℕ) (total size : ℕ) (m : OffsetMap offsets total size) (o : ℕ) where
  search-Floor :
      (fuel lo hi : ℕ)
      → lo ≤ hi
      → hi ≤ total
      → hi ≤ lo + fuel
      → offset_at offsets lo ≤ o
      → ((j : ℕ) → hi < j → j < length offsets → o < offset_at offsets j)
      → Floor offsets o (search offsets o fuel lo hi)
  unfolding search
  search-Floor zero lo hi a b c d e =
      let same : lo ≡ hi = omega arith in
      let n = m.count in
      record { inside = omega arith; below = d; above = λ j p q. e j (omega arith) q }
  search-Floor (suc fuel) lo hi a b c d e = elim (Bool-cases (leb hi lo)) [
    | inl p ↦
        let at : hi ≤ lo = leb→le hi lo p in
        let n = m.count in
        rw (p, search)
          (record { inside = omega arith; below = d; above = λ j q r. e j (omega arith) r })
    | inr p ↦
        let less : lo < hi = ground arith in
        let n = m.small in
        let n0 = m.count in
        let bounds = mid-bounds lo hi less (omega arith) in
        elim (Bool-cases (leb (offset_at offsets (mid lo hi)) o)) [
          | inl q ↦
              rw (p, q, search)
                (search-Floor fuel (mid lo hi) hi bounds.1 b (omega (arith, bounds)) (leb→le _ _ q)
                  e)
          | inr q ↦
              let top : o < offset_at offsets (mid lo hi) = ground arith in
              rw (p, q, search)
                (search-Floor fuel lo (mid lo hi - 1) (omega (arith, bounds))
                  (omega (arith, bounds)) (omega (arith, bounds)) d
                  (λ j u v. omega (
                    arith,
                    top,
                    bounds,
                    m.mono (mid lo hi) j (omega (arith, bounds)) (omega (arith, n0)),
                  )))
        ]
  ]

-- With the offsets of a text, the search finds the last token that starts at or before an offset,
-- in a table as long as 32-bit arithmetic allows.
pub token_index-Floor :
    (offsets : List ℕ) (total size : ℕ)
    → OffsetMap offsets total size
    → (o : ℕ) → Floor offsets o (token_index offsets o)
unfolding token_index
token_index-Floor offsets total size m o =
    let n = m.count in
    search-Floor offsets total size m o (length offsets) 0 (length offsets - 1) (omega arith)
      (omega arith) (omega arith) (omega (arith, m.first)) (λ j p q. absurd (omega arith))
