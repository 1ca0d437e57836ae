-- ===== src/Chunk/Lengths.antt =====
-- lib/chunk.ts: the map that `encodeWithCharOffsets` makes.
use priority_kb.Base.{
  Text, ℕ, zero, suc, ◌+◌, ◌≤◌, ◌<◌, List, [], ◌∷◌, some, length, get_or, take, take_all, ◌==◌,
  ==_iff, ◌≡◌, refl, sym, ap, ◌∙◌, Bool-cases, inl, inr, arith,
}
use priority_kb.Chunk.Offsets.{
  Encoder, fast_offsets, fast_total, prefix_lengths, slow_offsets, char_offsets, offset_at,
}
use priority_kb.Chunk.Decoding.{Documented, Readable, Decodes, readable-Decodes}
use priority_kb.Chunk.Search.{OffsetMap}

module _ {K : Type 0} (enc : Encoder K) where
  length-fast_offsets : (acc : ℕ) (ts : List K) → length (fast_offsets enc acc ts) ≡ suc (length ts)
  unfolding fast_offsets
  length-fast_offsets acc [] = refl
  length-fast_offsets acc (t ∷ ts) =
      ap suc (length-fast_offsets (acc + length (enc.decode (t ∷ []))) ts)

  fast_offsets-last :
      (acc : ℕ) (ts : List K)
      → offset_at (fast_offsets enc acc ts) (length ts) ≡ fast_total enc acc ts
  unfolding fast_offsets fast_total offset_at
  fast_offsets-last acc [] = refl
  fast_offsets-last acc (t ∷ ts) = fast_offsets-last (acc + length (enc.decode (t ∷ []))) ts

  fast_offsets-above :
      (acc : ℕ) (ts : List K) (i : ℕ) → i ≤ length ts → acc ≤ offset_at (fast_offsets enc acc ts) i
  unfolding fast_offsets offset_at
  fast_offsets-above acc [] zero h = omega arith
  fast_offsets-above acc [] (suc i) h = absurd (omega arith)
  fast_offsets-above acc (t ∷ ts) zero h = omega arith
  fast_offsets-above acc (t ∷ ts) (suc i) h =
      omega (arith, fast_offsets-above (acc + length (enc.decode (t ∷ []))) ts i (omega arith))

  fast_offsets_mono :
      (acc : ℕ) (ts : List K) (i j : ℕ)
      → i ≤ j
      → j ≤ length ts
      → offset_at (fast_offsets enc acc ts) i ≤ offset_at (fast_offsets enc acc ts) j
  unfolding fast_offsets offset_at
  fast_offsets_mono acc [] zero zero h k = omega arith
  fast_offsets_mono acc [] zero (suc j) h k = absurd (omega arith)
  fast_offsets_mono acc [] (suc i) j h k = absurd (omega arith)
  fast_offsets_mono acc (t ∷ ts) zero j h k = fast_offsets-above acc (t ∷ ts) j k
  fast_offsets_mono acc (t ∷ ts) (suc i) zero h k = absurd (omega arith)
  fast_offsets_mono acc (t ∷ ts) (suc i) (suc j) h k =
      fast_offsets_mono (acc + length (enc.decode (t ∷ []))) ts i j (omega arith) (omega arith)

  length-prefix_lengths : (ts : List K) (n more : ℕ) → length (prefix_lengths enc ts n more) ≡ more
  unfolding prefix_lengths
  length-prefix_lengths ts n zero = refl
  length-prefix_lengths ts n (suc more) = ap suc (length-prefix_lengths ts (suc n) more)

  prefix_lengths-at :
      (ts : List K) (n more i : ℕ)
      → i < more
      → get_or (prefix_lengths enc ts n more) i 0 ≡ length (enc.decode (take (n + i) ts))
  unfolding prefix_lengths
  prefix_lengths-at ts n zero i h = absurd (omega arith)
  prefix_lengths-at ts n (suc more) zero h = let e : n + 0 ≡ n = omega arith in rw e refl
  prefix_lengths-at ts n (suc more) (suc i) h =
      let e : n + suc i ≡ suc n + i = omega arith in
      rw e (prefix_lengths-at ts (suc n) more i (omega arith))

  slow_offsets-at :
      (ts : List K) (i : ℕ)
      → 0 < i
      → i ≤ length ts
      → offset_at (slow_offsets enc ts) i ≡ length (enc.decode (take i ts))
  unfolding slow_offsets offset_at
  slow_offsets-at ts zero g h = absurd (omega arith)
  slow_offsets-at ts (suc i) g h =
      let e : suc i ≡ 1 + i = omega arith in
      prefix_lengths-at ts 1 (length ts) i (omega arith)
      ∙ ap (λ n. length (enc.decode (take n ts))) (sym e)

  offset_at-first : (acc : ℕ) (ts : List K) → offset_at (fast_offsets enc acc ts) 0 ≡ acc
  unfolding fast_offsets offset_at
  offset_at-first acc [] = refl
  offset_at-first acc (t ∷ ts) = refl

module _ {K : Type 0} (enc : Encoder K) (tokens : List K) (body : Text)
    (d : Decodes enc tokens body) where
  fast-OffsetMap :
      fast_total enc 0 tokens ≡ length body
      → OffsetMap (fast_offsets enc 0 tokens) (length tokens) (length body)
  fast-OffsetMap e = record {
    count = length-fast_offsets enc 0 tokens;
    first = offset_at-first enc 0 tokens;
    last = fast_offsets-last enc 0 tokens ∙ e;
    mono = fast_offsets_mono enc 0 tokens;
    small = d.small;
  }

  slow_offsets_mono :
      (i j : ℕ)
      → i ≤ j
      → j ≤ length tokens
      → offset_at (slow_offsets enc tokens) i ≤ offset_at (slow_offsets enc tokens) j
  slow_offsets_mono zero j h k = unfold slow_offsets offset_at in (omega arith)
  slow_offsets_mono (suc i) j h k =
      let left = slow_offsets-at enc tokens (suc i) (omega arith) (omega arith) in
      let right = slow_offsets-at enc tokens j (omega arith) k in
      omega (arith, left, right, d.prefixes (suc i) j h)

  slow-OffsetMap :
      0 < length tokens → OffsetMap (slow_offsets enc tokens) (length tokens) (length body)
  slow-OffsetMap h = record {
    count = unfold slow_offsets in (ap suc (length-prefix_lengths enc tokens 1 (length tokens)));
    first = unfold slow_offsets offset_at in refl;
    last =
        slow_offsets-at enc tokens (length tokens) h (omega arith)
        ∙ ap (λ ts. length (enc.decode ts)) (take_all (length tokens) tokens (omega arith))
        ∙ d.whole;
    mono = slow_offsets_mono;
    small = d.small;
  }

positive :
    {K : Type 0} (dec : List K → Text) (ts : List K)
    → length (dec []) ≡ 0
    → 0 < length (dec ts)
    → 0 < length ts
positive dec [] e h = absurd (omega (arith, e))
positive dec (t ∷ ts) e h = omega arith

-- A text that is not empty has a token.
pub has_token :
    {K : Type 0} (enc : Encoder K) (tokens : List K) (body : Text)
    → Decodes enc tokens body
    → 0 < length body
    → 0 < length tokens
has_token enc tokens body d h = positive enc.decode tokens d.empty (omega (arith, d.whole))

-- For a readable text that is not empty and that is encoded, the map has the start of each token and
-- then the text's length, in order, whether the tokens' own lengths add up to it or the prefixes are
-- decoded.
pub char_offsets-OffsetMap :
    {K : Type 0} (enc : Encoder K) (tokens : List K) (body : Text)
    → Documented enc
    → enc.encode body ≡ some tokens
    → Readable body
    → 0 < length body
    → OffsetMap (char_offsets enc tokens body) (length tokens) (length body)
unfolding char_offsets
char_offsets-OffsetMap enc tokens body doc encoded r h =
    let d = readable-Decodes enc doc tokens body encoded r in
    elim (Bool-cases (fast_total enc 0 tokens == length body)) [
      | inl e ↦ rw (e, char_offsets) (fast-OffsetMap enc tokens body d ((==_iff _ _).0 e))
      | inr e ↦
          rw (e, char_offsets) (slow-OffsetMap enc tokens body d (has_token enc tokens body d h))
    ]
