-- ===== src/Chunk/Offsets.antt =====
-- lib/chunk.ts: `encodeWithCharOffsets` and `tokenIndexAtCharOffset`. The encoder is js-tiktoken's.
use priority_kb.Base.{
  Text, ℕ, zero, suc, ◌+◌, ◌-◌, ◌/◌, ◌%◌, List, [], ◌∷◌, Option, length, get_or, take, leb, ◌==◌,
  if◌then◌else◌,
}

-- `Tiktoken`, over tokens of a type `K`. `none` is the error that `encode` throws.
pub record Encoder (K : Type 0) : Type 0 where
  pub encode : Text → Option (List K)
  pub decode : List K → Text

module _ {K : Type 0} (enc : Encoder K) where
  -- The sums of the tokens' own lengths, from `acc` on.
  unfoldable pub fast_offsets : ℕ → List K → List ℕ
  fast_offsets acc [] = acc ∷ []
  fast_offsets acc (t ∷ ts) = acc ∷ fast_offsets (acc + length (enc.decode (t ∷ []))) ts

  unfoldable pub fast_total : ℕ → List K → ℕ
  fast_total acc [] = acc
  fast_total acc (t ∷ ts) = fast_total (acc + length (enc.decode (t ∷ []))) ts

  -- The lengths of the decoded prefixes of `n`, `n + 1`, ... tokens, `more` of them.
  unfoldable pub prefix_lengths : List K → ℕ → ℕ → List ℕ
  prefix_lengths tokens n zero = []
  prefix_lengths tokens n (suc more) =
      length (enc.decode (take n tokens)) ∷ prefix_lengths tokens (suc n) more

  unfoldable pub slow_offsets : List K → List ℕ
  unfolding prefix_lengths
  slow_offsets tokens = 0 ∷ prefix_lengths tokens 1 (length tokens)

  -- `charOffsetAtToken` for the tokens of `body`.
  unfoldable pub char_offsets : (tokens : List K) → (body : Text) → List ℕ
  unfolding fast_offsets fast_total slow_offsets
  char_offsets tokens body =
      if fast_total 0 tokens == length body then fast_offsets 0 tokens else slow_offsets tokens

-- `charOffsetAtToken[i]`, where every index read is in bounds.
unfoldable pub offset_at : List ℕ → ℕ → ℕ
offset_at offsets i = get_or offsets i 0

-- `(lo + hi + 1) >>> 1` on 32-bit words.
unfoldable pub mid : ℕ → ℕ → ℕ
mid lo hi = (lo + hi + 1) % 4294967296 / 2

-- `while (lo < hi)`, on fuel.
unfoldable pub search : List ℕ → ℕ → ℕ → ℕ → ℕ → ℕ
unfolding mid offset_at
search offsets offset zero lo hi = lo
search offsets offset (suc fuel) lo hi =
    let m = mid lo hi in
    let up = leb (offset_at offsets m) offset in
    let rest = search offsets offset fuel (if up then m else lo) (if up then hi else m - 1) in
    if leb hi lo then lo else rest

-- The range shrinks in each round, so that the table's length is enough fuel.
unfoldable pub token_index : List ℕ → ℕ → ℕ
unfolding search
token_index offsets offset = search offsets offset (length offsets) 0 (length offsets - 1)
