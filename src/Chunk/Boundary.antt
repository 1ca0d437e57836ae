-- ===== src/Chunk/Boundary.antt =====
-- lib/chunk.ts: `findBoundary`.
use priority_kb.Base.{
  Text, ℕ, zero, suc, ◌+◌, ◌-◌, ◌/◌, min, max, Bool, false, not, ◌&&◌, ◌||◌, List, [], ◌∷◌, Option,
  none, some, get_elem?, length, ltb, leb, ◌==◌, if◌then◌else◌, is_space,
}
use priority_kb.Chunk.Ranges.{Range, ranges_contain, range_at}

-- `body[i - k]`, which is `undefined` before the start and from the end on.
unfoldable pub unit_before : Text → ℕ → ℕ → Option ℕ
unit_before body i k = if leb k i then get_elem? body (i - k) else none

unfoldable pub is_newline : Option ℕ → Bool
is_newline none = false
is_newline (some c) = c == 10

-- `/\s/.test`; the text "undefined" has no white space.
unfoldable pub is_white : Option ℕ → Bool
is_white none = false
is_white (some c) = is_space c

-- `/[.?!]/.test`
unfoldable pub ends_sentence : Option ℕ → Bool
ends_sentence none = false
ends_sentence (some c) = (c == 46) || (c == 63) || (c == 33)

-- The rank of the break at `i`: 3 a paragraph, 2 a sentence, 1 a word, 0 none.
unfoldable pub rank_at : Text → ℕ → ℕ
unfolding unit_before is_newline is_white ends_sentence
rank_at body i =
    let before = unit_before body i 1 in
    let before2 = unit_before body i 2 in
    if is_newline before && is_newline before2
    then 3
    else if leb 2 i && ends_sentence before2 && is_white before
    then 2
    else if is_white before && not (is_white (get_elem? body i))
    then 1
    else 0

pub record Candidate : Type 0 where
  pub offset : ℕ
  pub rank : ℕ

-- `for (let i = targetOffset; i >= windowStart; i--)`: `i` runs through the `n` offsets up to `top`.
unfoldable pub candidates : Text → List Range → ℕ → ℕ → List Candidate
unfolding rank_at ranges_contain
candidates body forbidden start zero = []
candidates body forbidden start (suc n) =
    let i = start + n in
    let rest = candidates body forbidden start n in
    if (rank_at body i == 0) || ranges_contain forbidden i
    then rest
    else record { offset = i; rank = rank_at body i } ∷ rest

-- `b.rank - a.rank || b.offset - a.offset` is negative.
unfoldable pub comes_before : Candidate → Candidate → Bool
comes_before a b = ltb b.rank a.rank || ((a.rank == b.rank) && ltb b.offset a.offset)

-- The head of the sorted array.
unfoldable pub best : Candidate → List Candidate → Candidate
unfolding comes_before
best a [] = a
best a (b ∷ bs) = best (if comes_before b a then b else a) bs

-- `Math.floor(span * 0.1)` is `span / 10` on the spans that a text has.
unfoldable pub window_start : ℕ → ℕ → ℕ
window_start start target = max (start + 1) (target - max 1 (target - start) / 10)

unfoldable pub pick : List Candidate → ℕ → ℕ
unfolding best
pick [] target = target
pick (c ∷ cs) target = (best c cs).offset

unfoldable pub find_boundary : Text → ℕ → ℕ → List Range → ℕ
unfolding range_at window_start candidates pick
find_boundary body start target forbidden =
    let window = window_start start target in
    elim (range_at forbidden target) [
      | some (s, e) ↦ min (length body) e
      | none ↦ pick (candidates body forbidden window (target + 1 - window)) target
    ]
