-- ===== src/Chunk/Ranges.antt =====
-- lib/chunk.ts: `computeForbiddenRanges`, `rangesContain` and `rangeAt`. Each regular expression is a
-- matcher on the text from a position on, which gives the length of its match.
use priority_kb.Base.{
  Text, ℕ, suc, ◌+◌, max, Bool, true, false, not, ◌&&◌, ◌||◌, List, [], ◌∷◌, ◌++◌, Option, none,
  some, option_map, drop, ltb, leb, ◌==◌, if◌then◌else◌, is_line_end, length, reverse,
}

abbrev pub Range : Type 0
Range = ℕ × ℕ

-- `offset >= s && offset < e`
unfoldable pub within : Range → ℕ → Bool
within (s, e) offset = leb s offset && ltb offset e

unfoldable pub ranges_contain : List Range → ℕ → Bool
ranges_contain [] offset = false
ranges_contain (r ∷ rs) offset = within r offset || ranges_contain rs offset

unfoldable pub range_at : List Range → ℕ → Option Range
range_at [] offset = none
range_at (r ∷ rs) offset = if within r offset then some r else range_at rs offset

-- `[ \t]*`
unfoldable pub blanks : Text → ℕ
blanks [] = 0
blanks (c ∷ s) = if (c == 32) || (c == 9) then suc (blanks s) else 0

-- A run of backticks, and "```" at the head.
unfoldable pub ticks : Text → ℕ
ticks [] = 0
ticks (c ∷ s) = if c == 96 then suc (ticks s) else 0

-- `[^\n]*\n`
unfoldable pub through_newline : Text → Option ℕ
through_newline [] = none
through_newline (c ∷ s) = if c == 10 then some 1 else option_map suc (through_newline s)

-- `[^\n]*\n?`
unfoldable pub line_length : Text → ℕ
line_length [] = 0
line_length (c ∷ s) = if c == 10 then 1 else suc (line_length s)

-- `(?:\n|$)` in multiline mode
unfoldable pub line_close : Text → Option ℕ
line_close [] = some 0
line_close (c ∷ s) = if c == 10 then some 1 else if is_line_end c then some 0 else none

-- `[ \t]*```[^\n]*\n`
unfoldable pub fence_open : Text → Option ℕ
unfolding blanks ticks through_newline
fence_open s =
    let n = blanks s in
    if leb 3 (ticks (drop n s))
    then option_map (λ k. n + 3 + k) (through_newline (drop (n + 3) s))
    else none

-- `[ \t]*```[ \t]*(?:\n|$)`
unfoldable pub fence_close : Text → Option ℕ
unfolding blanks ticks line_close
fence_close s =
    let n = blanks s in
    let m = n + 3 + blanks (drop (n + 3) s) in
    if leb 3 (ticks (drop n s)) then option_map (λ k. m + k) (line_close (drop m s)) else none

-- `[ \t]*\|[^\n]*\n?`
first_is : ℕ → Text → Bool
first_is d [] = false
first_is d (c ∷ s) = c == d

unfoldable pub table_row : Text → Option ℕ
unfolding blanks first_is line_length
table_row s =
    let n = blanks s in if first_is 124 (drop n s) then some (n + line_length (drop n s)) else none

-- `exec` of such an expression after `^`: the end of the first match, `pos` being the position and
-- `starts` telling whether a line starts there.
unfoldable pub match_end : (Text → Option ℕ) → ℕ → Bool → Text → Option ℕ
match_end m pos starts [] = if starts then option_map (λ n. pos + n) (m []) else none
match_end m pos starts (c ∷ s) =
    let here = if starts then m (c ∷ s) else none in
    elim here [ some n ↦ some (pos + n) | none ↦ match_end m (suc pos) (is_line_end c) s ]

-- The fence that opens at `pos`, after an opening of `n` characters: the end of its closing line.
unfoldable pub closed_at : ℕ → Text → ℕ → Option ℕ
unfolding match_end fence_close
closed_at pos s n = match_end fence_close (pos + n) true (drop n s)

-- What `fenceRe` finds at a position: nothing, an opening that is not closed, or a block.
pub data Fence : Type 0 where
  no_fence : Fence
  unclosed : (after_open : ℕ) → Fence
  block : (close_end : ℕ) → Fence

unfoldable pub fence_at : ℕ → Bool → Text → Fence
unfolding fence_open closed_at
fence_at pos may s = elim (if may then fence_open s else none) [
  | none ↦ no_fence
  | some n ↦ elim (closed_at pos s n) [ none ↦ unclosed (pos + n) | some e ↦ block e ]
]

-- `until` is `fenceRe.lastIndex`: no match starts before it.
unfoldable pub fences : ℕ → ℕ → Bool → Text → List Range
unfolding fence_at
fences pos until starts [] = []
fences pos until starts (c ∷ s) = elim (fence_at pos (starts && leb until pos) (c ∷ s)) [
  | no_fence ↦ fences (suc pos) until (is_line_end c) s
  | unclosed k ↦ fences (suc pos) k (is_line_end c) s
  | block e ↦ (pos, e) ∷ fences (suc pos) e (is_line_end c) s
]

-- `line.indexOf("`")`
unfoldable pub tick_index : Text → Option ℕ
tick_index [] = none
tick_index (c ∷ s) = if c == 96 then some 0 else option_map suc (tick_index s)

-- What the loop over a line does at a position: go on, skip a run of three or more, break, or a span.
pub data Span : Type 0 where
  no_span stop : Span
  skip : (run_end : ℕ) → Span
  span : (end : ℕ) → Span

unfoldable pub span_at : ℕ → Bool → Text → Span
unfolding ticks tick_index
span_at pos may s =
    let run = ticks s in
    if not may || (run == 0)
    then no_span
    else if leb 3 run
    then skip (pos + run)
    else elim (tick_index (drop run s)) [ none ↦ stop | some k ↦ span (pos + run + k + 1) ]

-- `until` is the position of `i`.
unfoldable pub spans : ℕ → ℕ → Text → List Range
unfolding span_at
spans pos until [] = []
spans pos until (c ∷ s) = elim (span_at pos (leb until pos) (c ∷ s)) [
  | no_span ↦ spans (suc pos) until s
  | skip k ↦ spans (suc pos) k s
  | stop ↦ []
  | span e ↦ (pos, e) ∷ spans (suc pos) e s
]

-- `/[^\n]*\n?/g`: the lines with their positions, `line` being what is read of the current one.
unfoldable pub lines_from : ℕ → ℕ → Text → Text → List (ℕ × Text)
lines_from start pos line [] = if length line == 0 then [] else (start, reverse line) ∷ []
lines_from start pos line (c ∷ s) =
    let next = if c == 10 then suc pos else start in
    let rest = lines_from next (suc pos) (if c == 10 then [] else c ∷ line) s in
    if c == 10 then (start, reverse (c ∷ line)) ∷ rest else rest

unfoldable pub body_lines : Text → List (ℕ × Text)
unfolding lines_from
body_lines body = lines_from 0 0 [] body

-- The inline code spans of the lines that start outside the ranges found so far.
unfoldable pub add_spans : List Range → List (ℕ × Text) → List Range
unfolding ranges_contain spans
add_spans ranges [] = ranges
add_spans ranges ((start, line) ∷ rest) =
    add_spans (if ranges_contain ranges start then ranges else ranges ++ spans start start line)
      rest

-- The matches of `tableLineRe`, `until` being its `lastIndex`.
unfoldable pub rows_from : ℕ → ℕ → Bool → Text → List Range
unfolding table_row
rows_from pos until starts [] = []
rows_from pos until starts (c ∷ s) =
    elim (if starts && leb until pos then table_row (c ∷ s) else none) [
      | none ↦ rows_from (suc pos) until (is_line_end c) s
      | some n ↦ (pos, pos + n) ∷ rows_from (suc pos) (pos + n) (is_line_end c) s
    ]

unfoldable pub add_rows : List Range → List Range → List Range
unfolding ranges_contain
add_rows ranges [] = ranges
add_rows ranges ((s, e) ∷ rows) =
    add_rows (if ranges_contain ranges s then ranges else ranges ++ (s, e) ∷ []) rows

-- `ranges.sort((a, b) => a[0] - b[0])`, which is stable.
unfoldable pub insert_range : Range → List Range → List Range
insert_range r [] = r ∷ []
insert_range (s, e) ((t, f) ∷ rs) =
    let later = (t, f) ∷ insert_range (s, e) rs in
    let here = (s, e) ∷ (t, f) ∷ rs in if ltb t s then later else here

unfoldable pub sort_ranges : List Range → List Range
unfolding insert_range
sort_ranges [] = []
sort_ranges (r ∷ rs) = insert_range r (sort_ranges rs)

-- The loop that merges, the first argument being `merged[merged.length - 1]`.
unfoldable pub merge_from : Range → List Range → List Range
merge_from last [] = last ∷ []
merge_from (s, e) ((t, f) ∷ rs) =
    let joined = merge_from (s, max e f) rs in
    let apart = (s, e) ∷ merge_from (t, f) rs in if ltb t e then joined else apart

unfoldable pub merge_ranges : List Range → List Range
unfolding merge_from
merge_ranges [] = []
merge_ranges (r ∷ rs) = merge_from r rs

-- The ranges before they are sorted.
unfoldable pub found_ranges : Text → List Range
unfolding fences add_spans body_lines rows_from add_rows
found_ranges body =
    add_rows (add_spans (fences 0 0 true body) (body_lines body)) (rows_from 0 0 true body)

unfoldable pub compute_forbidden_ranges : Text → List Range
unfolding found_ranges sort_ranges merge_ranges
compute_forbidden_ranges body = merge_ranges (sort_ranges (found_ranges body))
