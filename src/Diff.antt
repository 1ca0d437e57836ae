-- ===== src/Diff.antt =====
-- lib/text-diff.ts: the line diff of the version history.
-- The matrix `dp` is a list of rows of the source's flat array, row 0 first.
pub mod Rebuild
pub mod Matrix
pub mod Longest
use priority_kb.Base.{
  Text, text_eq, ℕ, zero, suc, ◌+◌, ◌*◌, ◌-◌, ◌==◌, ltb, leb, Bool, true, false, ◌&&◌, ◌||◌, List,
  [], ◌∷◌, ◌++◌, map, reverse, if◌then◌else◌, length, Option, get_or,
}

pub data DiffKind : Type 0 where
  context add remove : DiffKind

pub record DiffChunk : Type 0 where
  pub kind : DiffKind
  pub text : Text

pub record DiffResult : Type 0 where
  pub chunks : List DiffChunk
  pub oversized : Bool

abbrev pub max_diff_lines : ℕ
max_diff_lines = 5000

-- `text.split(/\r?\n/)`: a line ends at LF, and a CR just before it is dropped.
lines_from : Text → Text → List Text
lines_from cur [] = reverse cur ∷ []
lines_from cur (c ∷ []) = if c == 10 then reverse cur ∷ [] ∷ [] else reverse (c ∷ cur) ∷ []
lines_from cur (c ∷ d ∷ s) =
    let skip_two = reverse cur ∷ lines_from [] s in
    let skip_one = reverse cur ∷ lines_from [] (d ∷ s) in
    let go_on = lines_from (c ∷ cur) (d ∷ s) in
    if c == 10 then skip_one else if (c == 13) && (d == 10) then skip_two else go_on

unfoldable pub split_lines : Text → List Text
unfolding lines_from
split_lines text = lines_from [] text

abbrev pub line : List Text → ℕ → Text
line ls i = get_or ls i []

-- Row `i` of the matrix after its first cell, from row `i - 1` and the cell to the left.
unfoldable pub row_cells : Text → List Text → List ℕ → ℕ → List ℕ
row_cells x (y ∷ ys) (diag ∷ up ∷ above) left =
    let v = if text_eq x y then diag + 1 else if leb left up then up else left in
    v ∷ row_cells x ys (up ∷ above) v
row_cells x _ _ left = []

unfoldable pub rows_from : List Text → List ℕ → List Text → List (List ℕ)
rows_from b above [] = []
rows_from b above (x ∷ a) = let row = 0 ∷ row_cells x b above 0 in row ∷ rows_from b row a

unfoldable pub zeros : List Text → List ℕ
zeros [] = 0 ∷ []
zeros (y ∷ ys) = 0 ∷ zeros ys

unfoldable pub lcs_matrix : List Text → List Text → List (List ℕ)
lcs_matrix a b = zeros b ∷ rows_from b (zeros b) a

abbrev pub cell : List (List ℕ) → ℕ → ℕ → ℕ
cell dp i j = get_or (get_or dp i []) j 0

-- The loop of `backtrack` at `i` and `j`. What it pushes and reverses is put in front of `result`.
unfoldable pub backtrack_from :
    List Text → List Text → List (List ℕ) → ℕ → ℕ → List DiffChunk → List DiffChunk
backtrack_from a b dp zero zero result = result
backtrack_from a b dp zero (suc j) result =
    backtrack_from a b dp zero j (record { kind = add; text = line b j } ∷ result)
backtrack_from a b dp (suc i) zero result =
    backtrack_from a b dp i zero (record { kind = remove; text = line a i } ∷ result)
backtrack_from a b dp (suc i) (suc j) result =
    let both = backtrack_from a b dp i j (record { kind = context; text = line a i } ∷ result) in
    let new = backtrack_from a b dp (suc i) j (record { kind = add; text = line b j } ∷ result) in
    let old =
      backtrack_from a b dp i (suc j) (record { kind = remove; text = line a i } ∷ result) in
    if text_eq (line a i) (line b j)
    then both
    else if leb (cell dp i (suc j)) (cell dp (suc i) j)
    then new
    else old

unfoldable pub backtrack : List Text → List Text → List (List ℕ) → List DiffChunk
backtrack a b dp = backtrack_from a b dp (length a) (length b) []

abbrev pub chunks_of : DiffKind → List Text → List DiffChunk
chunks_of k [] = []
chunks_of k (t ∷ ts) = record { kind = k; text = t } ∷ chunks_of k ts

-- `lines.length === 0 || (lines.length === 1 && lines[0] === "")`.
unfoldable pub is_blank : List Text → Bool
is_blank [] = true
is_blank ([] ∷ []) = true
is_blank _ = false

unfoldable pub diff_of : List Text → List Text → DiffResult
diff_of a b =
    if is_blank a
    then record { chunks = chunks_of add b; oversized = false }
    else if is_blank b
    then record { chunks = chunks_of remove a; oversized = false }
    else if ltb max_diff_lines (length a) || ltb max_diff_lines (length b)
    then record { chunks = []; oversized = true }
    else record { chunks = backtrack a b (lcs_matrix a b); oversized = false }

unfoldable pub diff_lines : Text → Text → DiffResult
unfolding diff_of
diff_lines old_text new_text =
    if text_eq old_text new_text
    then record { chunks = chunks_of context (split_lines old_text); oversized = false }
    else diff_of (split_lines old_text) (split_lines new_text)
