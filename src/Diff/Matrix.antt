-- ===== src/Diff/Matrix.antt =====
-- The matrix of the diff holds the lengths of the longest common subsequences of the prefixes.
use priority_kb.Base.{
  Text, text_eq, eq→text_eq, ℕ, zero, suc, ◌+◌, ◌≤◌, ◌<◌, leb, List, [], ◌∷◌, if◌then◌else◌, length,
  get_or, ◌≡◌, refl, sym, ap, subst, ◌∙◌, arith,
}
use priority_kb.Diff.{line, row_cells, rows_from, zeros, lcs_matrix, cell}

-- An alignment of the first `i` old and the first `j` new lines that pairs `k` equal lines.
pub data Aligned (a b : List Text) : ℕ → ℕ → ℕ → Type 0 where
  start : Aligned a b zero zero zero
  drops : {i j k : ℕ} → Aligned a b i j k → Aligned a b (suc i) j k
  adds : {i j k : ℕ} → Aligned a b i j k → Aligned a b i (suc j) k
  pairs :
      {i j k : ℕ} → line a i ≡ line b j → Aligned a b i j k → Aligned a b (suc i) (suc j) (suc k)

module _ (a b : List Text) where
  -- The recurrence of the matrix, on prefixes.
  unfoldable pub longest : ℕ → ℕ → ℕ
  longest zero j = 0
  longest (suc i) zero = 0
  longest (suc i) (suc j) =
      let both = suc (longest i j) in
      let up = longest i (suc j) in
      let left = longest (suc i) j in
      if text_eq (line a i) (line b j) then both else if leb left up then up else left

  step_down :
      (i j : ℕ)
      → ((j : ℕ) → longest i j ≤ longest i (suc j))
      → longest (suc i) j ≤ suc (longest i j)
  unfolding longest
  step_down i zero m = omega arith
  step_down i (suc j) m = ground (arith, m j, step_down i j m)

  mono_right : (i j : ℕ) → longest i j ≤ longest i (suc j)
  unfolding longest
  mono_right zero j = omega arith
  mono_right (suc i) zero = omega arith
  mono_right (suc i) (suc j) = ground (arith, step_down i (suc j) (mono_right i))

  step_right :
      (j i : ℕ)
      → ((i : ℕ) → longest i j ≤ longest (suc i) j)
      → longest i (suc j) ≤ suc (longest i j)
  unfolding longest
  step_right j zero m = omega arith
  step_right j (suc i) m = ground (arith, m i, step_right j i m)

  mono_down : (j i : ℕ) → longest i j ≤ longest (suc i) j
  unfolding longest
  mono_down zero zero = omega arith
  mono_down zero (suc i) = omega arith
  mono_down (suc j) zero = omega arith
  mono_down (suc j) (suc i) = ground (arith, step_right j (suc i) (mono_down j))

  step_both : (i j : ℕ) → line a i ≡ line b j → longest (suc i) (suc j) ≡ suc (longest i j)
  unfolding longest
  step_both i j e = ground (arith, eq→text_eq (line a i) (line b j))

  pub Aligned-le-longest : {i j k : ℕ} → Aligned a b i j k → k ≤ longest i j
  Aligned-le-longest start = omega arith
  Aligned-le-longest (drops {i = i} {j = j} al) =
      omega (arith, Aligned-le-longest al, mono_down j i)
  Aligned-le-longest (adds {i = i} {j = j} al) =
      omega (arith, Aligned-le-longest al, mono_right i j)
  Aligned-le-longest (pairs {i = i} {j = j} e al) =
      omega (arith, Aligned-le-longest al, step_both i j e)

  pub longest-zero : (i : ℕ) → longest i zero ≡ 0
  unfolding longest
  longest-zero zero = refl
  longest-zero (suc i) = refl

  next_cell-longest :
      (i j : ℕ) (y : Text) (d u left : ℕ)
      → y ≡ line b j
      → d ≡ longest i j
      → u ≡ longest i (suc j)
      → left ≡ longest (suc i) j
      → (if text_eq (line a i) y then d + 1 else if leb left u then u else left)
        ≡ longest (suc i) (suc j)
  unfolding longest
  next_cell-longest i j y d u left p q r e = rw p (ground arith)

  -- Row `i` of the matrix.
  abbrev IsRow : ℕ → List ℕ → Type 0
  IsRow i row =
      (length row ≡ suc (length b)) × ((k : ℕ) → k ≤ length b → get_or row k 0 ≡ longest i k)

  row_cells-longest :
      (i : ℕ) (ys : List Text) (above : List ℕ) (j left : ℕ)
      → length above ≡ suc (length ys)
      → ((k n : ℕ) → n ≡ j + k → k < length ys → line ys k ≡ line b n)
      → ((k n : ℕ) → n ≡ j + k → k ≤ length ys → get_or above k 0 ≡ longest i n)
      → left ≡ longest (suc i) j
      → (k n : ℕ) → n ≡ j + k
      → k < length ys
      → get_or (row_cells (line a i) ys above left) k 0 ≡ longest (suc i) (suc n)
  unfolding row_cells longest
  row_cells-longest i [] above j left len same up_row e k n en h = absurd (omega arith)
  row_cells-longest i (y ∷ ys) [] j left len same up_row e k n en h = absurd (omega arith)
  row_cells-longest i (y ∷ ys) (d ∷ []) j left len same up_row e k n en h = absurd (omega arith)
  row_cells-longest i (y ∷ ys) (d ∷ u ∷ above) j left len same up_row e zero n en h =
      next_cell-longest i j y d u left (same 0 j (omega arith) (omega arith))
        (up_row 0 j (omega arith) (omega arith)) (up_row 1 (suc j) (omega arith) (omega arith)) e
      ∙ ap (λ m. longest (suc i) (suc m)) (omega arith)
  row_cells-longest i (y ∷ ys) (d ∷ u ∷ above) j left len same up_row e (suc k) n en h =
      row_cells-longest i ys (u ∷ above) (suc j) _ (omega arith)
        (λ k' n' e' h'. same (suc k') n' (omega arith) (omega arith))
        (λ k' n' e' h'. up_row (suc k') n' (omega arith) (omega arith))
        (next_cell-longest i j y d u left (same 0 j (omega arith) (omega arith))
          (up_row 0 j (omega arith) (omega arith)) (up_row 1 (suc j) (omega arith) (omega arith)) e)
        k n (omega arith) (omega arith)

  length-row_cells :
      (x : Text) (ys : List Text) (above : List ℕ) (left : ℕ)
      → length above ≡ suc (length ys)
      → length (row_cells x ys above left) ≡ length ys
  unfolding row_cells
  length-row_cells x [] above left h = refl
  length-row_cells x (y ∷ ys) [] left h = absurd (omega arith)
  length-row_cells x (y ∷ ys) (d ∷ []) left h = absurd (omega arith)
  length-row_cells x (y ∷ ys) (d ∷ u ∷ above) left h =
      ap suc (length-row_cells x ys (u ∷ above) _ (omega arith))

  next-IsRow :
      (i : ℕ) (above : List ℕ) → IsRow i above → IsRow (suc i) (0 ∷ row_cells (line a i) b above 0)
  unfolding longest
  next-IsRow i above (len, up) = (ap suc (length-row_cells (line a i) b above 0 len), go)
    where
      go :
          (k : ℕ)
          → k ≤ length b
          → get_or (0 ∷ row_cells (line a i) b above 0) k 0 ≡ longest (suc i) k
      go zero h = refl
      go (suc k) h =
          row_cells-longest i b above 0 0 len (λ k' n e p. ap (line b) (omega arith))
            (λ k' n e p. up k' p ∙ ap (longest i) (omega arith)) refl k k (omega arith) h

  first-IsRow :
      (above : List ℕ) (i : ℕ) (x : Text)
      → IsRow i above
      → x ≡ line a i
      → IsRow (suc i) (0 ∷ row_cells x b above 0)
  first-IsRow above i x r e =
      subst (λ t. IsRow (suc i) (0 ∷ row_cells t b above 0)) (sym e) (next-IsRow i above r)

  rows_from-IsRow :
      (above : List ℕ) (i : ℕ) (xs : List Text)
      → IsRow i above
      → ((k n : ℕ) → n ≡ i + k → k < length xs → line xs k ≡ line a n)
      → (k n : ℕ) → n ≡ i + k
      → k < length xs
      → IsRow (suc n) (get_or (rows_from b above xs) k [])
  unfolding rows_from
  rows_from-IsRow above i [] r same k n e h = absurd (omega arith)
  rows_from-IsRow above i (x ∷ xs) r same zero n e h =
      let here : i ≡ n = omega arith in
      rw (← here) (first-IsRow above i x r (same 0 i (omega arith) (omega arith)))
  rows_from-IsRow above i (x ∷ xs) r same (suc k) n e h =
      rows_from-IsRow (0 ∷ row_cells x b above 0) (suc i) xs
        (first-IsRow above i x r (same 0 i (omega arith) (omega arith)))
        (λ k' n' e' h'. same (suc k') n' (omega arith) (omega arith)) k n (omega arith)
        (omega arith)

length-zeros : (ys : List Text) → length (zeros ys) ≡ suc (length ys)
unfolding zeros
length-zeros [] = refl
length-zeros (y ∷ ys) = ap suc (length-zeros ys)

get_or-zeros : (ys : List Text) (k : ℕ) → get_or (zeros ys) k 0 ≡ 0
unfolding zeros
get_or-zeros [] zero = refl
get_or-zeros [] (suc k) = refl
get_or-zeros (y ∷ ys) zero = refl
get_or-zeros (y ∷ ys) (suc k) = get_or-zeros ys k

zeros-IsRow : (a b : List Text) → IsRow a b 0 (zeros b)
unfolding longest
zeros-IsRow a b = (length-zeros b, λ k h. get_or-zeros b k)

pub cell-longest :
    (a b : List Text) (i j : ℕ)
    → i ≤ length a
    → j ≤ length b
    → cell (lcs_matrix a b) i j ≡ longest a b i j
unfolding lcs_matrix
cell-longest a b zero j h k = (zeros-IsRow a b).1 j k
cell-longest a b (suc i) j h k =
    (rows_from-IsRow a b (zeros b) 0 a (zeros-IsRow a b) (λ k' n e p. ap (line a) (omega arith)) i i
        (omega arith) h).1
      j k
