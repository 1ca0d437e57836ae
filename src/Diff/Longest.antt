-- ===== src/Diff/Longest.antt =====
-- The diff keeps as many lines as any alignment of the two texts.
use priority_kb.Base.{Text, ℕ, zero, suc, ◌+◌, ◌≤◌, List, [], ◌∷◌, length, ◌≡◌, arith}
use priority_kb.Diff.{
  context, add, remove, DiffChunk, line, lcs_matrix, cell, backtrack_from, backtrack,
}
use priority_kb.Diff.Matrix.{Aligned, longest, longest-zero, Aligned-le-longest, cell-longest}

-- The number of lines that a diff keeps.
pub kept : List DiffChunk → ℕ
kept [] = 0
kept (c ∷ cs) = elim c.kind [ context ↦ suc (kept cs) | _ ↦ kept cs ]

kept-backtrack_from :
    (a b : List Text) (i j : ℕ) (result : List DiffChunk)
    → i ≤ length a
    → j ≤ length b
    → kept (backtrack_from a b (lcs_matrix a b) i j result) ≡ longest a b i j + kept result
unfolding backtrack_from kept longest
kept-backtrack_from a b zero zero result h k = omega arith
kept-backtrack_from a b zero (suc j) result h k = kept-backtrack_from a b zero j _ h (omega arith)
kept-backtrack_from a b (suc i) zero result h k = ground (
  arith,
  kept-backtrack_from a b i zero (record { kind = remove; text = line a i } ∷ result) (omega arith)
      k,
  longest-zero a b i,
)
kept-backtrack_from a b (suc i) (suc j) result h k = ground (
  arith,
  kept-backtrack_from a b i j (record { kind = context; text = line a i } ∷ result) (omega arith)
      (omega arith),
  kept-backtrack_from a b i (suc j) (record { kind = remove; text = line a i } ∷ result)
      (omega arith) k,
  kept-backtrack_from a b (suc i) j (record { kind = add; text = line b j } ∷ result) h
      (omega arith),
  cell-longest a b i (suc j) (omega arith) k,
  cell-longest a b (suc i) j h (omega arith),
)

-- The diff keeps at least as many lines as any alignment of the two line lists pairs, and its
-- number of kept lines is the last cell of the matrix.
pub backtrack-longest :
    (a b : List Text) {k : ℕ}
    → Aligned a b (length a) (length b) k
    → (k ≤ kept (backtrack a b (lcs_matrix a b)))
      × (kept (backtrack a b (lcs_matrix a b)) ≡ cell (lcs_matrix a b) (length a) (length b))
unfolding backtrack kept
backtrack-longest a b al =
    let best = kept-backtrack_from a b (length a) (length b) [] (omega arith) (omega arith) in
    (
      omega (arith, best, Aligned-le-longest a b al),
      omega (arith, best, cell-longest a b (length a) (length b) (omega arith) (omega arith)),
    )
