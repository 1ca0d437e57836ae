-- ===== src/Chunk/Prefer.antt =====
-- lib/chunk.ts: which boundary `findBoundary` prefers.
use priority_kb.Base.{Text, ℕ, ◌≤◌, ◌<◌, ◌≡◌, ◌⊎◌, false}
use priority_kb.Chunk.Boundary.{Candidate, comes_before, rank_at}

NotBefore : Candidate → Candidate → Type 0
NotBefore b c = comes_before c b ≡ false

-- `i` is no better than `b`.
abbrev NoBetter : Text → ℕ → ℕ → Type 0
NoBetter body i b =
    (rank_at body i < rank_at body b) ⊎ ((rank_at body i ≡ rank_at body b) × (i ≤ b))
