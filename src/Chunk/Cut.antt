-- ===== src/Chunk/Cut.antt =====
-- lib/chunk.ts: where `findBoundary` cuts.
use priority_kb.Base.{
  Text, ℕ, zero, suc, ◌+◌, ◌-◌, ◌≤◌, ◌<◌, min, List, [], ◌∷◌, none, some, some_inj, length, ◌==◌,
  ◌||◌, All, All-map, ◌≡◌, ◌⊎◌, inl, inr, subst, ap, ||-eq-false, leb, false, true, refl,
  Bool-cases, Option-cases, arith,
}
use priority_kb.Chunk.Ranges.{Range, within, ranges_contain, range_at}
use priority_kb.Chunk.Boundary.{
  Candidate, candidates, comes_before, best, pick, find_boundary, rank_at, window_start,
}
use priority_kb.Chunk.Merge.{Apart}

-- `b` does not lie strictly inside the range.
abbrev pub Beside : ℕ → Range → Type 0
Beside b (s, e) = (b ≤ s) ⊎ (e ≤ b)

All-range_at :
    (P : Range → Type 0) (rs : List Range) (o : ℕ) (r : Range)
    → All P rs
    → range_at rs o ≡ some r
    → P r
unfolding range_at
All-range_at P [] o r h e = absurd (cc)
All-range_at P (q ∷ rs) o r h e = elim (Bool-cases (within q o)) [
  | inl w ↦ let same : some q ≡ some r = rw (w, range_at) at e in subst P (some_inj.0 same) h.0
  | inr w ↦ All-range_at P rs o r h.1 (rw (w, range_at) at e)
]

range_at-within : (rs : List Range) (o : ℕ) (r : Range) → range_at rs o ≡ some r → within r o ≡ true
unfolding range_at
range_at-within [] o r e = absurd (cc)
range_at-within (q ∷ rs) o r e = elim (Bool-cases (within q o)) [
  | inl w ↦
      let same : some q ≡ some r = rw (w, range_at) at e in
      subst (λ x. within x o ≡ true) (some_inj.0 same) w
  | inr w ↦ range_at-within rs o r (rw (w, range_at) at e)
]

range_at-none : (rs : List Range) (o : ℕ) → range_at rs o ≡ none → ranges_contain rs o ≡ false
unfolding range_at ranges_contain
range_at-none [] o e = refl
range_at-none (q ∷ rs) o e = ground (arith, range_at-none rs o)

ranges_contain-Beside : (rs : List Range) (b : ℕ) → ranges_contain rs b ≡ false → All (Beside b) rs
unfolding ranges_contain within
ranges_contain-Beside [] b h = tt
ranges_contain-Beside ((s, e) ∷ rs) b h = (ground arith, ranges_contain-Beside rs b (ground arith))

within-before : (f s e o : ℕ) → f ≤ s → within (s, e) o ≡ true → f ≤ e
unfolding within
within-before f s e o h w = ground arith

within-end : (s e o : ℕ) → within (s, e) o ≡ true → o < e
unfolding within
within-end s e o w = ground arith

range_at-Beside :
    (rs : List Range) (o s e : ℕ) → Apart rs → range_at rs o ≡ some (s, e) → All (Beside e) rs
unfolding range_at
range_at-Beside [] o s e h k = tt
range_at-Beside ((t, f) ∷ rs) o s e h k = elim (Bool-cases (within (t, f) o)) [
  | inl w ↦
      let same : some (t, f) ≡ some (s, e) = rw (w, range_at) at k in
      let end : f ≡ e = ap (λ r. r.1) (some_inj.0 same) in
      (inr (omega arith), All-map (λ r. f ≤ r.0) (Beside e) (λ r q. inl (omega arith)) rs h.0)
  | inr w ↦
      let rest : range_at rs o ≡ some (s, e) = rw (w, range_at) at k in
      let after = All-range_at (λ r. f ≤ r.0) rs o (s, e) h.0 rest in
      let hit = range_at-within rs o (s, e) rest in
      (inr (within-before f s e o after hit), range_at-Beside rs o s e h.1 rest)
]

-- The candidates are legal offsets of the window, with their ranks.
unfoldable pub Legal : Text → List Range → ℕ → ℕ → Candidate → Type 0
Legal body forbidden start n c =
    (ranges_contain forbidden c.offset ≡ false)
    × (start ≤ c.offset)
    × (c.offset < start + n)
    × (c.rank ≡ rank_at body c.offset)

pub candidates-Legal :
    (body : Text) (forbidden : List Range) (start n : ℕ)
    → All (Legal body forbidden start n) (candidates body forbidden start n)
unfolding candidates Legal
candidates-Legal body forbidden start zero = tt
candidates-Legal body forbidden start (suc n) =
    let rest =
      All-map (Legal body forbidden start n) (Legal body forbidden start (suc n))
        (λ c h. (h.0, h.1, omega (arith, h.2), h.3)) _ (candidates-Legal body forbidden start n) in
    elim (Bool-cases ((rank_at body (start + n) == 0) || ranges_contain forbidden (start + n))) [
      | inl e ↦ rw (e, candidates) rest
      | inr e ↦
          let legal : ranges_contain forbidden (start + n) ≡ false = (||-eq-false _ _ e).1 in
          rw (e, candidates) ((legal, omega arith, omega arith, refl), rest)
    ]

pub best-All :
    (P : Candidate → Type 0) (c : Candidate) (cs : List Candidate) → P c → All P cs → P (best c cs)
unfolding best
best-All P c [] h k = h
best-All P c (d ∷ cs) h k = elim (Bool-cases (comes_before d c)) [
  | inl e ↦ rw (e, best) (best-All P d cs k.0 k.1)
  | inr e ↦ rw (e, best) (best-All P c cs h k.1)
]

pick-cases :
    (P : ℕ → Type 0) (cs : List Candidate) (target : ℕ)
    → P target
    → All (λ c. P c.offset) cs
    → P (pick cs target)
unfolding pick
pick-cases P [] target h k = h
pick-cases P (c ∷ cs) target h k = best-All (λ d. P d.offset) c cs k.0 k.1

pub window_start-bounds :
    (start target : ℕ)
    → start < target
    → (start < window_start start target) × (window_start start target ≤ target)
unfolding window_start
window_start-bounds start target h = (omega arith, omega arith)

-- A legal cut: after the start, at most at the end, and inside no forbidden range unless the text
-- ends there.
pub record IsCut (body : Text) (start : ℕ) (forbidden : List Range) (b : ℕ) : Type 0 where
  pub after : start < b
  pub within_body : b ≤ length body
  pub beside : (b ≡ length body) ⊎ All (Beside b) forbidden

module _ (body : Text) (start target : ℕ) (forbidden : List Range) where
  IsCut-past :
      (s e : ℕ)
      → start < target
      → target ≤ length body
      → Apart forbidden
      → range_at forbidden target ≡ some (s, e)
      → IsCut body start forbidden (min (length body) e)
  IsCut-past s e h k a r =
      let hit : target < e = within-end s e target (range_at-within forbidden target (s, e) r) in
      elim (Bool-cases (leb (length body) e)) [
        | inl p ↦
            let end : min (length body) e ≡ length body = ground arith in
            record { after = omega arith; within_body = omega arith; beside = inl end }
        | inr p ↦
            let end : min (length body) e ≡ e = ground arith in
            record {
              after = omega arith;
              within_body = omega arith;
              beside = inr (rw end (range_at-Beside forbidden target s e a r));
            }
      ]

  IsCut-candidate :
      (n : ℕ) (c : Candidate)
      → target ≤ length body
      → start < target
      → start < n
      → n ≤ target
      → Legal body forbidden n (target + 1 - n) c
      → IsCut body start forbidden c.offset
  unfolding Legal
  IsCut-candidate n c k h p q l = record {
    after = omega (arith, l.1);
    within_body = omega (arith, l.2);
    beside = inr (ranges_contain-Beside forbidden c.offset l.0);
  }

  IsCut-target :
      start < target
      → target ≤ length body
      → range_at forbidden target ≡ none
      → IsCut body start forbidden target
  IsCut-target h k r = record {
    after = h;
    within_body = k;
    beside = inr (ranges_contain-Beside forbidden target (range_at-none forbidden target r));
  }

-- With forbidden ranges apart and a target after the start and within the text, the offset that
-- `findBoundary` returns lies after the start, within the text, and strictly inside no forbidden range
-- unless it is the text's end.
pub find_boundary-IsCut :
    (body : Text) (start target : ℕ) (forbidden : List Range)
    → start < target
    → target ≤ length body
    → Apart forbidden
    → IsCut body start forbidden (find_boundary body start target forbidden)
unfolding find_boundary
find_boundary-IsCut body start target forbidden h k a =
    let window = window_start start target in
    let bounds = window_start-bounds start target h in
    elim (Option-cases (range_at forbidden target)) [
      | inl e ↦
          rw (e, find_boundary)
            (pick-cases (IsCut body start forbidden) _ target
              (IsCut-target body start target forbidden h k e)
              (All-map (Legal body forbidden window (target + 1 - window))
                (λ c. IsCut body start forbidden c.offset)
                (λ c. IsCut-candidate body start target forbidden window c k h bounds.0 bounds.1) _
                (candidates-Legal body forbidden window (target + 1 - window))))
      | inr ((s, t), e) ↦ rw (e, find_boundary) (IsCut-past body start target forbidden s t h k a e)
    ]
