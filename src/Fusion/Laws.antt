-- ===== src/Fusion/Laws.antt =====
-- What `rrfFuse` returns.
use priority_kb.Base.{
  Text, ℕ, zero, suc, ◌≤◌, ◌<◌, min, false, List, [], ◌∷◌, map, none, some, ◌≡◌, refl, sym, ◌∙◌, ap,
  All, All-map, subst, Subset_of, includes, Subset, Distinct, Distinct-take, length, take, take_all,
  arith, Subset-take, Subset-trans,
}
use priority_kb.Fusion.{
  Num, RrfLane, Acc, RrfFusedEntry, fused, before, sort, lanes_loop, project, rrf_fuse,
}
use priority_kb.Fusion.Sorting.{
  ids, IsSorted, All-sort, sort-IsSorted, includes-sort, sort-Distinct,
}
use priority_kb.Fusion.Scores.{
  lane_ids, score_of, rrf_sum, score_of-lanes_loop, includes-lanes_loop, lanes_loop-Distinct,
  own_score,
}

module _ {F : Type 0} where
  abbrev pub entry_ids : List (RrfFusedEntry F) → List Text
  entry_ids [] = []
  entry_ids (e ∷ es) = e.entry_id ∷ entry_ids es

module _ (num : Num) where
  open num use {F, lt}

  -- No later entry has a greater score.
  abbrev pub IsDescending : List (RrfFusedEntry F) → Type 0
  IsDescending [] = Unit
  IsDescending (x ∷ xs) = All (λ y. lt x.score y.score ≡ false) xs × IsDescending xs

  abbrev rows : List RrfLane → ℕ → List (Acc F)
  rows lanes k = sort num (lanes_loop num k 0 lanes [])

  entry_ids-project :
      (n : ℕ) (xs : List (Acc F)) → entry_ids (map (project num) (take n xs)) ≡ take n (ids xs)
  entry_ids-project zero xs = refl
  entry_ids-project (suc n) [] = refl
  entry_ids-project (suc n) (x ∷ xs) = ap (◌∷◌ x.entry_id) (entry_ids-project n xs)

  length-project :
      (n : ℕ) (xs : List (Acc F)) → length (map (project num) (take n xs)) ≡ min n (length xs)
  length-project zero xs = omega arith
  length-project (suc n) [] = omega arith
  length-project (suc n) (x ∷ xs) = omega (arith, length-project n xs)

  All-project :
      (P : RrfFusedEntry F → Type 0) (n : ℕ) (xs : List (Acc F))
      → All (λ a. P (project num a)) xs
      → All P (map (project num) (take n xs))
  All-project P zero xs h = tt
  All-project P (suc n) [] h = tt
  All-project P (suc n) (x ∷ xs) h = (h.0, All-project P n xs h.1)

  not_behind :
      (x : Acc F) (ys : List (Acc F))
      → All (λ y. before num y x ≡ false) ys
      → All (λ y. lt x.score y.score ≡ false) ys
  unfolding before
  not_behind x [] h = tt
  not_behind x (y ∷ ys) h = (ground (arith, h.0), not_behind x ys h.1)

  IsDescending-project :
      (n : ℕ) (xs : List (Acc F)) → IsSorted num xs → IsDescending (map (project num) (take n xs))
  IsDescending-project zero xs h = tt
  IsDescending-project (suc n) [] h = tt
  IsDescending-project (suc n) (x ∷ xs) h = (
    All-project (λ e. lt x.score e.score ≡ false) n xs (not_behind x xs h.0),
    IsDescending-project n xs h.1,
  )

  rows-Distinct : (lanes : List RrfLane) (k : ℕ) → Distinct (ids (rows lanes k))
  rows-Distinct lanes k = sort-Distinct num _ (lanes_loop-Distinct num k 0 lanes [] tt)

  rows-includes :
      (lanes : List RrfLane) (k : ℕ) (t : Text)
      → includes (ids (rows lanes k)) t ≡ includes (lane_ids lanes) t
  unfolding includes
  rows-includes lanes k t = includes-sort num _ t ∙ includes-lanes_loop num k 0 lanes [] t

  rows-scores :
      (lanes : List RrfLane) (k : ℕ)
      → All (λ a. rrf_sum num k a.entry_id lanes none ≡ some a.score) (rows lanes k)
  unfolding score_of
  rows-scores lanes k = All-sort num _ _ (
      All-map _ _ (λ a e. sym (score_of-lanes_loop num k 0 lanes [] a.entry_id) ∙ e) _
        (own_score num _ (lanes_loop-Distinct num k 0 lanes [] tt)))

  abbrev pub FusesLanes : List RrfLane → ℕ → ℕ → List (RrfFusedEntry F) → Type 0
  FusesLanes lanes k limit out =
      Distinct (entry_ids out)
      × Subset (entry_ids out) (lane_ids lanes)
      × (length out ≤ limit)
      × All (λ e. rrf_sum num k e.entry_id lanes none ≡ some e.score) out
      × IsDescending out
      × (length out < limit → Subset (lane_ids lanes) (entry_ids out))

  result-FusesLanes :
      (lanes : List RrfLane) (k limit : ℕ)
      → FusesLanes lanes k limit (map (project num) (take limit (rows lanes k)))
  result-FusesLanes lanes k limit = (
    rw (entry_ids-project limit (rows lanes k)) (Distinct-take limit _ (rows-Distinct lanes k)),
    rw (entry_ids-project limit (rows lanes k)) (
        Subset-trans _ _ _ (Subset-take limit (ids (rows lanes k)))
          (Subset_of _ _ (λ t i. sym (rows-includes lanes k t) ∙ i))),
    omega (arith, length-project limit (rows lanes k)),
    All-project _ limit (rows lanes k) (rows-scores lanes k),
    IsDescending-project limit (rows lanes k) (sort-IsSorted num _),
    λ h. rw (entry_ids-project limit (rows lanes k)) (
        rw (take_all limit (ids (rows lanes k)) (fits h))
          (Subset_of _ _ (λ t i. rows-includes lanes k t ∙ i))),
  )
    where
      length-ids : (xs : List (Acc F)) → length (ids xs) ≡ length xs
      length-ids [] = refl
      length-ids (x ∷ xs) = ap suc (length-ids xs)

      fits :
          length (map (project num) (take limit (rows lanes k))) < limit
          → length (ids (rows lanes k)) ≤ limit
      fits h = omega (arith, length-project limit (rows lanes k), length-ids (rows lanes k))

  -- A result has no id twice, only ids of the lanes, and at most `limit` of them. Each entry's
  -- score is the sum of 1 / (k + rank) over the places where its id stands, in their order, and no
  -- entry comes before one with a greater score. With room left below the limit every id of the
  -- lanes is in the result.
  pub rrf_fuse_lem :
      (lanes : List RrfLane) (k limit : ℕ) (out : List (RrfFusedEntry F))
      → rrf_fuse num lanes k limit ≡ fused out
      → FusesLanes lanes k limit out
  unfolding rrf_fuse
  rrf_fuse_lem lanes k limit out h =
      let same : map (project num) (take limit (rows lanes k)) ≡ out = ground arith in
      subst (FusesLanes lanes k limit) same (result-FusesLanes lanes k limit)
