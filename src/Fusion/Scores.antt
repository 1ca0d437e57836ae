-- ===== src/Fusion/Scores.antt =====
-- What the two loops of `rrfFuse` leave in the map.
use priority_kb.Base.{
  Text, text_eq, text_eq→eq, text_eq_refl, text_eq_comm, ℕ, ◌+◌, false, ◌||◌, List, [], ◌∷◌, ◌++◌,
  if◌then◌else◌, Option, none, some, ◌≡◌, refl, ◌∙◌, ap, All, includes, includes-append, Distinct,
  arith,
}
use priority_kb.Fusion.{Num, RrfLane, Acc, contribute, lane_loop, lanes_loop}
use priority_kb.Fusion.Sorting.{ids}

-- All ids of the lanes, lane after lane.
unfoldable pub lane_ids : List RrfLane → List Text
lane_ids [] = []
lane_ids (l ∷ ls) = l.ranked_entry_ids ++ lane_ids ls

module _ (num : Num) where
  open num use {F, add, recip}

  -- The entry's score in the map.
  unfoldable pub score_of : Text → List (Acc F) → Option F
  score_of id [] = none
  score_of id (a ∷ acc) = if text_eq a.entry_id id then some a.score else score_of id acc

  -- One more term of a sum that starts with its first term.
  abbrev pub plus : Option F → F → Option F
  plus none c = some c
  plus (some s) c = some (add s c)

  -- The terms 1 / (k + rank) of one id, added in the order of lanes and ranks.
  unfoldable pub lane_sum : ℕ → ℕ → Text → List Text → Option F → Option F
  lane_sum k i id [] s = s
  lane_sum k i id (x ∷ xs) s =
      lane_sum k (i + 1) id xs (if text_eq x id then plus s (recip (k + (i + 1))) else s)

  unfoldable pub rrf_sum : ℕ → Text → List RrfLane → Option F → Option F
  rrf_sum k id [] s = s
  rrf_sum k id (l ∷ ls) s = rrf_sum k id ls (lane_sum k 0 id l.ranked_entry_ids s)

  score_of-contribute :
      (id t : Text) (lane rank : ℕ) (c : F) (acc : List (Acc F))
      → score_of t (contribute num id lane rank c acc)
        ≡ (if text_eq id t then plus (score_of t acc) c else score_of t acc)
  unfolding contribute score_of
  score_of-contribute id t lane rank c [] = ground arith
  score_of-contribute id t lane rank c (a ∷ acc) = ground (
    arith,
    score_of-contribute id t lane rank c acc,
    text_eq→eq a.entry_id id,
    text_eq→eq a.entry_id t,
    text_eq→eq id t,
    text_eq_refl t,
  )

  score_of-lane_loop :
      (k lane i : ℕ) (xs : List Text) (acc : List (Acc F)) (t : Text)
      → score_of t (lane_loop num k lane i xs acc) ≡ lane_sum k i t xs (score_of t acc)
  unfolding lane_loop lane_sum
  score_of-lane_loop k lane i [] acc t = refl
  score_of-lane_loop k lane i (x ∷ xs) acc t =
      score_of-lane_loop k lane (i + 1) xs _ t
      ∙ ap (lane_sum k (i + 1) t xs) (score_of-contribute x t lane (i + 1) _ acc)

  pub score_of-lanes_loop :
      (k lane : ℕ) (ls : List RrfLane) (acc : List (Acc F)) (t : Text)
      → score_of t (lanes_loop num k lane ls acc) ≡ rrf_sum k t ls (score_of t acc)
  unfolding lanes_loop rrf_sum
  score_of-lanes_loop k lane [] acc t = refl
  score_of-lanes_loop k lane (l ∷ ls) acc t =
      score_of-lanes_loop k (lane + 1) ls _ t
      ∙ ap (rrf_sum k t ls) (score_of-lane_loop k lane 0 l.ranked_entry_ids acc t)

  includes-contribute :
      (id t : Text) (lane rank : ℕ) (c : F) (acc : List (Acc F))
      → includes (ids (contribute num id lane rank c acc)) t
        ≡ (includes (ids acc) t || text_eq id t)
  unfolding contribute includes
  includes-contribute id t lane rank c [] = ground arith
  includes-contribute id t lane rank c (a ∷ acc) =
      ground (arith, includes-contribute id t lane rank c acc, text_eq→eq a.entry_id id)

  includes-lane_loop :
      (k lane i : ℕ) (xs : List Text) (acc : List (Acc F)) (t : Text)
      → includes (ids (lane_loop num k lane i xs acc)) t ≡ (includes (ids acc) t || includes xs t)
  unfolding lane_loop includes
  includes-lane_loop k lane i [] acc t = ground arith
  includes-lane_loop k lane i (x ∷ xs) acc t = ground (
    arith,
    includes-lane_loop k lane (i + 1) xs (contribute num x lane (i + 1) (recip (k + (i + 1))) acc)
        t,
    includes-contribute x t lane (i + 1) (recip (k + (i + 1))) acc,
  )

  pub includes-lanes_loop :
      (k lane : ℕ) (ls : List RrfLane) (acc : List (Acc F)) (t : Text)
      → includes (ids (lanes_loop num k lane ls acc)) t
        ≡ (includes (ids acc) t || includes (lane_ids ls) t)
  unfolding lanes_loop lane_ids includes
  includes-lanes_loop k lane [] acc t = ground arith
  includes-lanes_loop k lane (l ∷ ls) acc t = ground (
    arith,
    includes-lanes_loop k (lane + 1) ls (lane_loop num k lane 0 l.ranked_entry_ids acc) t,
    includes-lane_loop k lane 0 l.ranked_entry_ids acc t,
    includes-append l.ranked_entry_ids (lane_ids ls) t,
  )

  contribute-Distinct :
      (id : Text) (lane rank : ℕ) (c : F) (acc : List (Acc F))
      → Distinct (ids acc)
      → Distinct (ids (contribute num id lane rank c acc))
  unfolding contribute includes
  contribute-Distinct id lane rank c [] h = (refl, tt)
  contribute-Distinct id lane rank c (a ∷ acc) h = ground (
    arith,
    contribute-Distinct id lane rank c acc h.1,
    includes-contribute id a.entry_id lane rank c acc,
    text_eq_comm a.entry_id id,
  )

  lane_loop-Distinct :
      (k lane i : ℕ) (xs : List Text) (acc : List (Acc F))
      → Distinct (ids acc)
      → Distinct (ids (lane_loop num k lane i xs acc))
  unfolding lane_loop
  lane_loop-Distinct k lane i [] acc h = h
  lane_loop-Distinct k lane i (x ∷ xs) acc h =
      lane_loop-Distinct k lane (i + 1) xs _ (contribute-Distinct x lane (i + 1) _ acc h)

  pub lanes_loop-Distinct :
      (k lane : ℕ) (ls : List RrfLane) (acc : List (Acc F))
      → Distinct (ids acc)
      → Distinct (ids (lanes_loop num k lane ls acc))
  unfolding lanes_loop
  lanes_loop-Distinct k lane [] acc h = h
  lanes_loop-Distinct k lane (l ∷ ls) acc h =
      lanes_loop-Distinct k (lane + 1) ls _ (lane_loop-Distinct k lane 0 l.ranked_entry_ids acc h)

  -- In a map with distinct keys each entry has the score that a lookup finds.
  pub own_score :
      (acc : List (Acc F))
      → Distinct (ids acc)
      → All (λ a. score_of a.entry_id acc ≡ some a.score) acc
  unfolding score_of includes
  own_score [] h = tt
  own_score (a ∷ acc) h =
      (ground (arith, text_eq_refl a.entry_id), later acc (own_score acc h.1) h.0)
    where
      later :
          (xs : List (Acc F))
          → All (λ x. score_of x.entry_id acc ≡ some x.score) xs
          → includes (ids xs) a.entry_id ≡ false
          → All (λ x. score_of x.entry_id (a ∷ acc) ≡ some x.score) xs
      later [] h k = tt
      later (x ∷ xs) h k =
          (ground (arith, text_eq_comm a.entry_id x.entry_id, h.0), later xs h.1 (ground arith))
