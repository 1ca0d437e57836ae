-- ===== src/Fusion.antt =====
-- `rrfFuse` of lib/retrieval.ts: reciprocal rank fusion.
-- JavaScript's numbers other than NaN are a parameter: what the code does with scores, and the laws of
-- `<` (a difference of finite doubles is zero or has the sign of the comparison). The fusion adds
-- positive numbers, which gives no NaN; a score from outside, which may be one, is an `Option`.
mod Sorting
pub mod Scores
pub mod Laws
use priority_kb.Base.{
  Text, text_eq, ℕ, zero, suc, ◌+◌, ◌==◌, ltb, leb, Bool, true, false, ◌&&◌, ◌||◌, not, List, [],
  ◌∷◌, ◌++◌, map, if◌then◌else◌, take, ◌≡◌,
}

pub record Num : Type 1 where
  pub F : Type 0
  pub zero_num : F
  pub add : F → F → F
  -- 1 / n
  pub recip : ℕ → F
  pub lt : F → F → Bool
  pub is_finite : F → Bool
  -- `x.toFixed(digits)`
  pub to_fixed : F → ℕ → Text
  pub lt_asym : (x y : F) → lt x y ≡ true → lt y x ≡ false
  pub lt_neg_trans : (x y z : F) → lt x y ≡ false → lt y z ≡ false → lt x z ≡ false

pub record RrfLane : Type 0 where
  pub name : Text
  pub ranked_entry_ids : List Text

-- An entry of the map `acc`, in insertion order.
pub record Acc (F : Type 0) : Type 0 where
  pub entry_id : Text
  pub score : F
  pub first_lane_idx : ℕ
  pub first_lane_rank : ℕ

pub record RrfFusedEntry (F : Type 0) : Type 0 where
  pub entry_id : Text
  pub score : F

pub data Fused (F : Type 0) : Type 0 where
  fused : List (RrfFusedEntry F) → Fused F
  bad_k bad_limit : Fused F

module _ (num : Num) where
  open num use {F, add, recip, lt}

  unfoldable pub contribute : Text → ℕ → ℕ → F → List (Acc F) → List (Acc F)
  contribute id lane rank c [] =
      record { entry_id = id; score = c; first_lane_idx = lane; first_lane_rank = rank } ∷ []
  contribute id lane rank c (a ∷ acc) =
      if text_eq a.entry_id id
      then record a { score = add a.score c } ∷ acc
      else a ∷ contribute id lane rank c acc

  -- The inner loop, from position `i`.
  unfoldable pub lane_loop : ℕ → ℕ → ℕ → List Text → List (Acc F) → List (Acc F)
  lane_loop k lane i [] acc = acc
  lane_loop k lane i (id ∷ ids) acc =
      lane_loop k lane (i + 1) ids (contribute id lane (i + 1) (recip (k + (i + 1))) acc)

  unfoldable pub lanes_loop : ℕ → ℕ → List RrfLane → List (Acc F) → List (Acc F)
  lanes_loop k lane [] acc = acc
  lanes_loop k lane (l ∷ ls) acc =
      lanes_loop k (lane + 1) ls (lane_loop k lane 0 l.ranked_entry_ids acc)

  -- The comparator orders `a` before `b`.
  unfoldable pub before : Acc F → Acc F → Bool
  before a b =
      if lt b.score a.score
      then true
      else if lt a.score b.score
      then false
      else if ltb a.first_lane_idx b.first_lane_idx
      then true
      else if ltb b.first_lane_idx a.first_lane_idx
      then false
      else ltb a.first_lane_rank b.first_lane_rank

  -- `Array.prototype.sort` is stable: an element goes in front of those it is not ordered behind.
  unfoldable pub insert_sorted : Acc F → List (Acc F) → List (Acc F)
  insert_sorted x [] = x ∷ []
  insert_sorted x (y ∷ ys) = if before y x then y ∷ insert_sorted x ys else x ∷ y ∷ ys

  unfoldable pub sort : List (Acc F) → List (Acc F)
  sort [] = []
  sort (x ∷ xs) = insert_sorted x (sort xs)

  abbrev pub project : Acc F → RrfFusedEntry F
  project a = record { entry_id = a.entry_id; score = a.score }

  abbrev in_bounds : ℕ → Bool
  in_bounds n = leb 1 n && leb n 1000

  unfoldable pub rrf_fuse : List RrfLane → ℕ → ℕ → Fused F
  rrf_fuse lanes k limit =
      if not (in_bounds k)
      then bad_k
      else if not (in_bounds limit)
      then bad_limit
      else fused (map project (take limit (sort (lanes_loop k 0 lanes []))))
