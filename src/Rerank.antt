-- ===== src/Rerank.antt =====
-- `joinRerankedToSynthInput` of lib/retrieval-rerank-input.ts.
pub mod Laws
use priority_kb.Base.{
  Text, ℕ, zero, suc, ◌+◌, ◌==◌, ltb, leb, min, Bool, true, false, not, ◌&&◌, ◌||◌, List, [], ◌∷◌,
  ◌++◌, Option, none, some, if◌then◌else◌, length, take, get_elem?,
}
use priority_kb.Auth.{Sensitivity}
use priority_kb.Fusion.{Num}
use priority_kb.SynthInput.{SynthInputChunk}

pub record RerankBoundaryEntry : Type 0 where
  pub entry_id : Text
  pub title : Text
  pub body : Text
  pub category : Text
  pub tags : List Text
  pub source_pointer : Option Text
  pub last_verified_at : Text
  pub sensitivity : Sensitivity

-- An index that is no integer, or negative, is `none`, and so is a score that is NaN.
pub record Ranked (F : Type 0) : Type 0 where
  pub index : Option ℕ
  pub score : Option F

pub data Joined (F : Type 0) : Type 0 where
  joined : List (SynthInputChunk F) → Joined F
  bad_top_n index_out_of_range duplicate_index score_not_finite : Joined F

unfoldable pub seen_index : List ℕ → ℕ → Bool
seen_index [] i = false
seen_index (j ∷ js) i = (j == i) || seen_index js i

-- `boundaries[r.index]`, if the index is in range.
unfoldable pub boundary_at : List RerankBoundaryEntry → Option ℕ → Option (ℕ × RerankBoundaryEntry)
boundary_at bs none = none
boundary_at bs (some i) = elim (get_elem? bs i) [ none ↦ none | some b ↦ some (i, b) ]

module _ (num : Num) where
  open num use {F, is_finite}

  abbrev pub with_score : RerankBoundaryEntry → F → SynthInputChunk F
  with_score b score = record {
    entry_id = b.entry_id;
    title = b.title;
    body = b.body;
    category = b.category;
    tags = b.tags;
    source_pointer = b.source_pointer;
    last_verified_at = b.last_verified_at;
    sensitivity = b.sensitivity;
    score = score;
  }

  abbrev pub push_chunk : SynthInputChunk F → Joined F → Joined F
  push_chunk c (joined out) = joined (c ∷ out)
  push_chunk c e = e

  -- A score that passes `Number.isFinite`.
  unfoldable pub finite_score : Option F → Option F
  finite_score none = none
  finite_score (some x) = if is_finite x then some x else none

  unfoldable pub join_from : List RerankBoundaryEntry → List ℕ → List (Ranked F) → Joined F
  join_from boundaries seen [] = joined []
  join_from boundaries seen (r ∷ rs) = elim (boundary_at boundaries r.index) [
    | none ↦ index_out_of_range
    | some (i, b) ↦ if seen_index seen i then duplicate_index else elim (finite_score r.score) [
      | none ↦ score_not_finite
      | some x ↦ push_chunk (with_score b x) (join_from boundaries (i ∷ seen) rs)
    ]
  ]

  unfoldable pub join_reranked_to_synth_input :
      List (Ranked F) → List RerankBoundaryEntry → ℕ → Joined F
  join_reranked_to_synth_input ranking boundaries top_n =
      if not (leb 1 top_n && leb top_n 1000)
      then bad_top_n
      else join_from boundaries [] (take (min top_n (length ranking)) ranking)
