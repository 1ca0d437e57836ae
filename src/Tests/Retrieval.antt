-- ===== src/Tests/Retrieval.antt =====
-- Fusion, reranking, citations and access.
use priority_kb.Base.{Text, lit, ℕ, ◌≤◌, take, List, [], ◌∷◌, none, some, ◌≡◌, ◌↔◌, refl, text_eq}
use priority_kb.Auth.{with_admin, handled, public}
use priority_kb.Auth.Laws.{with_admin-handled_iff}
use priority_kb.Fusion.{
  RrfLane, RrfFusedEntry, fused, rrf_fuse, lanes_loop, lane_loop, contribute, sort, insert_sorted,
  before,
}
use priority_kb.Fusion.Laws.{FusesLanes, rrf_fuse_lem}
use priority_kb.Rerank.{
  RerankBoundaryEntry, Ranked, joined, join_reranked_to_synth_input, join_from, boundary_at,
  seen_index, finite_score, with_score,
}
use priority_kb.Rerank.Laws.{Joins, join_reranked_to_synth_input-Joins}
use priority_kb.Citations.Validate.{validate_citations, valid}
use priority_kb.Citations.Laws.{IsCited, validate_citations-valid_iff}
use priority_kb.Tests.Fixtures.{millionths, id_a, id_b, answer_text}

abbrev two_lanes : List RrfLane
two_lanes =
    record { name = lit "ann"; ranked_entry_ids = lit "x" ∷ lit "y" ∷ [] }
    ∷ record { name = lit "keyword"; ranked_entry_ids = lit "y" ∷ [] }
    ∷ []

-- "y" has 1/62 + 1/61, "x" only 1/61.
abbrev best : List (RrfFusedEntry ℕ)
best =
    record { entry_id = lit "y"; score = 32522 } ∷ record { entry_id = lit "x"; score = 16393 } ∷ []

two_lanes_fused : rrf_fuse millionths two_lanes 60 5 ≡ fused best
unfolding rrf_fuse lanes_loop lane_loop contribute sort insert_sorted before lit text_eq
two_lanes_fused = refl

rrf_fuse_lem_example : FusesLanes millionths two_lanes 60 5 best
rrf_fuse_lem_example = rrf_fuse_lem millionths two_lanes 60 5 best two_lanes_fused

abbrev entry : Text → RerankBoundaryEntry
entry id = record {
  entry_id = id;
  title = [];
  body = [];
  category = [];
  tags = [];
  source_pointer = none;
  last_verified_at = [];
  sensitivity = public;
}

abbrev ranking : List (Ranked ℕ)
ranking = record { index = some 1; score = some 9 } ∷ record { index = some 0; score = some 4 } ∷ []

ranking-joined :
    join_reranked_to_synth_input millionths ranking (entry id_a ∷ entry id_b ∷ []) 5
    ≡ joined (with_score millionths (entry id_b) 9 ∷ with_score millionths (entry id_a) 4 ∷ [])
unfolding join_reranked_to_synth_input join_from boundary_at seen_index finite_score
ranking-joined = refl

join_reranked_to_synth_input-Joins_example :
    (1 ≤ 5)
    × (5 ≤ 1000)
    × Joins millionths
        (entry id_a ∷ entry id_b ∷ [])
        (take 5 ranking)
        (with_score millionths (entry id_b) 9 ∷ with_score millionths (entry id_a) 4 ∷ [])
join_reranked_to_synth_input-Joins_example =
    join_reranked_to_synth_input-Joins millionths ranking (entry id_a ∷ entry id_b ∷ []) 5 _
      ranking-joined

validate_citations-valid_iff_example :
    (validate_citations answer_text (id_a ∷ [])
      ≡ valid (id_a ∷ []) (lit "On Monday [11111111-1111-4111-8111-111111111111]."))
    ↔ IsCited answer_text
        (id_a ∷ [])
        (id_a ∷ [])
        (lit "On Monday [11111111-1111-4111-8111-111111111111].")
validate_citations-valid_iff_example = validate_citations-valid_iff answer_text (id_a ∷ []) _ _

abbrev page : Unit {0} → Text
page u = lit "page"

with_admin-handled_iff_example :
    (with_admin (some (lit "admin")) page ≡ handled (lit "page"))
    ↔ ((some (lit "admin") ≡ some (lit "admin")) × (page tt ≡ lit "page"))
with_admin-handled_iff_example = with_admin-handled_iff (some (lit "admin")) page (lit "page")
