-- ===== src/Pipeline/Stages.antt =====
-- `retrievePipeline`: the stages before synthesis, composed.
use priority_kb.Base.{
  Text, lit, ℕ, ◌+◌, Bool, true, false, not, ◌||◌, List, [], ◌∷◌, map, Option, none, some,
  if◌then◌else◌, length, take,
}
use priority_kb.Auth.{Role, sensitivity_allowed_for_role}
use priority_kb.Degraded.{no_keyword_match_under_embed_outage}
use priority_kb.QueryChat.{candidates, no_content}
use priority_kb.Fusion.{Num, RrfFusedEntry, Fused, fused, rrf_fuse}
use priority_kb.Fusion.Laws.{entry_ids}
use priority_kb.SynthInput.{SynthInputChunk}
use priority_kb.Rerank.{
  RerankBoundaryEntry, Joined, joined, with_score, join_reranked_to_synth_input,
}
use priority_kb.Rerank.Laws.{chunk_ids}
use priority_kb.Pipeline.Types.{
  AnnCandidate, HydratedEntryRow, PipelineDeps, Run, emit, return, attempt, await, checked, branch,
}
use priority_kb.Pipeline.Hydrate.{ordered_rows, fetch_bodies, boundaries_of, candidate_of}
use priority_kb.Pipeline.Synthesis.{Lanes, is_empty, build_base, reason_of, synthesis}

abbrev pub top_k_ann : ℕ
top_k_ann = 20

abbrev pub top_k_ann_inner : ℕ
top_k_ann_inner = 50

abbrev pub top_k_keyword : ℕ
top_k_keyword = 20

abbrev pub top_n_synth : ℕ
top_n_synth = 5

abbrev pub ann_ids : List AnnCandidate → List Text
ann_ids [] = []
ann_ids (a ∷ as') = a.entry_id ∷ ann_ids as'

abbrev pub bodies : List RerankBoundaryEntry → List Text
bodies [] = []
bodies (b ∷ bs) = b.body ∷ bodies bs

abbrev total_length : {F : Type 0} → List (SynthInputChunk F) → ℕ
total_length [] = 0
total_length (c ∷ cs) = length c.body + total_length cs

abbrev pub chunks_of : {F : Type 0} → Joined F → Option (List (SynthInputChunk F))
chunks_of (joined chunks) = some chunks
chunks_of e = none

abbrev pub fused_of : {F : Type 0} → Fused F → Option (List (RrfFusedEntry F))
fused_of (fused out) = some out
fused_of e = none

module _ (num : Num) {V : Type 0} (deps : PipelineDeps num.F V) (query : Text) (role : Role) where
  open num use {F, zero_num}

  -- The exit of eval mode.
  unfoldable pub without_synth : Lanes → Bool → List (SynthInputChunk F) → Run
  without_synth l rerank_ok chunks =
      let base = build_base num deps query role l 0 0 in
      return (record base {
        reranked_ids = chunk_ids chunks;
        tokens = record {
          embed = l.embed_tokens;
          keyword = 0;
          rerank_input = total_length chunks;
          synth_input = 0;
          synth_output = 0;
        };
        degraded = not l.embed_ok || not rerank_ok;
        degraded_reason = reason_of num deps query role l rerank_ok true;
      })

  unfoldable pub after_rerank : Lanes → Bool → List (SynthInputChunk F) → Run
  after_rerank l rerank_ok chunks =
      branch deps.synth (without_synth l rerank_ok chunks)
        (synthesis num deps query role l rerank_ok chunks)

  abbrev pub unranked : RerankBoundaryEntry → SynthInputChunk F
  unranked b = with_score num b zero_num

  -- Stage C.
  unfoldable pub rerank_stage : Lanes → List RerankBoundaryEntry → Run
  rerank_stage l boundaries =
      attempt (deps.rerank query (bodies boundaries) top_n_synth)
        (λ ranking.
          checked (chunks_of (join_reranked_to_synth_input num ranking boundaries top_n_synth))
            (after_rerank l true))
        (λ m. after_rerank l false (map unranked (take top_n_synth boundaries)))

  -- The boundaries, and the event that shows the candidates.
  unfoldable pub candidates_stage : Lanes → List AnnCandidate → List HydratedEntryRow → Run
  candidates_stage l ann rows =
      let ordered = ordered_rows rows (take top_n_synth l.fused_ids) in
      await (fetch_bodies deps.fetch_chunk_slices_fn l.embed_ok ann rows ordered) (λ found.
        checked (boundaries_of deps.representative found ordered) (λ boundaries.
          emit (candidates (map (candidate_of deps.is_mark) boundaries))
            (rerank_stage l boundaries)))

  unfoldable pub nothing_found : Lanes → Run
  nothing_found l =
      let base = build_base num deps query role l 0 0 in
      if not l.embed_ok
      then emit (no_content (some no_keyword_match_under_embed_outage)) (
          return (record base {
            degraded = true;
            degraded_reason = some no_keyword_match_under_embed_outage;
          }))
      else emit (no_content none) (return base)

  unfoldable pub hydrate_stage : Lanes → List AnnCandidate → Run
  hydrate_stage l ann =
      if is_empty l.fused_ids
      then nothing_found l
      else await (deps.fetch_entries_fn (take top_n_synth l.fused_ids)) (candidates_stage l ann)

  -- The fusion of both lanes after a successful embedding.
  unfoldable pub fuse_stage : ℕ → List AnnCandidate → List Text → Run
  fuse_stage tokens ann keyword =
      let lanes =
        record { name = lit "ann"; ranked_entry_ids = ann_ids ann }
        ∷ record { name = lit "keyword"; ranked_entry_ids = keyword }
        ∷ [] in
      checked (fused_of (rrf_fuse num lanes deps.rrf_k top_k_ann)) (λ out.
        hydrate_stage
          (record {
            embed_ok = true;
            embed_tokens = tokens;
            ann_ids = ann_ids ann;
            keyword_ids = keyword;
            fused_ids = entry_ids out;
          })
          ann)

  -- Both lanes. Where both fail, the source throws the error that came first; here the first
  -- lane's.
  unfoldable pub lanes_stage : V → ℕ → Run
  lanes_stage vector tokens =
      await
        (deps.ann_fn vector (sensitivity_allowed_for_role role) deps.embedder_model
          deps.embedder_version top_k_ann top_k_ann_inner)
        (λ ann.
          await (deps.keyword_fn query (sensitivity_allowed_for_role role) top_k_keyword)
            (fuse_stage tokens ann))

  -- The keyword lane alone, in its own order.
  unfoldable pub keyword_stage : Run
  keyword_stage =
      await (deps.keyword_fn query (sensitivity_allowed_for_role role) top_k_keyword) (λ keyword.
        hydrate_stage
          (record {
            embed_ok = false;
            embed_tokens = 0;
            ann_ids = [];
            keyword_ids = keyword;
            fused_ids = take top_k_ann keyword;
          })
          [])

  unfoldable pub retrieve_pipeline : Run
  retrieve_pipeline =
      attempt (deps.embed query) (λ e. lanes_stage e.vector e.tokens_used) (λ m. keyword_stage)
