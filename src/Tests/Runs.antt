-- ===== src/Tests/Runs.antt =====
-- Runs of the pipeline.
use priority_kb.Base.{
  Bool, true, false, if◌then◌else◌, text_eq, includes, unique, trim, split_on, Text, lit, ℕ, List,
  [], ◌∷◌, some, ◌≡◌, refl,
}
use priority_kb.Auth.{user, Sensitivity, public, internal, restricted}
use priority_kb.Degraded.{rerank_unavailable, map_degraded_reason}
use priority_kb.QueryChat.{initial_query_state, start_stream, apply_event, apply_events}
use priority_kb.QueryChat.Laws.{deltas}
use priority_kb.Pipeline.Types.{Call, failed, AnnCandidate, AuditOutcome, Finish, returns, throws}
use priority_kb.Pipeline.Stages.{
  retrieve_pipeline, lanes_stage, fuse_stage, hydrate_stage, candidates_stage, rerank_stage,
  after_rerank,
}
use priority_kb.Fusion.{rrf_fuse, lanes_loop, lane_loop, contribute, sort, insert_sorted, before}
use priority_kb.Pipeline.Hydrate.{
  ordered_rows, row_by_id, fetch_bodies, relevant_chunk_ids, chunk_bodies, boundaries_of,
  boundary_body, body_for,
}
use priority_kb.Pipeline.Synthesis.{
  Lanes, synthesis, first_attempt, if_cited, answered, build_base, reason_of,
}
use priority_kb.SynthInput.{build_synth_context, render_from, render_chunk, render_lines}
use priority_kb.Citations.Validate.{
  validate_citations, parse_sources_block, check_block, check_ids, verdict,
  extract_inline_citations, repeated, ids_of,
}
use priority_kb.Citations.Blocks.{
  sources_at, find_blocks, all_blocks, normalize, strip_blocks, strip_blocks_from, find_inline,
  inline_at, is_uuid_v4,
}
use priority_kb.Pipeline.Audit.{
  Ends, IsGrounded, IsConsistent, retrieve_pipeline-IsGrounded, retrieve_pipeline-IsConsistent,
}
use priority_kb.Pipeline.Page.{
  Shows, IsVerified, IsFramed, retrieve_pipeline-IsVerified, retrieve_pipeline-IsFramed,
  retrieve_pipeline-Shows,
}
use priority_kb.Pipeline.Isolation.{NoRestricted, with_lanes, retrieve_pipeline-user_same}
use priority_kb.Pipeline.Eval.{evaluated, eval_retrieve}
use priority_kb.Pipeline.Eval.Laws.{eval_retrieve-eq-project}
use priority_kb.Tests.Fixtures.{millionths, question, synth, live}

live_answer :
    deltas (retrieve_pipeline millionths live question user).events
    ≡ lit "On Monday [11111111-1111-4111-8111-111111111111]."
unfolding retrieve_pipeline lanes_stage fuse_stage rrf_fuse lanes_loop lane_loop contribute sort
    insert_sorted before hydrate_stage candidates_stage ordered_rows row_by_id fetch_bodies
    relevant_chunk_ids chunk_bodies boundaries_of boundary_body body_for rerank_stage after_rerank
    synthesis build_synth_context render_from render_chunk render_lines first_attempt if_cited
    validate_citations parse_sources_block check_block check_ids verdict answered build_base deltas
    lit text_eq includes unique sources_at find_blocks all_blocks normalize strip_blocks
    strip_blocks_from find_inline inline_at is_uuid_v4 extract_inline_citations trim repeated
    split_on ids_of
live_answer = refl

retrieve_pipeline-IsGrounded_example :
    Ends IsGrounded (retrieve_pipeline millionths live question user).finish
retrieve_pipeline-IsGrounded_example = retrieve_pipeline-IsGrounded millionths live question user

retrieve_pipeline-IsConsistent_example :
    Ends (IsConsistent (lit "h")) (retrieve_pipeline millionths live question user).finish
retrieve_pipeline-IsConsistent_example =
    retrieve_pipeline-IsConsistent millionths live question user

retrieve_pipeline-IsVerified_example :
    IsVerified millionths live question user (retrieve_pipeline millionths live question user)
retrieve_pipeline-IsVerified_example = retrieve_pipeline-IsVerified millionths live question user

retrieve_pipeline-IsFramed_example : IsFramed (retrieve_pipeline millionths live question user)
retrieve_pipeline-IsFramed_example =
    retrieve_pipeline-IsFramed millionths live question user synth refl

retrieve_pipeline-Shows_example :
    Shows
      (apply_events
        (start_stream initial_query_state question)
        (retrieve_pipeline millionths live question user).events)
      (retrieve_pipeline millionths live question user).finish
retrieve_pipeline-Shows_example =
    retrieve_pipeline-Shows millionths live question user synth refl initial_query_state

-- The page says that the reranker was down.
live_reason :
    (apply_events
      (start_stream initial_query_state question)
      (retrieve_pipeline millionths live question user).events).degraded_reason
    ≡ some rerank_unavailable
unfolding retrieve_pipeline lanes_stage fuse_stage rrf_fuse lanes_loop lane_loop contribute sort
    insert_sorted before hydrate_stage candidates_stage ordered_rows row_by_id fetch_bodies
    relevant_chunk_ids chunk_bodies boundaries_of boundary_body body_for rerank_stage after_rerank
    synthesis build_synth_context render_from render_chunk render_lines first_attempt if_cited
    validate_citations parse_sources_block check_block check_ids verdict answered build_base lit
    text_eq includes unique sources_at find_blocks all_blocks normalize strip_blocks
    strip_blocks_from find_inline inline_at is_uuid_v4 extract_inline_citations trim repeated
    split_on ids_of reason_of map_degraded_reason apply_events apply_event start_stream
live_reason = refl

names_restricted : List Sensitivity → Bool
names_restricted [] = false
names_restricted (restricted ∷ ss) = true
names_restricted (s ∷ ss) = names_restricted ss

names_restricted-none : (ss : List Sensitivity) → NoRestricted ss → names_restricted ss ≡ false
unfolding names_restricted
names_restricted-none [] h = refl
names_restricted-none (restricted ∷ ss) h = absurd (h.0 refl)
names_restricted-none (public ∷ ss) h = names_restricted-none ss h.1
names_restricted-none (internal ∷ ss) h = names_restricted-none ss h.1

-- Lanes that fail where restricted entries are asked for.
abbrev guarded_ann : ℕ → List Sensitivity → Text → Text → ℕ → ℕ → Call (List AnnCandidate)
guarded_ann v ss m w k j =
    if names_restricted ss then failed (lit "restricted") else live.ann_fn v ss m w k j

abbrev guarded_keyword : Text → List Sensitivity → ℕ → Call (List Text)
guarded_keyword q ss k =
    if names_restricted ss then failed (lit "restricted") else live.keyword_fn q ss k

retrieve_pipeline-user_same_example :
    retrieve_pipeline millionths live question user
    ≡ retrieve_pipeline millionths
        (with_lanes millionths live question guarded_ann guarded_keyword)
        question
        user
retrieve_pipeline-user_same_example =
    retrieve_pipeline-user_same millionths live question guarded_ann guarded_keyword
      (λ v ss m w k j h. rw (names_restricted-none ss h) refl)
      (λ q ss k h. rw (names_restricted-none ss h) refl)

abbrev row_of : Finish → AuditOutcome → AuditOutcome
row_of (returns out) default = out
row_of (throws e) default = default

abbrev empty_lanes : Lanes
empty_lanes = record {
  embed_ok = true;
  embed_tokens = 0;
  ann_ids = [];
  keyword_ids = [];
  fused_ids = [];
}

-- The audit row of the run.
live_row : AuditOutcome
live_row =
    row_of (retrieve_pipeline millionths live question user).finish
      (build_base millionths live question user empty_lanes 0 0)

live_returns : (retrieve_pipeline millionths live question user).finish ≡ returns live_row
unfolding retrieve_pipeline lanes_stage fuse_stage rrf_fuse lanes_loop lane_loop contribute sort
    insert_sorted before hydrate_stage candidates_stage ordered_rows row_by_id fetch_bodies
    relevant_chunk_ids chunk_bodies boundaries_of boundary_body body_for rerank_stage after_rerank
    synthesis build_synth_context render_from render_chunk render_lines first_attempt if_cited
    validate_citations parse_sources_block check_block check_ids verdict answered build_base deltas
    lit text_eq includes unique sources_at find_blocks all_blocks normalize strip_blocks
    strip_blocks_from find_inline inline_at is_uuid_v4 extract_inline_citations trim repeated
    split_on ids_of live_row
live_returns = refl

eval_retrieve-eq-project_example :
    eval_retrieve millionths live question user
    ≡ evaluated (record {
      ann_candidate_ids = live_row.ann_candidate_ids;
      keyword_candidate_ids = live_row.keyword_candidate_ids;
      fused_candidate_ids = live_row.fused_ids;
      reranked_ids = live_row.reranked_ids;
    })
eval_retrieve-eq-project_example =
    eval_retrieve-eq-project millionths live question user live_row live_returns
