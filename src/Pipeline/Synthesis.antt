-- ===== src/Pipeline/Synthesis.antt =====
-- Stage D: synthesis, the check of its citations, and the retry.
use priority_kb.Base.{
  Text, lit, ℕ, ◌+◌, Bool, true, false, not, List, [], ◌∷◌, ◌++◌, map, Option, none, some,
  if◌then◌else◌,
}
use priority_kb.Auth.{Role, sensitivity_allowed_for_role}
use priority_kb.Degraded.{DegradedReasonCode, citation_validation_failed, map_degraded_reason}
use priority_kb.QueryChat.{answer_delta, done, chunks_only}
use priority_kb.Fusion.{Num}
use priority_kb.SynthInput.{
  SynthInputChunk, Rendered, rendered, bad_entry_id, bad_score, build_synth_context,
}
use priority_kb.Citations.Validate.{CitationValidationResult, valid, validate_citations}
use priority_kb.Citations.Validate
use priority_kb.Pipeline.Types.{
  PipelineDeps, Synthesizer, SynthResult, AuditOutcome, AuditStatus, ValidationOutcome,
  ValidationDetail, no_detail, offending, mismatch, blocks, trailing, Run, emit, return, attempt,
  checked,
}
use priority_kb.Rerank.Laws.{chunk_ids}
use priority_kb.Pipeline.Hydrate.{snippet_of}

-- What stages A and B and the fusion leave.
pub record Lanes : Type 0 where
  pub embed_ok : Bool
  pub embed_tokens : ℕ
  pub ann_ids : List Text
  pub keyword_ids : List Text
  pub fused_ids : List Text

abbrev pub is_empty {ℓ} : {A : Type ℓ} → List A → Bool
is_empty [] = true
is_empty (x ∷ xs) = false

unfoldable pub detail_from_validation : CitationValidationResult → ValidationDetail
detail_from_validation (valid ids body) = no_detail
detail_from_validation (Validate.invalid_uuid ids) = offending ids
detail_from_validation (Validate.duplicate_id ids) = offending ids
detail_from_validation (Validate.hallucinated_id ids) = offending ids
detail_from_validation (Validate.inline_sources_mismatch inline_only sources_only) =
    mismatch inline_only sources_only
detail_from_validation (Validate.multiple_sources_blocks count) = blocks count
detail_from_validation (Validate.trailing_prose_after_sources t) = trailing t
detail_from_validation Validate.sources_block_missing = no_detail
detail_from_validation Validate.sources_block_empty = no_detail

unfoldable pub outcome_of : CitationValidationResult → ValidationOutcome
outcome_of (valid ids body) = ValidationOutcome.ok
outcome_of (Validate.invalid_uuid ids) = ValidationOutcome.invalid_uuid
outcome_of (Validate.duplicate_id ids) = ValidationOutcome.duplicate_id
outcome_of (Validate.hallucinated_id ids) = ValidationOutcome.hallucinated_id
outcome_of (Validate.inline_sources_mismatch inline_only sources_only) =
    ValidationOutcome.inline_sources_mismatch
outcome_of (Validate.multiple_sources_blocks count) = ValidationOutcome.multiple_sources_blocks
outcome_of (Validate.trailing_prose_after_sources t) =
    ValidationOutcome.trailing_prose_after_sources
outcome_of Validate.sources_block_missing = ValidationOutcome.sources_block_missing
outcome_of Validate.sources_block_empty = ValidationOutcome.sources_block_empty

unfoldable pub outcome_text : ValidationOutcome → Text
outcome_text ValidationOutcome.ok = lit "ok"
outcome_text ValidationOutcome.invalid_uuid = lit "invalid_uuid"
outcome_text ValidationOutcome.duplicate_id = lit "duplicate_id"
outcome_text ValidationOutcome.hallucinated_id = lit "hallucinated_id"
outcome_text ValidationOutcome.inline_sources_mismatch = lit "inline_sources_mismatch"
outcome_text ValidationOutcome.multiple_sources_blocks = lit "multiple_sources_blocks"
outcome_text ValidationOutcome.trailing_prose_after_sources = lit "trailing_prose_after_sources"
outcome_text ValidationOutcome.sources_block_missing = lit "sources_block_missing"
outcome_text ValidationOutcome.sources_block_empty = lit "sources_block_empty"

abbrev pub context_of : {A : Type 0} → Rendered A → Option A
context_of (rendered context) = some context
context_of bad_entry_id = none
context_of bad_score = none

-- `reason !== null ? true : absent`.
abbrev pub flag_of : Option DegradedReasonCode → Option Bool
flag_of none = none
flag_of (some r) = some true

abbrev pub is_some : Option DegradedReasonCode → Bool
is_some none = false
is_some (some r) = true

module _ (num : Num) {V : Type 0} (deps : PipelineDeps num.F V) (query : Text) (role : Role) where
  open num use {F}

  -- `buildBase`, with the synthesizer's tokens so far.
  unfoldable pub build_base : Lanes → ℕ → ℕ → AuditOutcome
  build_base l tokens_in tokens_out = record {
    query = query;
    role = role;
    sensitivity_allowed = sensitivity_allowed_for_role role;
    embedding_model = deps.embedder_model;
    embedding_version = deps.embedder_version;
    ann_candidate_ids = l.ann_ids;
    keyword_candidate_ids = l.keyword_ids;
    fused_ids = l.fused_ids;
    rrf_k = deps.rrf_k;
    reranked_ids = [];
    citation_ids = [];
    keyword_only = not l.embed_ok;
    tokens = record {
      embed = l.embed_tokens;
      keyword = 0;
      rerank_input = 0;
      synth_input = tokens_in;
      synth_output = tokens_out;
    };
    degraded = false;
    degraded_reason = none;
    status = AuditStatus.ok;
    error = none;
    synthesizer_model = elim deps.synth [ none ↦ none | some s ↦ some s.model ];
    synthesizer_version = elim deps.synth [ none ↦ none | some s ↦ some s.version ];
    citation_validation_outcome = none;
    citation_validation_detail = no_detail;
    retry_attempted = false;
    retry_prefix_hash = none;
  }

  unfoldable pub retry_hash : Bool → Option Text
  retry_hash retried = if retried then some deps.retry_prefix_hash else none

  unfoldable pub reason_of : Lanes → Bool → Bool → Option DegradedReasonCode
  reason_of l rerank_ok synth_ok = map_degraded_reason (record {
    embed_ok = l.embed_ok;
    rerank_ok = rerank_ok;
    synth_ok = synth_ok;
    fused_non_empty = not (is_empty l.fused_ids);
  })

  -- The end when the synthesizer is down, at the first call or at the retry.
  unfoldable pub synth_down : Lanes → Bool → List (SynthInputChunk F) → Bool → ℕ → Text → Run
  synth_down l rerank_ok chunks retried tokens_in message =
      let reason = reason_of l rerank_ok false in
      let base = build_base l tokens_in 0 in
      emit (chunks_only (map snippet_of chunks) reason) (
        return (record base {
          reranked_ids = chunk_ids chunks;
          retry_attempted = retried;
          retry_prefix_hash = retry_hash retried;
          degraded = true;
          degraded_reason = reason;
          status = AuditStatus.error;
          error = some message;
        }))

  -- The end when the answer fails the check after the retry.
  unfoldable pub not_cited :
      Lanes → List (SynthInputChunk F) → ℕ → ℕ → CitationValidationResult → Run
  not_cited l chunks tokens_in tokens_out v =
      let base = build_base l tokens_in tokens_out in
      emit (chunks_only (map snippet_of chunks) (some citation_validation_failed)) (
        return (record base {
          reranked_ids = chunk_ids chunks;
          citation_validation_outcome = some (outcome_of v);
          citation_validation_detail = detail_from_validation v;
          retry_attempted = true;
          retry_prefix_hash = retry_hash true;
          degraded = true;
          degraded_reason = some citation_validation_failed;
          status = AuditStatus.error;
          error = some (lit "citation_validation_failed: " ++ outcome_text (outcome_of v));
        }))

  -- The end with an answer.
  unfoldable pub answered :
      Lanes → Bool → List (SynthInputChunk F) → Bool → ℕ → ℕ → List Text → Text → Run
  answered l rerank_ok chunks retried tokens_in tokens_out ids body =
      let reason = reason_of l rerank_ok true in
      let base = build_base l tokens_in tokens_out in
      emit (answer_delta body) (
        emit (done ids (flag_of reason) reason) (
          return (record base {
            reranked_ids = chunk_ids chunks;
            citation_ids = ids;
            citation_validation_outcome = some ValidationOutcome.ok;
            retry_attempted = retried;
            retry_prefix_hash = retry_hash retried;
            degraded = is_some reason;
            degraded_reason = reason;
          })))

  -- The check of an answer: what follows it when it is valid, and when not.
  unfoldable pub if_cited :
      CitationValidationResult → (List Text → Text → Run) → (CitationValidationResult → Run) → Run
  if_cited (valid ids body) accept refuse = accept ids body
  if_cited v accept refuse = refuse v

  -- The second attempt, with the stricter prompt.
  unfoldable pub retry :
      Lanes → Bool → List (SynthInputChunk F) → Synthesizer → List Text → SynthResult → Run
  retry l rerank_ok chunks synth context first =
      attempt (synth.synthesize (deps.stricter_prefix ++ (10 ∷ 10 ∷ deps.agent_prompt)) context)
        (λ second.
          if_cited (validate_citations second.answer (chunk_ids chunks))
            (answered l rerank_ok chunks true (first.tokens_in + second.tokens_in)
              (first.tokens_out + second.tokens_out))
            (not_cited l chunks (first.tokens_in + second.tokens_in)
              (first.tokens_out + second.tokens_out)))
        (synth_down l rerank_ok chunks true first.tokens_in)

  unfoldable pub first_attempt :
      Lanes → Bool → List (SynthInputChunk F) → Synthesizer → List Text → Run
  first_attempt l rerank_ok chunks synth context =
      attempt (synth.synthesize deps.agent_prompt context)
        (λ first.
          if_cited (validate_citations first.answer (chunk_ids chunks))
            (answered l rerank_ok chunks false first.tokens_in first.tokens_out)
            (λ v. retry l rerank_ok chunks synth context first))
        (synth_down l rerank_ok chunks false 0)

  unfoldable pub synthesis : Lanes → Bool → List (SynthInputChunk F) → Synthesizer → Run
  synthesis l rerank_ok chunks synth =
      checked (context_of (build_synth_context num chunks)) (first_attempt l rerank_ok chunks synth)
