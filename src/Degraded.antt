-- ===== src/Degraded.antt =====
-- lib/retrieval-degraded.ts and `mapDegradedReason` of lib/retrieval-pipeline.ts.
pub mod Laws
use priority_kb.Base.{Bool, true, false, not, ◌&&◌, Option, none, some, if◌then◌else◌}

pub data DegradedReasonCode : Type 0 where
  synth_unavailable rerank_unavailable rerank_and_synth_unavailable : DegradedReasonCode
  citation_validation_failed : DegradedReasonCode
  embed_unavailable_keyword_fallback : DegradedReasonCode
  embed_and_rerank_unavailable_keyword_fallback : DegradedReasonCode
  embed_and_synth_unavailable_keyword_bare : DegradedReasonCode
  embed_rerank_synth_unavailable_keyword_bare : DegradedReasonCode
  no_keyword_match_under_embed_outage : DegradedReasonCode

pub record Health : Type 0 where
  pub embed_ok : Bool
  pub rerank_ok : Bool
  pub synth_ok : Bool
  pub fused_non_empty : Bool

unfoldable pub map_degraded_reason : Health → Option DegradedReasonCode
map_degraded_reason h =
    if not h.embed_ok && not h.fused_non_empty
    then some no_keyword_match_under_embed_outage
    else if h.embed_ok && (h.rerank_ok && h.synth_ok)
    then none
    else if h.embed_ok && (h.rerank_ok && not h.synth_ok)
    then some synth_unavailable
    else if h.embed_ok && (not h.rerank_ok && h.synth_ok)
    then some rerank_unavailable
    else if h.embed_ok && (not h.rerank_ok && not h.synth_ok)
    then some rerank_and_synth_unavailable
    else if not h.embed_ok && (h.rerank_ok && h.synth_ok)
    then some embed_unavailable_keyword_fallback
    else if not h.embed_ok && (not h.rerank_ok && h.synth_ok)
    then some embed_and_rerank_unavailable_keyword_fallback
    else if not h.embed_ok && (h.rerank_ok && not h.synth_ok)
    then some embed_and_synth_unavailable_keyword_bare
    else some embed_rerank_synth_unavailable_keyword_bare
