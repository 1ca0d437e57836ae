-- ===== src/Pipeline/Types.antt =====
-- The types of lib/retrieval-pipeline.ts and of the audit payload in lib/retrieval.ts. What lies
-- behind `PipelineDeps` (vendors, the database) is a record of functions that the caller gives.
use priority_kb.Base.{Text, ℕ, Bool, List, [], ◌∷◌, Option, none, some}
use priority_kb.Auth.{Role, Sensitivity}
use priority_kb.Degraded.{DegradedReasonCode}
use priority_kb.QueryChat.{QueryEvent}
use priority_kb.Rerank.{Ranked}

-- A vendor call: a result, the vendor's `...UnavailableError`, or any other exception.
pub data Attempt (A : Type 0) : Type 0 where
  succeeded : A → Attempt A
  unavailable : (message : Text) → Attempt A
  threw : (message : Text) → Attempt A

-- A database call.
pub data Call (A : Type 0) : Type 0 where
  returned : A → Call A
  failed : (message : Text) → Call A

pub record Embedding (V : Type 0) : Type 0 where
  pub vector : V
  pub tokens_used : ℕ

pub record AnnCandidate : Type 0 where
  pub entry_id : Text
  pub best_chunk_id : Text

pub record HydratedEntryRow : Type 0 where
  pub id : Text
  pub title : Text
  pub body : Text
  pub category : Text
  pub tags : List Text
  pub source_pointer : Text
  pub sensitivity : Sensitivity
  -- `last_verified_at.toISOString()`
  pub last_verified_at : Text

pub record HydratedChunkSlice : Type 0 where
  pub id : Text
  pub entry_id : Text
  pub content_start : ℕ
  pub content_end : ℕ

pub record SynthResult : Type 0 where
  pub answer : Text
  pub tokens_in : ℕ
  pub tokens_out : ℕ

pub record Synthesizer : Type 0 where
  pub model : Text
  pub version : Text
  pub synthesize : Text → List Text → Attempt SynthResult

pub record PipelineDeps (F : Type 0) (V : Type 0) : Type 0 where
  pub embedder_model : Text
  pub embedder_version : Text
  pub embed : Text → Attempt (Embedding V)
  pub ann_fn : V → List Sensitivity → Text → Text → ℕ → ℕ → Call (List AnnCandidate)
  pub keyword_fn : Text → List Sensitivity → ℕ → Call (List Text)
  pub fetch_entries_fn : List Text → Call (List HydratedEntryRow)
  pub fetch_chunk_slices_fn : List Text → Call (List HydratedChunkSlice)
  pub rerank : Text → List Text → ℕ → Attempt (List (Ranked F))
  pub synth : Option Synthesizer
  -- RETRIEVAL_RRF_K
  pub rrf_k : ℕ
  -- RETRIEVAL_AGENT_PROMPT, STRICTER_PROMPT_PREFIX and RETRIEVAL_RETRY_PREFIX_HASH
  pub agent_prompt : Text
  pub stricter_prefix : Text
  pub retry_prefix_hash : Text
  -- `synthesizeKeywordOnlyRepresentative(title, body)`; `none` is its RangeError.
  pub representative : Text → Text → Option Text
  -- `\p{M}` on a code unit
  pub is_mark : ℕ → Bool

pub data ValidationOutcome : Type 0 where
  ok sources_block_missing multiple_sources_blocks trailing_prose_after_sources : ValidationOutcome
  sources_block_empty invalid_uuid duplicate_id hallucinated_id : ValidationOutcome
  inline_sources_mismatch : ValidationOutcome

pub data ValidationDetail : Type 0 where
  no_detail : ValidationDetail
  offending : List Text → ValidationDetail
  mismatch : (inline_only : List Text) (sources_only : List Text) → ValidationDetail
  blocks : ℕ → ValidationDetail
  trailing : Text → ValidationDetail

pub record Tokens : Type 0 where
  pub embed : ℕ
  pub keyword : ℕ
  pub rerank_input : ℕ
  pub synth_input : ℕ
  pub synth_output : ℕ

pub data AuditStatus : Type 0 where
  ok error : AuditStatus

-- `RetrievalAuditPayload` but for the measured latencies.
pub record AuditOutcome : Type 0 where
  pub query : Text
  pub role : Role
  pub sensitivity_allowed : List Sensitivity
  pub embedding_model : Text
  pub embedding_version : Text
  pub ann_candidate_ids : List Text
  pub keyword_candidate_ids : List Text
  pub fused_ids : List Text
  pub rrf_k : ℕ
  pub reranked_ids : List Text
  pub citation_ids : List Text
  pub keyword_only : Bool
  pub tokens : Tokens
  pub degraded : Bool
  pub degraded_reason : Option DegradedReasonCode
  pub status : AuditStatus
  pub error : Option Text
  pub synthesizer_model : Option Text
  pub synthesizer_version : Option Text
  pub citation_validation_outcome : Option ValidationOutcome
  pub citation_validation_detail : ValidationDetail
  pub retry_attempted : Bool
  pub retry_prefix_hash : Option Text

-- What the generator throws: what a callee threw, or a RangeError of its own helpers.
pub data Exception : Type 0 where
  raised : (message : Text) → Exception
  range_error : Exception

-- How the generator ends.
pub data Finish : Type 0 where
  returns : AuditOutcome → Finish
  throws : Exception → Finish

-- The events that the generator yields, and its end.
pub record Run : Type 0 where
  pub events : List QueryEvent
  pub finish : Finish

abbrev pub emit : QueryEvent → Run → Run
emit e r = record { events = e ∷ r.events; finish = r.finish }

abbrev pub return : AuditOutcome → Run
return out = record { events = []; finish = returns out }

abbrev pub throw : Exception → Run
throw e = record { events = []; finish = throws e }

-- A vendor call in its `try`: the `catch` takes the vendor's own error, any other is thrown again.
abbrev pub attempt : {A : Type 0} → Attempt A → (A → Run) → (Text → Run) → Run
attempt (succeeded a) k down = k a
attempt (unavailable m) k down = down m
attempt (threw m) k down = throw (raised m)

abbrev pub await : {A : Type 0} → Call A → (A → Run) → Run
await (returned a) k = k a
await (failed m) k = throw (raised m)

-- A helper of the pipeline that gives `none` where it throws a RangeError.
abbrev pub checked : {A : Type 0} → Option A → (A → Run) → Run
checked (some a) k = k a
checked none k = throw range_error

-- A branch on a dependency that may be absent.
abbrev pub branch : {A : Type 0} → Option A → Run → (A → Run) → Run
branch none absent k = absent
branch (some a) absent k = k a
