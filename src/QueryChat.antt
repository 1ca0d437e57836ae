-- ===== src/QueryChat.antt =====
-- lib/query-chat-state.ts: the reducer of the query page. Optional fields are `Option`.
pub mod Laws
use priority_kb.Base.{Text, lit, Bool, true, false, Option, none, some, List, [], ◌∷◌, ◌++◌, ℕ}
use priority_kb.Auth.{Sensitivity}
use priority_kb.Degraded.{DegradedReasonCode}

pub data QueryStatus : Type 0 where
  idle streaming done chunks_only no_content error unavailable : QueryStatus

pub record QueryCandidate : Type 0 where
  pub entry_id : Text
  pub title : Text
  pub category : Text
  pub sensitivity : Sensitivity
  pub last_verified_at : Text
  pub body_snippet : Text
  pub tags : List Text
  pub source_pointer : Text

pub record QueryChunkSnippet : Type 0 where
  pub entry_id : Text
  pub title : Text
  pub category : Text
  pub sensitivity : Sensitivity
  pub last_verified_at : Text
  pub snippet : Text

pub data ErrorCode : Type 0 where
  internal db synth_unavailable citation_validation_failed : ErrorCode

-- `unknown` is any event whose kind is not in the union.
pub data QueryEvent : Type 0 where
  candidates : (entries : List QueryCandidate) → QueryEvent
  answer_delta : (text : Text) → QueryEvent
  done :
      (citation_ids : List Text) (degraded : Option Bool)
      (degraded_reason : Option DegradedReasonCode)
      → QueryEvent
  chunks_only :
      (entries : List QueryChunkSnippet) (degraded_reason : Option DegradedReasonCode) → QueryEvent
  no_content : (degraded_reason : Option DegradedReasonCode) → QueryEvent
  error : (code : ErrorCode) → QueryEvent
  unknown : QueryEvent

pub record QueryState : Type 0 where
  pub status : QueryStatus
  pub query : Text
  pub candidates : List QueryCandidate
  pub answer : Text
  pub citations : List Text
  pub chunk_snippets : List QueryChunkSnippet
  pub degraded : Option Bool
  pub degraded_reason : Option DegradedReasonCode
  pub error : Option Text

unfoldable pub initial_query_state : QueryState
initial_query_state = record {
  status = QueryStatus.idle;
  query = [];
  candidates = [];
  answer = [];
  citations = [];
  chunk_snippets = [];
  degraded = none;
  degraded_reason = none;
  error = none;
}

unfoldable pub start_stream : QueryState → Text → QueryState
start_stream _ query = record {
  status = QueryStatus.streaming;
  query = query;
  candidates = [];
  answer = [];
  citations = [];
  chunk_snippets = [];
  degraded = none;
  degraded_reason = none;
  error = none;
}

unfoldable pub error_message_for_code : ErrorCode → Text
error_message_for_code db = lit "Database error — try again in a moment."
error_message_for_code synth_unavailable = lit "Answer service unavailable — try again later."
error_message_for_code citation_validation_failed =
    lit "Could not verify citations on the generated answer — try again."
error_message_for_code internal = lit "Something went wrong on our side."

-- `{...(v !== undefined ? { field: v } : {})}`: an absent value leaves the field as it is.
abbrev overlay {ℓ} : {A : Type ℓ} → Option A → Option A → Option A
overlay none old = old
overlay (some v) old = some v

abbrev flag_for : Option DegradedReasonCode → Option Bool → Option Bool
flag_for none old = old
flag_for (some r) old = some true

unfoldable pub apply_event : QueryState → QueryEvent → QueryState
apply_event state (QueryEvent.candidates entries) = record state { candidates = entries }
apply_event state (answer_delta text) = record state { answer = state.answer ++ text }
apply_event state (QueryEvent.done citation_ids degraded reason) = record state {
  status = QueryStatus.done;
  citations = citation_ids;
  degraded = overlay degraded state.degraded;
  degraded_reason = overlay reason state.degraded_reason;
}
apply_event state (QueryEvent.chunks_only entries reason) = record state {
  status = QueryStatus.chunks_only;
  chunk_snippets = entries;
  degraded_reason = overlay reason state.degraded_reason;
  degraded = flag_for reason state.degraded;
}
apply_event state (QueryEvent.no_content reason) = record state {
  status = QueryStatus.no_content;
  degraded_reason = overlay reason state.degraded_reason;
  degraded = flag_for reason state.degraded;
}
apply_event state (QueryEvent.error code) = record state {
  status = QueryStatus.error;
  error = some (error_message_for_code code);
}
apply_event state unknown = state

unfoldable pub mark_unavailable : QueryState → QueryState
mark_unavailable state = record state { status = QueryStatus.unavailable }

unfoldable pub mark_stream_error : QueryState → Text → QueryState
mark_stream_error state message = record state { status = QueryStatus.error; error = some message }

unfoldable pub reset : QueryState
reset = initial_query_state

-- The page's consumer loop: `setState((s) => applyEvent(s, ev))` for each event.
unfoldable pub apply_events : QueryState → List QueryEvent → QueryState
apply_events state [] = state
apply_events state (e ∷ es) = apply_events (apply_event state e) es
