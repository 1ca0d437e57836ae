-- ===== src/Pipeline/Page.antt =====
-- What a run of the pipeline sends to the page.
use priority_kb.Base.{
  Text, Bool, true, false, List, [], ◌∷◌, map, Option, none, some, ◌≡◌, refl, ◌≢◌, append-nil, All,
  ◌⊎◌, inl, inr, Bool-cases,
}
use priority_kb.Auth.{Role}
use priority_kb.Degraded.{DegradedReasonCode}
use priority_kb.QueryChat.{
  QueryCandidate, QueryEvent, candidates, answer_delta, done, chunks_only, unknown,
  QueryChunkSnippet, QueryStatus, QueryState, start_stream, apply_event, apply_events,
}
use priority_kb.QueryChat.Laws.{deltas}
use priority_kb.Fusion.{Num}
use priority_kb.Citations.Laws.{IsCited, validate_citations-valid_iff}
use priority_kb.Pipeline.Types.{
  PipelineDeps, Synthesizer, AuditOutcome, Finish, returns, throws, Run,
}
use priority_kb.Pipeline.Synthesis.{flag_of, build_base, synth_down, not_cited, answered}
use priority_kb.Pipeline.Stages.{without_synth, nothing_found, retrieve_pipeline}
use priority_kb.Rerank.Laws.{chunk_ids}
use priority_kb.Pipeline.Hydrate.{snippet_of}
use priority_kb.Pipeline.Exits.{Answers, Exits}
use priority_kb.SynthInput.{SynthInputChunk}
use priority_kb.Pipeline.Walk.{retrieve_pipeline-exits}

-- The page agrees with the audit row when the run returns, and still waits when it throws.
abbrev pub Shows : QueryState → Finish → Type 0
Shows s (returns out) =
    (s.citations ≡ out.citation_ids)
    × (s.degraded_reason ≡ out.degraded_reason)
    × (s.degraded ≡ flag_of out.degraded_reason)
    × (s.status ≢ QueryStatus.streaming)
Shows s (throws e) = s.status ≡ QueryStatus.streaming

-- A page that has seen no terminal event of its stream.
abbrev IsFresh : QueryState → Type 0
IsFresh s =
    (s.citations ≡ [])
    × (s.degraded_reason ≡ none)
    × (s.degraded ≡ none)
    × (s.status ≡ QueryStatus.streaming)

abbrev pub is_terminal : QueryEvent → Bool
is_terminal (candidates es) = false
is_terminal (answer_delta t) = false
is_terminal unknown = false
is_terminal e = true

-- One terminal event, the last one, when the run returns; none when it throws.
abbrev pub TerminalLast : List QueryEvent → Type 0
TerminalLast [] = true ≡ false
TerminalLast (e ∷ es) =
    ((is_terminal e ≡ true) × (es ≡ [])) ⊎ ((is_terminal e ≡ false) × TerminalLast es)

abbrev pub IsFramed : Run → Type 0
IsFramed r = elim r.finish [
  | returns out ↦ TerminalLast r.events
  | throws e ↦ All (λ e. is_terminal e ≡ false) r.events
]

-- A fresh page takes the reason of a terminal event, and the flag that belongs to it.
fresh-chunks_only :
    (s : QueryState) (es : List QueryChunkSnippet) (r : Option DegradedReasonCode)
    → IsFresh s
    → ((apply_event s (chunks_only es r)).degraded_reason ≡ r)
      × ((apply_event s (chunks_only es r)).degraded ≡ flag_of r)
unfolding apply_event
fresh-chunks_only s es none h = (h.1, h.2)
fresh-chunks_only s es (some r) h = (refl, refl)

fresh-done :
    (s : QueryState) (ids : List Text) (r : Option DegradedReasonCode)
    → IsFresh s
    → ((apply_event s (done ids (flag_of r) r)).degraded_reason ≡ r)
      × ((apply_event s (done ids (flag_of r) r)).degraded ≡ flag_of r)
unfolding apply_event
fresh-done s ids none h = (h.1, h.2)
fresh-done s ids (some r) h = (refl, refl)

IsFramed-shown :
    (cs : List QueryCandidate) (es : List QueryEvent) (f : Finish)
    → IsFramed (record { events = es; finish = f })
    → IsFramed (record { events = candidates cs ∷ es; finish = f })
IsFramed-shown cs es (returns out) h = inr (refl, h)
IsFramed-shown cs es (throws e) h = (refl, h)

module _ (num : Num) {V : Type 0} (deps : PipelineDeps num.F V) (query : Text) (role : Role) where
  -- The answer on the page is the body of an answer that the synthesizer gave about the reranked
  -- chunks and that keeps the citation rules for their ids, or there is none.
  abbrev pub IsVerified : Run → Type 0
  IsVerified r =
      (deltas r.events ≡ [])
      ⊎ ((chunks : List (SynthInputChunk num.F)) × (answer : Text) × (out : AuditOutcome)
          × (r.finish ≡ returns out)
          × (out.reranked_ids ≡ chunk_ids chunks)
          × Answers num deps query role chunks answer
          × IsCited answer out.reranked_ids out.citation_ids (deltas r.events))

  verified : Exits num deps query role IsVerified
  unfolding nothing_found without_synth synth_down not_cited answered build_base deltas
  verified = record {
    thrown = λ e. inl refl;
    shown = λ es r h. h;
    nothing =
        λ l f n. elim (Bool-cases l.embed_ok) [ inl e ↦ rw e (inl refl) | inr e ↦ rw e (inl refl) ];
    eval = λ l ok chunks d n e. inl refl;
    down = λ l ok chunks d n retried tokens m. inl refl;
    refused = λ l chunks d i o v. inl refl;
    accepted = λ l ok chunks d n retried i o answer ids body a e. inr (
      chunks,
      answer,
      _,
      refl,
      refl,
      a,
      rw (append-nil body) ((validate_citations-valid_iff answer (chunk_ids chunks) ids body).0 e),
    );
  }

  -- The answer that the page gets from a run is empty, or it is the body of an answer that the
  -- synthesizer gave, with the first or the stricter prompt, for the context of the reranked chunks,
  -- and that meets the citation rules for the reranked and cited ids of the run's audit row.
  pub retrieve_pipeline-IsVerified : IsVerified (retrieve_pipeline num deps query role)
  retrieve_pipeline-IsVerified = retrieve_pipeline-exits num deps query role _ verified

module _ (num : Num) {V : Type 0} (deps : PipelineDeps num.F V) (query : Text) (role : Role)
    (synth : Synthesizer) (live : deps.synth ≡ some synth) where
  eval_is_off : ¬ (deps.synth ≡ none)
  eval_is_off e = cc

  framed : Exits num deps query role IsFramed
  unfolding nothing_found without_synth synth_down not_cited answered build_base
  framed = record {
    thrown = λ e. tt;
    shown = λ es r h. IsFramed-shown es r.events r.finish h;
    nothing = λ l f n. elim (Bool-cases l.embed_ok) [
      | inl e ↦ rw e (inl (refl, refl))
      | inr e ↦ rw e (inl (refl, refl))
    ];
    eval = λ l ok chunks d n e. absurd (eval_is_off e);
    down = λ l ok chunks d n retried tokens m. inl (refl, refl);
    refused = λ l chunks d i o v. inl (refl, refl);
    accepted = λ l ok chunks d n retried i o answer ids body a e. inr (refl, inl (refl, refl));
  }

  -- With a synthesizer, a run that returns sends one terminal event and that last, and a run that
  -- throws sends none.
  pub retrieve_pipeline-IsFramed : IsFramed (retrieve_pipeline num deps query role)
  retrieve_pipeline-IsFramed = retrieve_pipeline-exits num deps query role _ framed

  shown :
      Exits num deps query role
        (λ r. (s : QueryState) → IsFresh s → Shows (apply_events s r.events) r.finish)
  unfolding nothing_found without_synth synth_down not_cited answered build_base apply_events
      apply_event
  shown = record {
    thrown = λ e s h. h.3;
    shown = λ es r k s h. k (apply_event s (candidates es)) h;
    nothing = λ l f n. elim (Bool-cases l.embed_ok) [
      | inl e ↦ rw e (λ s h. (h.0, h.1, h.2, λ k. cc))
      | inr e ↦ rw e (λ s h. (h.0, refl, refl, λ k. cc))
    ];
    eval = λ l ok chunks d n e. absurd (eval_is_off e);
    down = λ l ok chunks d n retried tokens m s h.
        let pair = fresh-chunks_only s (map snippet_of chunks) _ h in
        (h.0, pair.0, pair.1, λ k. cc);
    refused = λ l chunks d i o v s h. (h.0, refl, refl, λ k. cc);
    accepted = λ l ok chunks d n retried i o answer ids body a e s h.
        let pair = fresh-done (apply_event s (answer_delta body)) ids _ h in
        (refl, pair.0, pair.1, λ k. cc);
  }

  -- With a synthesizer, a page that starts its stream and takes all events of a run that returns
  -- has the cited ids and the degraded reason of the audit row, a degraded flag exactly when there
  -- is a reason, and no longer streams; after a run that throws it still streams.
  pub retrieve_pipeline-Shows :
      (s : QueryState)
      → Shows
          (apply_events (start_stream s query) (retrieve_pipeline num deps query role).events)
          (retrieve_pipeline num deps query role).finish
  unfolding start_stream
  retrieve_pipeline-Shows s =
      retrieve_pipeline-exits num deps query role _ shown (start_stream s query)
        (refl, refl, refl, refl)
