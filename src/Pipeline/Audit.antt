-- ===== src/Pipeline/Audit.antt =====
-- What a run of the pipeline leaves in its audit row.
use priority_kb.Base.{
  Text, ◌≤◌, Bool, true, false, not, List, [], ◌∷◌, ◌++◌, none, some, if◌then◌else◌, length, ◌≡◌,
  refl, sym, ap, ◌≢◌, suc, arith, Subset, ◌||◌, ◌⊎◌, inl, inr, Bool-cases,
}
use priority_kb.Auth.{Role}
use priority_kb.Degraded.{map_degraded_reason}
use priority_kb.Fusion.{Num}
use priority_kb.SynthInput.{SynthInputChunk}
use priority_kb.Citations.Laws.{validate_citations-valid_iff}
use priority_kb.Pipeline.Types.{PipelineDeps, AuditOutcome, AuditStatus, Finish, returns, throws}
use priority_kb.Pipeline.Synthesis.{
  Lanes, is_empty, is_some, build_base, reason_of, retry_hash, synth_down, not_cited, answered,
}
use priority_kb.Pipeline.Stages.{without_synth, nothing_found, top_n_synth, retrieve_pipeline}
use priority_kb.Rerank.Laws.{chunk_ids}
use priority_kb.Pipeline.Facts.{Drawn}
use priority_kb.Pipeline.Exits.{Exits}
use priority_kb.Pipeline.Walk.{retrieve_pipeline-exits}

-- `P` holds of the outcome, if there is one.
abbrev pub Ends : (AuditOutcome → Type 0) → Finish → Type 0
Ends P (returns out) = P out
Ends P (throws e) = Unit

-- The ids of each stage come from the stage before.
abbrev pub IsGrounded : AuditOutcome → Type 0
IsGrounded out =
    Subset out.citation_ids out.reranked_ids
    × Subset out.reranked_ids out.fused_ids
    × Subset out.fused_ids (out.ann_candidate_ids ++ out.keyword_candidate_ids)
    × (length out.reranked_ids ≤ top_n_synth)

-- The flags of an audit row agree with its reason, its status, its error and its retry hash.
abbrev pub IsConsistent : Text → AuditOutcome → Type 0
IsConsistent hash out =
    (out.degraded ≡ is_some out.degraded_reason)
    × (out.retry_prefix_hash ≡ (if out.retry_attempted then some hash else none))
    × (((out.status ≡ AuditStatus.ok) × (out.error ≡ none))
        ⊎ ((out.status ≡ AuditStatus.error)
            × (out.error ≢ none)
            × (out.citation_ids ≡ [])
            × (out.degraded ≡ true)))

reason_of_down :
    (num : Num) {V : Type 0} (deps : PipelineDeps num.F V) (query : Text) (role : Role) (l : Lanes)
    (rerank_ok : Bool)
    → is_some (reason_of num deps query role l rerank_ok false) ≡ true
unfolding reason_of map_degraded_reason
reason_of_down num deps query role l rerank_ok = ground arith

degraded-reason_of :
    (num : Num) {V : Type 0} (deps : PipelineDeps num.F V) (query : Text) (role : Role) (l : Lanes)
    (rerank_ok : Bool)
    → is_empty l.fused_ids ≡ false
    → (not l.embed_ok || not rerank_ok) ≡ is_some (reason_of num deps query role l rerank_ok true)
unfolding reason_of map_degraded_reason
degraded-reason_of num deps query role l rerank_ok n = ground arith

length-chunk_ids : {F : Type 0} (cs : List (SynthInputChunk F)) → length (chunk_ids cs) ≡ length cs
length-chunk_ids [] = refl
length-chunk_ids (c ∷ cs) = ap suc (length-chunk_ids cs)

module _ (num : Num) {V : Type 0} (deps : PipelineDeps num.F V) (query : Text) (role : Role) where
  open num use {F}

  grounded_chunks :
      (l : Lanes) (chunks : List (SynthInputChunk F)) (ids : List Text)
      → Drawn l chunks
      → Subset ids (chunk_ids chunks)
      → Subset ids (chunk_ids chunks)
        × Subset (chunk_ids chunks) l.fused_ids
        × Subset l.fused_ids (l.ann_ids ++ l.keyword_ids)
        × (length (chunk_ids chunks) ≤ top_n_synth)
  grounded_chunks l chunks ids d s = (s, d.1, d.0, omega (arith, length-chunk_ids chunks, d.2))

  grounded : Exits num deps query role (λ r. Ends IsGrounded r.finish)
  unfolding nothing_found without_synth synth_down not_cited answered build_base
  grounded = record {
    thrown = λ e. tt;
    shown = λ es r h. h;
    nothing = λ l f n. elim (Bool-cases l.embed_ok) [
      | inl e ↦ rw e (tt, tt, f, omega arith)
      | inr e ↦ rw e (tt, tt, f, omega arith)
    ];
    eval = λ l ok chunks d n e. grounded_chunks l chunks [] d tt;
    down = λ l ok chunks d n retried tokens m. grounded_chunks l chunks [] d tt;
    refused = λ l chunks d i o v. grounded_chunks l chunks [] d tt;
    accepted = λ l ok chunks d n retried i o answer ids body a e.
        let cited = (validate_citations-valid_iff answer (chunk_ids chunks) ids body).0 e in
        grounded_chunks l chunks ids d cited.cited.known;
  }

  consistent : Exits num deps query role (λ r. Ends (IsConsistent deps.retry_prefix_hash) r.finish)
  unfolding nothing_found without_synth synth_down not_cited answered build_base retry_hash
  consistent = record {
    thrown = λ e. tt;
    shown = λ es r h. h;
    nothing = λ l f n. elim (Bool-cases l.embed_ok) [
      | inl e ↦ rw e (refl, refl, inl (refl, refl))
      | inr e ↦ rw e (refl, refl, inl (refl, refl))
    ];
    eval = λ l ok chunks d n e.
        (degraded-reason_of num deps query role l ok n, refl, inl (refl, refl));
    down = λ l ok chunks d n retried tokens m.
        (sym (reason_of_down num deps query role l ok), refl, inr (refl, (λ k. cc), refl, refl));
    refused = λ l chunks d i o v. (refl, refl, inr (refl, (λ k. cc), refl, refl));
    accepted = λ l ok chunks d n retried i o answer ids body a e. (refl, refl, inl (refl, refl));
  }

  -- In the audit row of a run, the cited ids are among the reranked ones, these are among the fused
  -- ones and at most five, and the fused ids are candidates of a lane.
  pub retrieve_pipeline-IsGrounded : Ends IsGrounded (retrieve_pipeline num deps query role).finish
  retrieve_pipeline-IsGrounded = retrieve_pipeline-exits num deps query role _ grounded

  -- In the audit row of a run, the degraded flag is set exactly when there is a reason, the retry's
  -- hash is there exactly when there was a retry, and the status is `ok` with no error, or `error`
  -- with a message, no citations and the degraded flag.
  pub retrieve_pipeline-IsConsistent :
      Ends (IsConsistent deps.retry_prefix_hash) (retrieve_pipeline num deps query role).finish
  retrieve_pipeline-IsConsistent = retrieve_pipeline-exits num deps query role _ consistent
