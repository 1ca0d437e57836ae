-- ===== src/Pipeline/Exits.antt =====
-- The exits of `retrievePipeline`: a predicate that every exception and every exit meets holds of
-- every run.
use priority_kb.Base.{
  Text, ℕ, zero, suc, ◌+◌, ◌≤◌, Bool, true, false, List, [], ◌∷◌, ◌++◌, map, none, some, length,
  length-take, take, ◌≡◌, ◌⊎◌, inl, inr, refl, ap, arith, Subset, Subset-trans, Subset-take,
}
use priority_kb.Auth.{Role}
use priority_kb.QueryChat.{QueryCandidate, candidates}
use priority_kb.Fusion.{Num}
use priority_kb.SynthInput.{SynthInputChunk, build_synth_context}
use priority_kb.Rerank.{RerankBoundaryEntry, Joined, joined}
use priority_kb.Rerank.Laws.{
  chunk_ids, boundary_ids, join_reranked_to_synth_input-Joins, Chosen-Subset, Chosen-length,
}
use priority_kb.Citations.Validate.{CitationValidationResult, valid, validate_citations}
use priority_kb.Pipeline.Types.{
  PipelineDeps, Exception, Synthesizer, SynthResult, succeeded, Run, emit, throw,
}
use priority_kb.Pipeline.Synthesis.{
  Lanes, is_empty, context_of, if_cited, synth_down, not_cited, answered, retry, first_attempt,
  synthesis,
}
use priority_kb.Pipeline.Stages.{
  top_n_synth, chunks_of, unranked, without_synth, after_rerank, rerank_stage, nothing_found,
}
use priority_kb.Pipeline.Facts.{
  FromLanes, Drawn, attempt-given, attempt-cases, checked-cases, branch-cases, if_cited-cases,
}

module _ (num : Num) {V : Type 0} (deps : PipelineDeps num.F V) (query : Text) (role : Role) where
  open num use {F}

  -- The synthesizer, asked with one of the two prompts about the chunks, gave this answer.
  pub record Answers (chunks : List (SynthInputChunk F)) (answer : Text) : Type 0 where
    pub synth : Synthesizer
    pub live : deps.synth ≡ some synth
    pub context : List Text
    pub of_chunks : context_of (build_synth_context num chunks) ≡ some context
    pub prompt : Text
    pub asked :
        (prompt ≡ deps.agent_prompt)
        ⊎ (prompt ≡ deps.stricter_prefix ++ (10 ∷ 10 ∷ deps.agent_prompt))
    pub result : SynthResult
    pub given : synth.synthesize prompt context ≡ succeeded result
    pub same : result.answer ≡ answer

  -- What holds at each place where the pipeline returns, with what is known there.
  pub record Exits (P : Run → Type 0) : Type 0 where
    pub thrown : (e : Exception) → P (throw e)
    pub shown : (es : List QueryCandidate) (r : Run) → P r → P (emit (candidates es) r)
    pub nothing :
        (l : Lanes)
        → FromLanes l
        → is_empty l.fused_ids ≡ true
        → P (nothing_found num deps query role l)
    pub eval :
        (l : Lanes) (rerank_ok : Bool) (chunks : List (SynthInputChunk F))
        → Drawn l chunks
        → is_empty l.fused_ids ≡ false
        → deps.synth ≡ none
        → P (without_synth num deps query role l rerank_ok chunks)
    pub down :
        (l : Lanes) (rerank_ok : Bool) (chunks : List (SynthInputChunk F))
        → Drawn l chunks
        → is_empty l.fused_ids ≡ false
        → (retried : Bool) (tokens : ℕ) (message : Text)
        → P (synth_down num deps query role l rerank_ok chunks retried tokens message)
    pub refused :
        (l : Lanes) (chunks : List (SynthInputChunk F))
        → Drawn l chunks
        → (tokens_in tokens_out : ℕ) (v : CitationValidationResult)
        → P (not_cited num deps query role l chunks tokens_in tokens_out v)
    pub accepted :
        (l : Lanes) (rerank_ok : Bool) (chunks : List (SynthInputChunk F))
        → Drawn l chunks
        → is_empty l.fused_ids ≡ false
        → (retried : Bool) (tokens_in tokens_out : ℕ) (answer : Text) (ids : List Text)
          (body : Text)
        → Answers chunks answer
        → validate_citations answer (chunk_ids chunks) ≡ valid ids body
        → P (answered num deps query role l rerank_ok chunks retried tokens_in tokens_out ids body)

module _ (num : Num) {V : Type 0} (deps : PipelineDeps num.F V) (query : Text) (role : Role)
    (P : Run → Type 0) (x : Exits num deps query role P) where
  open num use {F}

  retry-exits :
      (l : Lanes) (ok : Bool) (chunks : List (SynthInputChunk F))
      → Drawn l chunks
      → is_empty l.fused_ids ≡ false
      → (synth : Synthesizer) → deps.synth ≡ some synth
      → (context : List Text) → context_of (build_synth_context num chunks) ≡ some context
      → (first : SynthResult) → P (retry num deps query role l ok chunks synth context first)
  unfolding retry
  retry-exits l ok chunks d n synth live context c first =
      attempt-given P x.thrown
        (synth.synthesize (deps.stricter_prefix ++ (10 ∷ 10 ∷ deps.agent_prompt)) context)
        (λ second.
          if_cited num deps query role (validate_citations second.answer (chunk_ids chunks))
            (answered num deps query role l ok chunks true (first.tokens_in + second.tokens_in)
              (first.tokens_out + second.tokens_out))
            (not_cited num deps query role l chunks (first.tokens_in + second.tokens_in)
              (first.tokens_out + second.tokens_out)))
        (synth_down num deps query role l ok chunks true first.tokens_in)
        (λ second g.
          let answers : Answers num deps query role chunks second.answer = record {
            synth = synth;
            live = live;
            context = context;
            of_chunks = c;
            prompt = deps.stricter_prefix ++ (10 ∷ 10 ∷ deps.agent_prompt);
            asked = inr refl;
            result = second;
            given = g;
            same = refl;
          } in
          if_cited-cases P x.thrown num deps query role _ _ _
            (λ ids body e. x.accepted l ok chunks d n true _ _ second.answer ids body answers e)
            (x.refused l chunks d _ _))
        (x.down l ok chunks d n true _)

  synthesis-exits :
      (l : Lanes) (ok : Bool) (chunks : List (SynthInputChunk F))
      → Drawn l chunks
      → is_empty l.fused_ids ≡ false
      → (synth : Synthesizer) → deps.synth ≡ some synth
      → P (synthesis num deps query role l ok chunks synth)
  unfolding synthesis first_attempt
  synthesis-exits l ok chunks d n synth live =
      checked-cases P x.thrown (context_of (build_synth_context num chunks))
        (first_attempt num deps query role l ok chunks synth)
        (λ context e.
          attempt-given P x.thrown (synth.synthesize deps.agent_prompt context)
            (λ first.
              if_cited num deps query role (validate_citations first.answer (chunk_ids chunks))
                (answered num deps query role l ok chunks false first.tokens_in first.tokens_out)
                (λ v. retry num deps query role l ok chunks synth context first))
            (synth_down num deps query role l ok chunks false 0)
            (λ first g.
              let answers : Answers num deps query role chunks first.answer = record {
                synth = synth;
                live = live;
                context = context;
                of_chunks = e;
                prompt = deps.agent_prompt;
                asked = inl refl;
                result = first;
                given = g;
                same = refl;
              } in
              if_cited-cases P x.thrown num deps query role _
                (answered num deps query role l ok chunks false first.tokens_in first.tokens_out) _
                (λ ids body k.
                  x.accepted l ok chunks d n false first.tokens_in first.tokens_out first.answer ids
                    body answers k)
                (λ v. retry-exits l ok chunks d n synth live context e first))
            (x.down l ok chunks d n false 0))

  after_rerank-exits :
      (l : Lanes) (ok : Bool) (chunks : List (SynthInputChunk F))
      → Drawn l chunks
      → is_empty l.fused_ids ≡ false
      → P (after_rerank num deps query role l ok chunks)
  unfolding after_rerank
  after_rerank-exits l ok chunks d n =
      branch-cases P x.thrown deps.synth _ _ (x.eval l ok chunks d n)
        (synthesis-exits l ok chunks d n)

  ids-unranked :
      (n : ℕ) (bs : List RerankBoundaryEntry)
      → chunk_ids (map (unranked num deps query role) (take n bs)) ≡ take n (boundary_ids bs)
  ids-unranked zero bs = refl
  ids-unranked (suc n) [] = refl
  ids-unranked (suc n) (b ∷ bs) = ap (◌∷◌ b.entry_id) (ids-unranked n bs)

  length-unranked :
      (n : ℕ) (bs : List RerankBoundaryEntry)
      → length (map (unranked num deps query role) (take n bs)) ≤ n
  length-unranked zero bs = omega arith
  length-unranked (suc n) [] = omega arith
  length-unranked (suc n) (b ∷ bs) = omega (arith, length-unranked n bs)

  joined_of : (j : Joined F) (cs : List (SynthInputChunk F)) → chunks_of j ≡ some cs → j ≡ joined cs
  joined_of (joined ds) cs h = ground arith
  joined_of Joined.bad_top_n cs h = cc
  joined_of Joined.index_out_of_range cs h = cc
  joined_of Joined.duplicate_index cs h = cc
  joined_of Joined.score_not_finite cs h = cc

  pub rerank_stage-exits :
      (l : Lanes) (bs : List RerankBoundaryEntry)
      → FromLanes l
      → Subset (boundary_ids bs) l.fused_ids
      → is_empty l.fused_ids ≡ false
      → P (rerank_stage num deps query role l bs)
  unfolding rerank_stage
  rerank_stage-exits l bs f s n =
      attempt-cases P x.thrown _ _ _
        (λ ranking. checked-cases P x.thrown _ _ (λ cs e.
          let (low, high, (is, apart, j)) =
            join_reranked_to_synth_input-Joins num ranking bs top_n_synth cs (joined_of _ cs e) in
          after_rerank-exits l true cs
            (
              f,
              Subset-trans _ _ _ (Chosen-Subset num bs _ is cs j) s,
              omega (arith, Chosen-length num bs _ is cs j, length-take top_n_synth ranking),
            )
            n))
        (λ m.
          after_rerank-exits l false _
            (
              f,
              rw (ids-unranked top_n_synth bs)
                  (Subset-trans _ _ _ (Subset-take top_n_synth (boundary_ids bs)) s),
              length-unranked top_n_synth bs,
            )
            n)
