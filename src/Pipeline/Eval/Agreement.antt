-- ===== src/Pipeline/Eval/Agreement.antt =====
-- From the reranker on: an evaluation sees what a run with a synthesizer records.
use priority_kb.Base.{Text, ℕ, Bool, true, false, List, Option, none, some, ◌≡◌, refl}
use priority_kb.Auth.{Role}
use priority_kb.Fusion.{Num}
use priority_kb.SynthInput.{SynthInputChunk, build_synth_context}
use priority_kb.Citations.Validate.{CitationValidationResult}
use priority_kb.Pipeline.Types.{
  Attempt, Call, succeeded, unavailable, threw, returned, failed, PipelineDeps, Synthesizer,
  SynthResult, Exception, Finish, returns, throws, Run, throw, attempt, await, checked,
}
use priority_kb.Pipeline.Synthesis.{
  Lanes, context_of, build_base, synth_down, not_cited, answered, retry, first_attempt, synthesis,
}
use priority_kb.Pipeline.Stages.{without_synth, after_rerank}
use priority_kb.Pipeline.Facts.{attempt-cases, checked-cases, branch-cases, if_cited-cases}
use priority_kb.Pipeline.Eval.{project_to_eval_result, evaluated, evaluated_of, without_synthesizer}

-- Where the first end is an audit row, the second is evaluated to what that row projects to.
abbrev pub Agree : Finish → Finish → Type 0
Agree (returns out) f = evaluated_of f ≡ evaluated (project_to_eval_result out)
Agree (throws e) f = Unit

pub attempt-Agree :
    {A : Type 0} (a : Attempt A) (k l : A → Run) (d e : Text → Run)
    → ((x : A) → Agree (k x).finish (l x).finish)
    → ((m : Text) → Agree (d m).finish (e m).finish)
    → Agree (attempt a k d).finish (attempt a l e).finish
attempt-Agree (succeeded a) k l d e h j = h a
attempt-Agree (unavailable m) k l d e h j = j m
attempt-Agree (threw m) k l d e h j = tt

pub await-Agree :
    {A : Type 0} (a : Call A) (k l : A → Run)
    → ((x : A) → Agree (k x).finish (l x).finish)
    → Agree (await a k).finish (await a l).finish
await-Agree (returned a) k l h = h a
await-Agree (failed m) k l h = tt

pub checked-Agree :
    {A : Type 0} (a : Option A) (k l : A → Run)
    → ((x : A) → Agree (k x).finish (l x).finish)
    → Agree (checked a k).finish (checked a l).finish
checked-Agree (some a) k l h = h a
checked-Agree none k l h = tt

module _ (num : Num) {V : Type 0} (deps : PipelineDeps num.F V) (query : Text) (role : Role) where
  open num use {F}

  module _ (l : Lanes) (ok eval_ok : Bool) (chunks : List (SynthInputChunk F)) where
    -- The run agrees with the exit of eval mode.
    AsEval : Run → Type 0
    AsEval r =
        Agree r.finish
          (without_synth num (without_synthesizer num deps query role) query role l eval_ok
            chunks).finish

    thrown-AsEval : (e : Exception) → AsEval (throw e)
    unfolding AsEval without_synth
    thrown-AsEval e = tt

    down-AsEval :
        (retried : Bool) (tokens : ℕ) (message : Text)
        → AsEval (synth_down num deps query role l ok chunks retried tokens message)
    unfolding AsEval synth_down without_synth build_base project_to_eval_result
    down-AsEval retried tokens message = refl

    refused-AsEval :
        (i o : ℕ) (v : CitationValidationResult)
        → AsEval (not_cited num deps query role l chunks i o v)
    unfolding AsEval not_cited without_synth build_base project_to_eval_result
    refused-AsEval i o v = refl

    accepted-AsEval :
        (retried : Bool) (i o : ℕ) (ids : List Text) (body : Text)
        → AsEval (answered num deps query role l ok chunks retried i o ids body)
    unfolding AsEval answered without_synth build_base project_to_eval_result
    accepted-AsEval retried i o ids body = refl

    eval-AsEval : AsEval (without_synth num deps query role l ok chunks)
    unfolding AsEval without_synth build_base project_to_eval_result
    eval-AsEval = refl

    retry-AsEval :
        (synth : Synthesizer) (context : List Text) (first : SynthResult)
        → AsEval (retry num deps query role l ok chunks synth context first)
    unfolding retry
    retry-AsEval synth context first =
        attempt-cases AsEval thrown-AsEval _ _ _
          (λ second.
            if_cited-cases AsEval thrown-AsEval num deps query role _ _ _
              (λ ids body e. accepted-AsEval true _ _ ids body) (refused-AsEval _ _))
          (down-AsEval true _)

    synthesis-AsEval :
        (synth : Synthesizer) → AsEval (synthesis num deps query role l ok chunks synth)
    unfolding synthesis first_attempt
    synthesis-AsEval synth =
        checked-cases AsEval thrown-AsEval (context_of (build_synth_context num chunks))
          (first_attempt num deps query role l ok chunks synth)
          (λ context e.
            attempt-cases AsEval thrown-AsEval (synth.synthesize deps.agent_prompt context) _ _
              (λ first.
                if_cited-cases AsEval thrown-AsEval num deps query role _
                  (answered num deps query role l ok chunks false first.tokens_in first.tokens_out)
                  _ (λ ids body k. accepted-AsEval false first.tokens_in first.tokens_out ids body)
                  (λ v. retry-AsEval synth context first))
              (down-AsEval false 0))

    after_rerank-AsEval : AsEval (after_rerank num deps query role l ok chunks)
    unfolding after_rerank
    after_rerank-AsEval =
        branch-cases AsEval thrown-AsEval deps.synth _ _ (λ e. eval-AsEval)
          (λ synth _. synthesis-AsEval synth)

  pub after_rerank-Agree :
      (l : Lanes) (ok : Bool) (chunks : List (SynthInputChunk F))
      → Agree
          (after_rerank num deps query role l ok chunks).finish
          (after_rerank num (without_synthesizer num deps query role) query role l ok chunks).finish
  unfolding AsEval after_rerank
  after_rerank-Agree l ok chunks = after_rerank-AsEval l ok ok chunks
