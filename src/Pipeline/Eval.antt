-- ===== src/Pipeline/Eval.antt =====
-- lib/retrieval-eval.ts: retrieval without a synthesizer, for the evaluation runner.
mod Agreement
pub mod Laws
use priority_kb.Base.{Text, List, Option, none}
use priority_kb.Auth.{Role}
use priority_kb.Fusion.{Num}
use priority_kb.Pipeline.Types.{PipelineDeps, AuditOutcome, Exception, Finish, returns, throws, Run}
use priority_kb.Pipeline.Stages.{retrieve_pipeline}

pub record EvalRetrieveResult : Type 0 where
  pub ann_candidate_ids : List Text
  pub keyword_candidate_ids : List Text
  pub fused_candidate_ids : List Text
  pub reranked_ids : List Text

unfoldable pub project_to_eval_result : AuditOutcome → EvalRetrieveResult
project_to_eval_result outcome = record {
  ann_candidate_ids = outcome.ann_candidate_ids;
  keyword_candidate_ids = outcome.keyword_candidate_ids;
  fused_candidate_ids = outcome.fused_ids;
  reranked_ids = outcome.reranked_ids;
}

-- The result of an evaluation, or what the pipeline threw.
pub data Evaluated : Type 0 where
  evaluated : EvalRetrieveResult → Evaluated
  failed_with : Exception → Evaluated

abbrev pub evaluated_of : Finish → Evaluated
evaluated_of (returns out) = evaluated (project_to_eval_result out)
evaluated_of (throws e) = failed_with e

module _ (num : Num) {V : Type 0} (deps : PipelineDeps num.F V) (query : Text) (role : Role) where
  -- The dependencies with `synth` left out.
  abbrev pub without_synthesizer : PipelineDeps num.F V
  without_synthesizer = record deps { synth = none }

  unfoldable pub eval_retrieve : Evaluated
  eval_retrieve = evaluated_of (retrieve_pipeline num without_synthesizer query role).finish
