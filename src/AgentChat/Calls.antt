-- ===== src/AgentChat/Calls.antt =====
-- The events of tool uses and their results, and the messages that they make.
use priority_kb.Base.{Text, List, [], ◌∷◌, ◌++◌, true, false}
use priority_kb.AgentChat.State.{
  Json, AgentEvent, text_delta, tool_use_start, tool_result_ok, tool_result_failed, ToolResult,
  AssistantBlock,
}

pub data Outcome (J : Type 0) : Type 0 where
  ok : J → Outcome J
  failed : Text → Outcome J

-- One tool use with the result that the server gives for it.
pub record Call (J : Type 0) : Type 0 where
  pub id : Text
  pub name : Text
  pub input : J
  pub outcome : Outcome J

module _ {J : Type 0} where
  abbrev pub starts : List (Call J) → List (AgentEvent J)
  starts [] = []
  starts (c ∷ cs) = tool_use_start c.id c.name c.input ∷ starts cs

  abbrev pub result_of : Text → Outcome J → AgentEvent J
  result_of name (ok output) = tool_result_ok name output
  result_of name (failed message) = tool_result_failed name message

  abbrev pub results : List (Call J) → List (AgentEvent J)
  results [] = []
  results (c ∷ cs) = result_of c.name c.outcome ∷ results cs

  abbrev pub deltas : List Text → List (AgentEvent J)
  deltas [] = []
  deltas (t ∷ ts) = text_delta t ∷ deltas ts

  abbrev pub uses : List (Call J) → List (AssistantBlock J)
  uses [] = []
  uses (c ∷ cs) = AssistantBlock.tool_use c.id c.name c.input ∷ uses cs

abbrev pub joined : List Text → Text
joined [] = []
joined (t ∷ ts) = t ++ joined ts

module _ {J : Type 0} (json : Json J) where
  abbrev pub answer_of : Text → Outcome J → ToolResult
  answer_of id (ok output) = record {
    tool_use_id = id;
    content = json.stringify output;
    is_error = false;
  }
  answer_of id (failed message) = record {
    tool_use_id = id;
    content = json.stringify (json.error_object message);
    is_error = true;
  }

  abbrev pub answers : List (Call J) → List ToolResult
  answers [] = []
  answers (c ∷ cs) = answer_of c.id c.outcome ∷ answers cs
