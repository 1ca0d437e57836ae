-- ===== src/AgentChat/State.antt =====
-- The state of lib/agent-chat-state.ts, and the transitions that are not agent events.
use priority_kb.Base.{
  Text, lit, code_points, ℕ, leb, ltb, not, Bool, true, false, ◌&&◌, Option, none, some, List, [],
  ◌∷◌, ◌++◌, if◌then◌else◌,
}

-- `JSON.stringify`, and the object `{ error: message }`.
pub record Json (J : Type 0) : Type 0 where
  pub stringify : J → Text
  pub error_object : Text → J

pub data StopReason : Type 0 where
  end_turn tool_use max_tokens max_iterations max_turns refusal : StopReason

pub data AgentEvent (J : Type 0) : Type 0 where
  text_delta : (text : Text) → AgentEvent J
  tool_use_start : (id : Text) (name : Text) (input : J) → AgentEvent J
  tool_result_ok : (name : Text) (output : J) → AgentEvent J
  tool_result_failed : (name : Text) (message : Text) → AgentEvent J
  done : StopReason → AgentEvent J
  error : (code : Text) (message : Text) → AgentEvent J
  unknown : AgentEvent J

pub record ToolResult : Type 0 where
  pub tool_use_id : Text
  pub content : Text
  pub is_error : Bool

pub data AssistantBlock (J : Type 0) : Type 0 where
  text : Text → AssistantBlock J
  tool_use : (id : Text) (name : Text) (input : J) → AssistantBlock J

-- The messages that the reducer writes: a user's text, a user's tool results, an assistant's turn.
pub data AgentMessage (J : Type 0) : Type 0 where
  user_text : Text → AgentMessage J
  user_results : List ToolResult → AgentMessage J
  assistant : List (AssistantBlock J) → AgentMessage J

pub data Dir : Type 0 where
  ltr rtl : Dir

pub data Severity : Type 0 where
  info warn error : Severity

pub data DisplayItem (J : Type 0) : Type 0 where
  user : (text : Text) (dir : Dir) → DisplayItem J
  assistant_text : (text : Text) (dir : Dir) → DisplayItem J
  tool_use : (name : Text) (tool_use_id : Text) (input : J) → DisplayItem J
  tool_result : (name : Text) (output : J) → DisplayItem J
  tool_result_error : (name : Text) (message : Text) → DisplayItem J
  system : (text : Text) (severity : Severity) → DisplayItem J

pub data ChatStatus : Type 0 where
  idle streaming done error unavailable : ChatStatus

pub record ChatState (J : Type 0) : Type 0 where
  pub wire_messages : List (AgentMessage J)
  pub display_items : List (DisplayItem J)
  pub status : ChatStatus
  pub error : Option Text
  pub pending_assistant_blocks : List (AssistantBlock J)
  pub pending_tool_result_blocks : List ToolResult
  pub expected_tool_results : List (Text × List Text)
  pub open_assistant_text_index : Option ℕ

unfoldable pub is_streaming : ChatStatus → Bool
is_streaming ChatStatus.streaming = true
is_streaming _ = false

in_range : ℕ → ℕ → ℕ → Bool
in_range lo hi c = leb lo c && leb c hi

dir_from : List ℕ → Dir
dir_from [] = ltr
dir_from (c ∷ cs) =
    let rest = dir_from cs in
    if in_range 0x0590 0x05ff c
    then rtl
    else if in_range 0x0600 0x06ff c
    then rtl
    else if in_range 0x0750 0x077f c
    then rtl
    else if ltb 0x20 c && not (in_range 0x2000 0x206f c)
    then ltr
    else rest

unfoldable pub detect_dir : Text → Dir
unfolding dir_from in_range
detect_dir t = dir_from (code_points t)

module _ {J : Type 0} where
  unfoldable pub initial_chat_state : ChatState J
  initial_chat_state = record {
    wire_messages = [];
    display_items = [];
    status = ChatStatus.idle;
    error = none;
    pending_assistant_blocks = [];
    pending_tool_result_blocks = [];
    expected_tool_results = [];
    open_assistant_text_index = none;
  }

  unfoldable pub append_user_text : ChatState J → Text → ChatState J
  append_user_text state t = record state {
    wire_messages = state.wire_messages ++ user_text t ∷ [];
    display_items = state.display_items ++ user t (detect_dir t) ∷ [];
    status = ChatStatus.streaming;
    error = none;
    pending_assistant_blocks = [];
    pending_tool_result_blocks = [];
    expected_tool_results = [];
    open_assistant_text_index = none;
  }

  unfoldable pub mark_unavailable : ChatState J → ChatState J
  mark_unavailable state = record state {
    status = ChatStatus.unavailable;
    display_items =
        state.display_items
        ++ system
            (lit
              "Agent is unavailable. Use the direct form to submit an entry without the conversational flow.")
            warn
          ∷ [];
  }

  unfoldable pub mark_stream_error : ChatState J → Text → ChatState J
  mark_stream_error state message = record state {
    status = ChatStatus.error;
    error = some message;
    display_items =
        state.display_items ++ system (lit "Stream error: " ++ message) Severity.error ∷ [];
  }

  unfoldable pub mark_max_turns_exceeded : ChatState J → ChatState J
  mark_max_turns_exceeded state = record state {
    status = ChatStatus.error;
    error = some (lit "max_turns_exceeded");
    display_items =
        state.display_items
        ++ system
            (lit
              "Conversation length cap reached (max 20 turns). Start a new conversation to continue.")
            Severity.error
          ∷ [];
  }

  unfoldable pub cancel : ChatState J → ChatState J
  cancel state = if not (is_streaming state.status) then state else record state {
    status = ChatStatus.idle;
    pending_assistant_blocks = [];
    pending_tool_result_blocks = [];
    expected_tool_results = [];
    open_assistant_text_index = none;
    display_items = state.display_items ++ system (lit "Cancelled.") info ∷ [];
  }

  unfoldable pub reset : ChatState J
  reset = initial_chat_state
