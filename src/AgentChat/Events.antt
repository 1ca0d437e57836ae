-- ===== src/AgentChat/Events.antt =====
-- `applyEvent` of lib/agent-chat-state.ts.
use priority_kb.Base.{
  Text, lit, ℕ, not, Bool, true, false, Option, none, some, List, [], ◌∷◌, ◌++◌, if◌then◌else◌,
  length, get_elem?, set,
}
use priority_kb.AgentChat.State.{
  Json, StopReason, end_turn, max_tokens, max_iterations, max_turns, refusal, AgentEvent,
  text_delta, tool_use_start, tool_result_ok, tool_result_failed, done, unknown, AssistantBlock,
  user_results, assistant, DisplayItem, assistant_text, tool_result, tool_result_error, system,
  Severity, warn, ChatStatus, ChatState, Dir, is_streaming, detect_dir, mark_max_turns_exceeded,
}
use priority_kb.AgentChat.Tools.{queue, set_queue, harvest}

abbrev pub is_empty {ℓ} : {A : Type ℓ} → List A → Bool
is_empty [] = true
is_empty (x ∷ xs) = false

module _ {J : Type 0} where
  unfoldable pub flush_pending_tool_results : ChatState J → ChatState J
  flush_pending_tool_results state =
      if is_empty state.pending_tool_result_blocks then state else record state {
        wire_messages = state.wire_messages ++ user_results state.pending_tool_result_blocks ∷ [];
        pending_tool_result_blocks = [];
        expected_tool_results = [];
      }

  -- The state in which a text delta or a tool use begins or goes on with a turn.
  unfoldable pub turn_base : ChatState J → ChatState J
  turn_base state =
      if is_empty state.pending_assistant_blocks then flush_pending_tool_results state else state

  -- `nextBlocks`: the text goes to the last block if that is a text block.
  unfoldable pub extend_blocks : List (AssistantBlock J) → Text → List (AssistantBlock J)
  extend_blocks [] t = AssistantBlock.text t ∷ []
  extend_blocks (AssistantBlock.text u ∷ []) t = AssistantBlock.text (u ++ t) ∷ []
  extend_blocks (AssistantBlock.tool_use id name input ∷ []) t =
      AssistantBlock.tool_use id name input ∷ AssistantBlock.text t ∷ []
  extend_blocks (b ∷ c ∷ bs) t = b ∷ extend_blocks (c ∷ bs) t

  -- The place, the text and the direction of the open bubble, if the index points to one.
  open_bubble : List (DisplayItem J) → Option ℕ → Option (ℕ × Text × Dir)
  open_bubble items none = none
  open_bubble items (some i) = elim (get_elem? items i) [
    | some (assistant_text t dir) ↦ some (i, t, dir)
    | _ ↦ none
  ]

  unfoldable pub display_delta :
      List (DisplayItem J) → Option ℕ → Text → List (DisplayItem J) × Option ℕ
  unfolding open_bubble
  display_delta items index t = elim (open_bubble items index) [
    | none ↦ (items ++ assistant_text t (detect_dir t) ∷ [], some (length items))
    | some (i, u, dir) ↦ (set items i (assistant_text (u ++ t) dir), some i)
  ]

  unfoldable pub apply_text_delta : ChatState J → Text → ChatState J
  unfolding turn_base
  apply_text_delta state t =
      let base = turn_base state in
      record base {
        pending_assistant_blocks = extend_blocks base.pending_assistant_blocks t;
        display_items = (display_delta base.display_items base.open_assistant_text_index t).0;
        open_assistant_text_index =
            (display_delta base.display_items base.open_assistant_text_index t).1;
      }

  unfoldable pub apply_tool_use_start : ChatState J → Text → Text → J → ChatState J
  unfolding turn_base
  apply_tool_use_start state id name input =
      let base = turn_base state in
      record base {
        pending_assistant_blocks =
            base.pending_assistant_blocks ++ AssistantBlock.tool_use id name input ∷ [];
        display_items = base.display_items ++ DisplayItem.tool_use name id input ∷ [];
        open_assistant_text_index = none;
      }

  unmatched : ChatState J → Text → ChatState J
  unmatched state name = record state {
    display_items =
        state.display_items
        ++ system
            (lit "Protocol error: tool_result for \""
              ++ (name ++ lit "\" without a matching tool_use. Dropped."))
            Severity.error
          ∷ [];
  }

  -- `applyToolResult`, with the bubble, the wire content and the flag of the two kinds of result.
  unfoldable pub apply_tool_result : ChatState J → Text → DisplayItem J → Text → Bool → ChatState J
  unfolding unmatched
  apply_tool_result state name item content is_error =
      elim (queue name state.expected_tool_results) [
        | [] ↦ unmatched state name
        | id ∷ rest ↦ record state {
          display_items = state.display_items ++ item ∷ [];
          pending_tool_result_blocks =
              state.pending_tool_result_blocks
              ++ record { tool_use_id = id; content = content; is_error = is_error } ∷ [];
          expected_tool_results = set_queue name rest state.expected_tool_results;
        }
      ]

  unfoldable pub promote_blocks : ChatState J → ChatState J
  promote_blocks state = if is_empty state.pending_assistant_blocks then state else record state {
    wire_messages = state.wire_messages ++ assistant state.pending_assistant_blocks ∷ [];
    pending_assistant_blocks = [];
  }

  -- Both branches of the source that see pending results flush them.
  unfoldable pub promote_terminal_turn : ChatState J → ChatState J
  unfolding flush_pending_tool_results promote_blocks
  promote_terminal_turn state =
      let next = promote_blocks (flush_pending_tool_results state) in
      record next { expected_tool_results = []; open_assistant_text_index = none }

  unfoldable pub promote_tool_turn : ChatState J → ChatState J
  unfolding promote_blocks
  promote_tool_turn state =
      let next = promote_blocks state in
      record next {
        expected_tool_results = harvest state.pending_assistant_blocks [];
        open_assistant_text_index = none;
        status = ChatStatus.streaming;
      }

  unfoldable pub finish_turn : ChatState J → List (DisplayItem J) → ChatState J
  unfolding promote_terminal_turn
  finish_turn state notes =
      let promoted = promote_terminal_turn state in
      record promoted { status = ChatStatus.done; display_items = promoted.display_items ++ notes }

  unfoldable pub apply_done : ChatState J → StopReason → ChatState J
  unfolding promote_tool_turn promote_terminal_turn finish_turn
  apply_done state StopReason.tool_use = promote_tool_turn state
  apply_done state max_turns = mark_max_turns_exceeded (promote_terminal_turn state)
  apply_done state max_iterations = finish_turn state (
      system (lit "Conversation hit the tool-iteration cap. Try rephrasing or start a new entry.")
        warn
      ∷ [])
  apply_done state max_tokens =
      finish_turn state (system (lit "Response truncated at the token cap.") warn ∷ [])
  apply_done state refusal =
      finish_turn state (system (lit "Model declined to answer this turn.") warn ∷ [])
  apply_done state end_turn = finish_turn state []

  apply_error : ChatState J → Text → Text → ChatState J
  apply_error state code message = record state {
    status = ChatStatus.error;
    error = some (code ++ (lit ": " ++ message));
    display_items =
        state.display_items
        ++ system (lit "Agent error: " ++ (code ++ (lit ": " ++ message))) Severity.error ∷ [];
  }

  unfoldable pub when_streaming : ChatState J → ChatState J → ChatState J
  when_streaming state next = if not (is_streaming state.status) then state else next

  unfoldable pub apply_event : Json J → ChatState J → AgentEvent J → ChatState J
  unfolding apply_error
  apply_event json state (text_delta t) = when_streaming state (apply_text_delta state t)
  apply_event json state (tool_use_start id name input) =
      when_streaming state (apply_tool_use_start state id name input)
  apply_event json state (tool_result_ok name output) =
      when_streaming state
        (apply_tool_result state name (tool_result name output) (json.stringify output) false)
  apply_event json state (tool_result_failed name message) = when_streaming state (
      apply_tool_result state name (tool_result_error name message)
        (json.stringify (json.error_object message)) true)
  apply_event json state (done reason) = apply_done state reason
  apply_event json state (AgentEvent.error code message) = apply_error state code message
  apply_event json state unknown = state

  unfoldable pub apply_events : Json J → ChatState J → List (AgentEvent J) → ChatState J
  apply_events json state [] = state
  apply_events json state (e ∷ es) = apply_events json (apply_event json state e) es
