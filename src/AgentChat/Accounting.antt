-- ===== src/AgentChat/Accounting.antt =====
-- An invariant of the reducer: tool results answer tool uses that were issued.
use priority_kb.Base.{
  Text, Bool, Bool-cases, List, [], ◌∷◌, ◌++◌, ◌≡◌, refl, inl, inr, arith, All, All-append, In,
  In-self, Subset, Subset-cons, Subset-refl, Subset-trans, Subset-append_left, Subset-append_right,
  In-append_left,
}
use priority_kb.AgentChat.State.{
  Json, AgentEvent, text_delta, tool_use_start, tool_result_ok, tool_result_failed, done, unknown,
  StopReason, end_turn, max_tokens, max_iterations, max_turns, refusal, ToolResult, AssistantBlock,
  user_results, assistant, DisplayItem, ChatState, mark_max_turns_exceeded, is_streaming,
}
use priority_kb.AgentChat.Tools.{queue, ids_named, queue-set_queue, queue-harvest}
use priority_kb.AgentChat.Events.{
  flush_pending_tool_results, turn_base, apply_text_delta, apply_tool_use_start, apply_tool_result,
  promote_blocks, promote_terminal_turn, promote_tool_turn, finish_turn, apply_done, apply_event,
  when_streaming, is_empty,
}
use priority_kb.AgentChat.Wire.{tool_ids, issued, Answers, Answers-snoc, issued-snoc}

module _ {J : Type 0} where
  ids_named-Subset :
      (name : Text) (bs : List (AssistantBlock J)) → Subset (ids_named name bs) (tool_ids bs)
  unfolding ids_named tool_ids
  ids_named-Subset name [] = tt
  ids_named-Subset name (AssistantBlock.text t ∷ bs) = ids_named-Subset name bs
  ids_named-Subset name (AssistantBlock.tool_use id n input ∷ bs) =
      let rest = Subset-cons id (tool_ids bs) (ids_named name bs) (ids_named-Subset name bs) in
      ground (arith, rest, In-self id (tool_ids bs))

  -- The invariant: results on the wire and results that wait name issued ids, and so does each id
  -- that waits for a result.
  pub record Accounted (s : ChatState J) : Type 0 where
    pub answers : Answers [] s.wire_messages
    pub waiting :
        All (λ r. In (issued [] s.wire_messages) r.tool_use_id) s.pending_tool_result_blocks
    pub expected :
        (name : Text) → Subset (queue name s.expected_tool_results) (issued [] s.wire_messages)

  Accounted-grow :
      (s : ChatState J) (bs : List (AssistantBlock J))
      → Accounted s
      → Accounted (record s {
        wire_messages = s.wire_messages ++ assistant bs ∷ [];
        pending_assistant_blocks = [];
      })
  unfolding issued
  Accounted-grow s bs h = record {
    answers = Answers-snoc [] s.wire_messages (assistant bs) h.answers tt;
    waiting =
        rw (issued-snoc [] s.wire_messages (assistant bs))
          (widen s.pending_tool_result_blocks h.waiting);
    expected = λ name. rw (issued-snoc [] s.wire_messages (assistant bs)) (
        Subset-trans _ _ _ (h.expected name)
          (Subset-append_left (issued [] s.wire_messages) (tool_ids bs)));
  }
    where
      widen :
          (rs : List ToolResult)
          → All (λ r. In (issued [] s.wire_messages) r.tool_use_id) rs
          → All (λ r. In (issued [] s.wire_messages ++ tool_ids bs) r.tool_use_id) rs
      widen [] h = tt
      widen (r ∷ rs) h =
          (In-append_left (issued [] s.wire_messages) (tool_ids bs) r.tool_use_id h.0, widen rs h.1)

  flush-Accounted : (s : ChatState J) → Accounted s → Accounted (flush_pending_tool_results s)
  unfolding flush_pending_tool_results queue
  flush-Accounted s h = elim (Bool-cases (is_empty s.pending_tool_result_blocks)) [
    | inl e ↦ rw (e, flush_pending_tool_results) h
    | inr e ↦
        rw (e, flush_pending_tool_results)
          (record {
            answers =
                Answers-snoc [] s.wire_messages (user_results s.pending_tool_result_blocks)
                  h.answers (h.waiting, tt);
            waiting = tt;
            expected = λ name. tt;
          })
  ]

  turn_base-Accounted : (s : ChatState J) → Accounted s → Accounted (turn_base s)
  unfolding turn_base
  turn_base-Accounted s h = elim (Bool-cases (is_empty s.pending_assistant_blocks)) [
    | inl e ↦ rw (e, turn_base) (flush-Accounted s h)
    | inr e ↦ rw (e, turn_base) h
  ]

  text_delta-Accounted :
      (s : ChatState J) (t : Text) → Accounted s → Accounted (apply_text_delta s t)
  unfolding apply_text_delta
  text_delta-Accounted s t h =
      let k = turn_base-Accounted s h in
      record { answers = k.answers; waiting = k.waiting; expected = k.expected }

  tool_use-Accounted :
      (s : ChatState J) (id name : Text) (input : J)
      → Accounted s
      → Accounted (apply_tool_use_start s id name input)
  unfolding apply_tool_use_start
  tool_use-Accounted s id name input h =
      let k = turn_base-Accounted s h in
      record { answers = k.answers; waiting = k.waiting; expected = k.expected }

  tool_result-Accounted :
      (s : ChatState J) (name : Text) (item : DisplayItem J) (content : Text) (is_error : Bool)
      → Accounted s
      → Accounted (apply_tool_result s name item content is_error)
  unfolding apply_tool_result
  tool_result-Accounted s name item content is_error h =
      go (queue name s.expected_tool_results) refl
    where
      go :
          (ids : List Text)
          → queue name s.expected_tool_results ≡ ids
          → Accounted (apply_tool_result s name item content is_error)
      go [] e =
          rw (e, apply_tool_result)
            (record { answers = h.answers; waiting = h.waiting; expected = h.expected })
      go (id ∷ rest) e =
          let known : Subset (id ∷ rest) (issued [] s.wire_messages) = rw e at (h.expected name) in
          rw (e, apply_tool_result)
            (record {
              answers = h.answers;
              waiting =
                  All-append (λ r. In (issued [] s.wire_messages) r.tool_use_id)
                    s.pending_tool_result_blocks _ h.waiting (known.0, tt);
              expected = λ other.
                  rw (queue-set_queue name other rest s.expected_tool_results)
                    (ground (arith, known.1, h.expected other));
            })

  promote-Accounted : (s : ChatState J) → Accounted s → Accounted (promote_blocks s)
  unfolding promote_blocks
  promote-Accounted s h = elim (Bool-cases (is_empty s.pending_assistant_blocks)) [
    | inl e ↦ rw (e, promote_blocks) h
    | inr e ↦ rw (e, promote_blocks) (Accounted-grow s s.pending_assistant_blocks h)
  ]

  -- The tool uses of a turn that is promoted are on the wire.
  promote-issued :
      (s : ChatState J)
      → Subset (tool_ids s.pending_assistant_blocks) (issued [] (promote_blocks s).wire_messages)
  unfolding promote_blocks issued tool_ids
  promote-issued s = go s.pending_assistant_blocks refl
    where
      go :
          (bs : List (AssistantBlock J))
          → s.pending_assistant_blocks ≡ bs
          → Subset (tool_ids bs) (issued [] (promote_blocks s).wire_messages)
      go [] e = tt
      go (b ∷ bs) e =
          rw (e, promote_blocks)
            (rw (issued-snoc [] s.wire_messages (assistant (b ∷ bs))) (
              Subset-append_right (issued [] s.wire_messages) _ _
                (Subset-refl (tool_ids (b ∷ bs)))))

  terminal-Accounted : (s : ChatState J) → Accounted s → Accounted (promote_terminal_turn s)
  unfolding promote_terminal_turn queue
  terminal-Accounted s h =
      let k = promote-Accounted (flush_pending_tool_results s) (flush-Accounted s h) in
      record { answers = k.answers; waiting = k.waiting; expected = λ name. tt }

  tool_turn-Accounted : (s : ChatState J) → Accounted s → Accounted (promote_tool_turn s)
  unfolding promote_tool_turn queue
  tool_turn-Accounted s h =
      let k = promote-Accounted s h in
      record {
        answers = k.answers;
        waiting = k.waiting;
        expected = λ name. rw (queue-harvest name s.pending_assistant_blocks []) (
            Subset-trans _ _ _ (ids_named-Subset name s.pending_assistant_blocks)
              (promote-issued s));
      }

  finish-Accounted :
      (s : ChatState J) (notes : List (DisplayItem J))
      → Accounted s
      → Accounted (finish_turn s notes)
  unfolding finish_turn
  finish-Accounted s notes h =
      let k = terminal-Accounted s h in
      record { answers = k.answers; waiting = k.waiting; expected = k.expected }

  done-Accounted : (s : ChatState J) (r : StopReason) → Accounted s → Accounted (apply_done s r)
  unfolding apply_done mark_max_turns_exceeded
  done-Accounted s StopReason.tool_use h = tool_turn-Accounted s h
  done-Accounted s max_turns h =
      let k = terminal-Accounted s h in
      record { answers = k.answers; waiting = k.waiting; expected = k.expected }
  done-Accounted s end_turn h = finish-Accounted s _ h
  done-Accounted s max_iterations h = finish-Accounted s _ h
  done-Accounted s max_tokens h = finish-Accounted s _ h
  done-Accounted s refusal h = finish-Accounted s _ h

  when_streaming-Accounted :
      (s t : ChatState J) → Accounted s → Accounted t → Accounted (when_streaming s t)
  unfolding when_streaming
  when_streaming-Accounted s t h k = elim (Bool-cases (is_streaming s.status)) [
    | inl e ↦ rw (e, when_streaming) k
    | inr e ↦ rw (e, when_streaming) h
  ]

  pub event-Accounted :
      (json : Json J) (s : ChatState J) (e : AgentEvent J)
      → Accounted s
      → Accounted (apply_event json s e)
  unfolding apply_event
  event-Accounted json s (text_delta t) h =
      when_streaming-Accounted s _ h (text_delta-Accounted s t h)
  event-Accounted json s (tool_use_start id name input) h =
      when_streaming-Accounted s _ h (tool_use-Accounted s id name input h)
  event-Accounted json s (tool_result_ok name output) h =
      when_streaming-Accounted s _ h (tool_result-Accounted s name _ _ _ h)
  event-Accounted json s (tool_result_failed name message) h =
      when_streaming-Accounted s _ h (tool_result-Accounted s name _ _ _ h)
  event-Accounted json s (done reason) h = done-Accounted s reason h
  event-Accounted json s (AgentEvent.error code message) h = record {
    answers = h.answers;
    waiting = h.waiting;
    expected = h.expected;
  }
  event-Accounted json s unknown h = h
