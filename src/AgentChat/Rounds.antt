-- ===== src/AgentChat/Rounds.antt =====
-- A whole tool round on the wire: the order that the API asks for.
use priority_kb.Base.{
  Text, List, [], ◌∷◌, ◌++◌, ◌≡◌, refl, ap, ◌∙◌, append-nil, append_assoc, Bool, if◌then◌else◌,
  arith, text_eq, text_eq_refl, text_eq→eq,
}
use priority_kb.AgentChat.State.{
  Json, AgentEvent, text_delta, tool_use_start, done, StopReason, end_turn, ToolResult,
  AssistantBlock, AgentMessage, user_results, assistant, DisplayItem, ChatStatus, ChatState,
  is_streaming,
}
use priority_kb.AgentChat.Tools.{queue, ids_named, queue-set_queue, queue-harvest}
use priority_kb.AgentChat.Events.{
  flush_pending_tool_results, turn_base, extend_blocks, apply_text_delta, apply_tool_use_start,
  apply_tool_result, promote_blocks, promote_terminal_turn, promote_tool_turn, finish_turn,
  apply_done, when_streaming, apply_event, apply_events,
}
use priority_kb.AgentChat.Calls.{
  Outcome, ok, failed, Call, starts, result_of, results, deltas, uses, joined, answer_of, answers,
}

module _ {J : Type 0} (json : Json J) where
  apply_events-append :
      (s : ChatState J) (xs ys : List (AgentEvent J))
      → apply_events json s (xs ++ ys) ≡ apply_events json (apply_events json s xs) ys
  unfolding apply_events
  apply_events-append s [] ys = refl
  apply_events-append s (x ∷ xs) ys = apply_events-append (apply_event json s x) xs ys

  -- A turn is open with the blocks `bs`.
  record Open (w : List (AgentMessage J)) (bs : List (AssistantBlock J)) (s : ChatState J)
      : Type 0 where
    streaming : s.status ≡ ChatStatus.streaming
    wire : s.wire_messages ≡ w
    blocks : s.pending_assistant_blocks ≡ bs
    no_results : s.pending_tool_result_blocks ≡ []

  -- The results `rs` have come, those of `cs` are expected.
  record Collects (w : List (AgentMessage J)) (rs : List ToolResult) (cs : List (Call J))
      (s : ChatState J) : Type 0 where
    streaming : s.status ≡ ChatStatus.streaming
    wire : s.wire_messages ≡ w
    no_blocks : s.pending_assistant_blocks ≡ []
    come : s.pending_tool_result_blocks ≡ rs
    expected : (name : Text) → queue name s.expected_tool_results ≡ ids_named name (uses cs)

  start-Open :
      (w : List (AgentMessage J)) (bs : List (AssistantBlock J)) (s : ChatState J) (id name : Text)
      (input : J)
      → Open w bs s
      → Open w
          (bs ++ AssistantBlock.tool_use id name input ∷ [])
          (apply_event json s (tool_use_start id name input))
  unfolding apply_event when_streaming is_streaming apply_tool_use_start turn_base
      flush_pending_tool_results
  start-Open w bs s id name input h = ground arith

  starts-Open :
      (w : List (AgentMessage J)) (bs : List (AssistantBlock J)) (cs : List (Call J))
      (s : ChatState J)
      → Open w bs s
      → Open w (bs ++ uses cs) (apply_events json s (starts cs))
  unfolding apply_events
  starts-Open w bs [] s h = rw (append-nil bs) h
  starts-Open w bs (c ∷ cs) s h =
      rw (append_assoc bs (AssistantBlock.tool_use c.id c.name c.input ∷ []) (uses cs)) at (
        starts-Open w (bs ++ AssistantBlock.tool_use c.id c.name c.input ∷ []) cs _
          (start-Open w bs s c.id c.name c.input h))

  tool_use-Collects :
      (w : List (AgentMessage J)) (c : Call J) (cs : List (Call J)) (s : ChatState J)
      → Open w (uses (c ∷ cs)) s
      → Collects
          (w ++ assistant (uses (c ∷ cs)) ∷ [])
          []
          (c ∷ cs)
          (apply_event json s (done StopReason.tool_use))
  unfolding apply_event apply_done promote_tool_turn promote_blocks queue
  tool_use-Collects w c cs s h = record {
    streaming = refl;
    wire = ground arith;
    no_blocks = ground arith;
    come = ground arith;
    expected =
        λ name. queue-harvest name s.pending_assistant_blocks [] ∙ ap (ids_named name) h.blocks;
  }

  match-Collects :
      (w : List (AgentMessage J)) (rs : List ToolResult) (c : Call J) (cs : List (Call J))
      (s : ChatState J) (item : DisplayItem J) (content : Text) (is_error : Bool)
      → Collects w rs (c ∷ cs) s
      → Collects w
          (rs ++ record { tool_use_id = c.id; content = content; is_error = is_error } ∷ [])
          cs
          (when_streaming s (apply_tool_result s c.name item content is_error))
  unfolding when_streaming is_streaming ids_named apply_tool_result
  match-Collects w rs c cs s item content is_error h =
      rw (h.streaming, is_streaming)
        (rw (head, apply_tool_result)
          (record {
            streaming = refl;
            wire = h.wire;
            no_blocks = h.no_blocks;
            come = rw h.come;
            expected = λ other.
                queue-set_queue c.name other (ids_named c.name (uses cs)) s.expected_tool_results
                ∙ later other;
          }))
    where
      head : queue c.name s.expected_tool_results ≡ c.id ∷ ids_named c.name (uses cs)
      head = h.expected c.name ∙ ground (arith, text_eq_refl c.name)

      later :
          (other : Text)
          → (if text_eq c.name other
              then ids_named c.name (uses cs)
              else queue other s.expected_tool_results)
            ≡ ids_named other (uses cs)
      later other = ground (arith, text_eq→eq c.name other, h.expected other)

  result-Collects :
      (w : List (AgentMessage J)) (rs : List ToolResult) (cs : List (Call J)) (s : ChatState J)
      (id name : Text) (input : J) (outcome : Outcome J)
      → Collects w rs (record { id = id; name = name; input = input; outcome = outcome } ∷ cs) s
      → Collects w
          (rs ++ answer_of json id outcome ∷ [])
          cs
          (apply_event json s (result_of name outcome))
  unfolding apply_event
  result-Collects w rs cs s id name input (ok output) h = match-Collects w rs _ cs s _ _ _ h
  result-Collects w rs cs s id name input (failed message) h = match-Collects w rs _ cs s _ _ _ h

  results-Collects :
      (w : List (AgentMessage J)) (rs : List ToolResult) (cs : List (Call J)) (s : ChatState J)
      → Collects w rs cs s
      → Collects w (rs ++ answers json cs) [] (apply_events json s (results cs))
  unfolding apply_events
  results-Collects w rs [] s h = rw (append-nil rs) h
  results-Collects w rs (c ∷ cs) s h =
      rw (append_assoc rs (answer_of json c.id c.outcome ∷ []) (answers json cs)) at (
        results-Collects w (rs ++ answer_of json c.id c.outcome ∷ []) cs _
          (result-Collects w rs cs s c.id c.name c.input c.outcome h))

  first_delta-Open :
      (w : List (AgentMessage J)) (r : ToolResult) (rs : List ToolResult) (t : Text)
      (s : ChatState J)
      → Collects w (r ∷ rs) [] s
      → Open
          (w ++ user_results (r ∷ rs) ∷ [])
          (AssistantBlock.text t ∷ [])
          (apply_event json s (text_delta t))
  unfolding apply_event when_streaming is_streaming apply_text_delta turn_base extend_blocks
      flush_pending_tool_results
  first_delta-Open w r rs t s h = ground arith

  delta-Open :
      (w : List (AgentMessage J)) (u t : Text) (s : ChatState J)
      → Open w (AssistantBlock.text u ∷ []) s
      → Open w (AssistantBlock.text (u ++ t) ∷ []) (apply_event json s (text_delta t))
  unfolding apply_event when_streaming is_streaming apply_text_delta turn_base extend_blocks
      flush_pending_tool_results
  delta-Open w u t s h = ground arith

  deltas-Open :
      (w : List (AgentMessage J)) (u : Text) (ts : List Text) (s : ChatState J)
      → Open w (AssistantBlock.text u ∷ []) s
      → Open w (AssistantBlock.text (u ++ joined ts) ∷ []) (apply_events json s (deltas ts))
  unfolding apply_events
  deltas-Open w u [] s h = rw (append-nil u) h
  deltas-Open w u (t ∷ ts) s h =
      rw (append_assoc u t (joined ts)) at (deltas-Open w (u ++ t) ts _ (delta-Open w u t s h))

  end-Open :
      (w : List (AgentMessage J)) (b : AssistantBlock J) (bs : List (AssistantBlock J))
      (s : ChatState J)
      → Open w (b ∷ bs) s
      → ((apply_event json s (done end_turn)).wire_messages ≡ w ++ assistant (b ∷ bs) ∷ [])
        × ((apply_event json s (done end_turn)).status ≡ ChatStatus.done)
  unfolding apply_event apply_done finish_turn promote_terminal_turn flush_pending_tool_results
      promote_blocks
  end-Open w b bs s h = ground arith

  -- The events of one tool round and the answer that ends it.
  abbrev pub round : Call J → List (Call J) → Text → List Text → List (AgentEvent J)
  round c cs t ts =
      starts (c ∷ cs)
      ++ (done StopReason.tool_use
          ∷ (results (c ∷ cs) ++ (text_delta t ∷ (deltas ts ++ done end_turn ∷ []))))

  -- From a streaming state with empty buffers, a round of tool uses, their results in the same
  -- order and a final text puts three messages on the wire, in the order that the API asks for:
  -- the assistant's tool uses, one user message that answers each of them by its id, and the
  -- assistant's joined text. The status is then `done`. Tools may be used several times.
  pub round-wire :
      (s : ChatState J) (c : Call J) (cs : List (Call J)) (t : Text) (ts : List Text)
      → s.status ≡ ChatStatus.streaming
      → s.pending_assistant_blocks ≡ []
      → s.pending_tool_result_blocks ≡ []
      → ((apply_events json s (round c cs t ts)).wire_messages
          ≡ ((s.wire_messages ++ assistant (uses (c ∷ cs)) ∷ [])
              ++ user_results (answers json (c ∷ cs)) ∷ [])
            ++ assistant (AssistantBlock.text (t ++ joined ts) ∷ []) ∷ [])
        × ((apply_events json s (round c cs t ts)).status ≡ ChatStatus.done)
  unfolding apply_events
  round-wire s c cs t ts p q r = rw (apply_events-append s (starts (c ∷ cs))) (
      rw (apply_events-append) (
        rw (apply_events-append) (
          end-Open _ _ [] _ (
            deltas-Open _ t ts _ (
              first_delta-Open _ _ (answers json cs) t _ (
                results-Collects _ [] (c ∷ cs) _ (
                  tool_use-Collects s.wire_messages c cs _
                    (starts-Open s.wire_messages [] (c ∷ cs) s begins))))))))
    where
      begins : Open s.wire_messages [] s
      begins = record { streaming = p; wire = refl; blocks = q; no_results = r }
