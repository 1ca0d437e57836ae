-- ===== src/AgentChat/Wire.antt =====
-- The ids of tool uses on the wire, and the tool results that answer them.
use priority_kb.Base.{Text, List, [], ◌∷◌, ◌++◌, ◌≡◌, refl, All, In}
use priority_kb.AgentChat.State.{AssistantBlock, AgentMessage, user_text, user_results, assistant}

module _ {J : Type 0} where
  unfoldable pub tool_ids : List (AssistantBlock J) → List Text
  tool_ids [] = []
  tool_ids (AssistantBlock.text t ∷ bs) = tool_ids bs
  tool_ids (AssistantBlock.tool_use id name input ∷ bs) = id ∷ tool_ids bs

  -- The ids of `seen` and of the tool uses of all assistant messages.
  unfoldable pub issued : List Text → List (AgentMessage J) → List Text
  issued seen [] = seen
  issued seen (assistant bs ∷ ms) = issued (seen ++ tool_ids bs) ms
  issued seen (m ∷ ms) = issued seen ms

  -- Each tool result names a tool use of an earlier assistant message.
  abbrev pub Answers : List Text → List (AgentMessage J) → Type 0
  Answers seen [] = Unit
  Answers seen (user_text t ∷ ms) = Answers seen ms
  Answers seen (user_results rs ∷ ms) = All (λ r. In seen r.tool_use_id) rs × Answers seen ms
  Answers seen (assistant bs ∷ ms) = Answers (seen ++ tool_ids bs) ms

  pub Answers-snoc :
      (seen : List Text) (ms : List (AgentMessage J)) (m : AgentMessage J)
      → Answers seen ms
      → Answers (issued seen ms) (m ∷ [])
      → Answers seen (ms ++ m ∷ [])
  unfolding issued
  Answers-snoc seen [] m h k = k
  Answers-snoc seen (user_text t ∷ ms) m h k = Answers-snoc seen ms m h k
  Answers-snoc seen (user_results rs ∷ ms) m h k = (h.0, Answers-snoc seen ms m h.1 k)
  Answers-snoc seen (assistant bs ∷ ms) m h k = Answers-snoc (seen ++ tool_ids bs) ms m h k

  pub issued-snoc :
      (seen : List Text) (ms : List (AgentMessage J)) (m : AgentMessage J)
      → issued seen (ms ++ m ∷ []) ≡ issued (issued seen ms) (m ∷ [])
  unfolding issued
  issued-snoc seen [] m = refl
  issued-snoc seen (assistant bs ∷ ms) m = issued-snoc (seen ++ tool_ids bs) ms m
  issued-snoc seen (user_text t ∷ ms) m = issued-snoc seen ms m
  issued-snoc seen (user_results rs ∷ ms) m = issued-snoc seen ms m
