-- ===== src/AgentChat/History.antt =====
-- Any history of the admin page: what the user does, and what the stream delivers.
use priority_kb.Base.{Text, List, [], ◌∷◌, ◌≡◌, Bool-cases, true, inl, inr}
use priority_kb.AgentChat.State.{
  Json, AgentEvent, ChatState, StopReason, end_turn, user_text, initial_chat_state,
  append_user_text, mark_unavailable, is_streaming, mark_stream_error, mark_max_turns_exceeded,
  cancel, reset, done,
}
use priority_kb.AgentChat.Tools.{queue}
use priority_kb.AgentChat.Events.{
  apply_event, apply_done, finish_turn, promote_terminal_turn, flush_pending_tool_results,
  promote_blocks,
}
use priority_kb.AgentChat.Wire.{Answers, Answers-snoc}
use priority_kb.AgentChat.Accounting.{Accounted, event-Accounted}

-- The calls that the page makes of the reducer.
pub data Action (J : Type 0) : Type 0 where
  delivers : AgentEvent J → Action J
  sends : Text → Action J
  stream_fails : Text → Action J
  cancels resets turns_exceeded agent_unavailable : Action J

module _ {J : Type 0} (json : Json J) where
  unfoldable pub act : ChatState J → Action J → ChatState J
  act s (delivers e) = apply_event json s e
  act s (sends t) = append_user_text s t
  act s (stream_fails m) = mark_stream_error s m
  act s cancels = cancel s
  act s resets = reset
  act s turns_exceeded = mark_max_turns_exceeded s
  act s agent_unavailable = mark_unavailable s

  unfoldable pub acts : ChatState J → List (Action J) → ChatState J
  acts s [] = s
  acts s (a ∷ rest) = acts (act s a) rest

  initial-Accounted : Accounted {J = J} initial_chat_state
  unfolding initial_chat_state queue
  initial-Accounted = record { answers = tt; waiting = tt; expected = λ name. tt }

  act-Accounted : (s : ChatState J) (a : Action J) → Accounted s → Accounted (act s a)
  unfolding act append_user_text mark_stream_error mark_max_turns_exceeded mark_unavailable reset
      queue initial-Accounted cancel
  act-Accounted s (delivers e) h = event-Accounted json s e h
  act-Accounted s (sends t) h = record {
    answers = Answers-snoc [] s.wire_messages (user_text t) h.answers tt;
    waiting = tt;
    expected = λ name. tt;
  }
  act-Accounted s cancels h = elim (Bool-cases (is_streaming s.status)) [
    | inl e ↦ rw (e, cancel) (record { answers = h.answers; waiting = tt; expected = λ name. tt })
    | inr e ↦ rw (e, cancel) h
  ]
  act-Accounted s resets h = initial-Accounted
  act-Accounted s a h = record { answers = h.answers; waiting = h.waiting; expected = h.expected }

  acts-Accounted : (s : ChatState J) (as' : List (Action J)) → Accounted s → Accounted (acts s as')
  unfolding acts
  acts-Accounted s [] h = h
  acts-Accounted s (a ∷ rest) h = acts-Accounted (act s a) rest (act-Accounted s a h)

  -- After any history from the initial state, each tool result on the wire names a tool use of an
  -- earlier assistant message, whatever events the server sends.
  pub acts-Answers :
      (as' : List (Action J)) → Answers [] (acts initial_chat_state as').wire_messages
  acts-Answers as' = (acts-Accounted initial_chat_state as' initial-Accounted).answers

  -- When the user cancels a turn that streams, and a `done` event comes afterwards, the wire is as it
  -- was before both.
  pub cancel-done :
      (s : ChatState J) (r : StopReason)
      → is_streaming s.status ≡ true
      → (apply_event json (cancel s) (done r)).wire_messages ≡ s.wire_messages
  unfolding cancel apply_event apply_done finish_turn promote_terminal_turn
      flush_pending_tool_results promote_blocks mark_max_turns_exceeded
  cancel-done s end_turn h = rw (h, cancel)
  cancel-done s r h = rw (h, cancel)
