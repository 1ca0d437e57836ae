-- ===== src/Tests/Chat.antt =====
-- Histories of the two chat pages.
use priority_kb.Base.{Text, lit, List, [], ◌∷◌, ◌++◌, none, some, ◌≡◌, refl, true, ◌↔◌}
use priority_kb.Degraded.{synth_unavailable, map_degraded_reason, Health}
use priority_kb.Degraded.Laws.{map_degraded_reason-eq-none, map_degraded_reason_injective}
use priority_kb.QueryChat.{QueryEvent, answer_delta, chunks_only, initial_query_state}
use priority_kb.QueryChat
use priority_kb.QueryChat.Laws.{deltas, HasPair, healthy, answer-apply_events, apply_events-HasPair}
use priority_kb.AgentChat.State.{
  Json, end_turn, tool_use, text_delta, tool_use_start, tool_result_ok, done, user_results,
  assistant, is_streaming, AssistantBlock, ChatState, ChatStatus, initial_chat_state,
  append_user_text, cancel,
}
use priority_kb.AgentChat.Events.{apply_event, apply_events}
use priority_kb.AgentChat.Wire.{Answers}
use priority_kb.AgentChat.History.{delivers, sends, acts, acts-Answers, cancel-done}
use priority_kb.AgentChat.Calls.{Call, ok, failed, uses, answers, joined}
use priority_kb.AgentChat.Rounds.{round, round-wire}

abbrev texts : Json Text
texts = record { stringify = λ j. j; error_object = λ m. m }

abbrev search : Call Text
search = record { id = lit "t1"; name = lit "search"; input = lit "{}"; outcome = ok (lit "[]") }

abbrev search_again : Call Text
search_again = record {
  id = lit "t2";
  name = lit "search";
  input = lit "{}";
  outcome = failed (lit "no");
}

abbrev asked : ChatState Text
asked = append_user_text initial_chat_state (lit "hi")

abbrev all_up : Health
all_up = record { embed_ok = true; rerank_ok = true; synth_ok = true; fused_non_empty = true }

acts-Answers_example :
    Answers []
      (acts texts initial_chat_state (
        sends (lit "hi")
        ∷ delivers (tool_use_start (lit "t1") (lit "search") (lit "{}"))
        ∷ delivers (done tool_use)
        ∷ delivers (tool_result_ok (lit "search") (lit "[]"))
        ∷ delivers (text_delta (lit "ok"))
        ∷ delivers (done end_turn)
        ∷ [])).wire_messages
acts-Answers_example = acts-Answers texts (
    sends (lit "hi")
    ∷ delivers (tool_use_start (lit "t1") (lit "search") (lit "{}"))
    ∷ delivers (done tool_use)
    ∷ delivers (tool_result_ok (lit "search") (lit "[]"))
    ∷ delivers (text_delta (lit "ok"))
    ∷ delivers (done end_turn)
    ∷ [])

round-wire_example :
    ((apply_events texts asked
        (round texts search (search_again ∷ []) (lit "o") (lit "k" ∷ []))).wire_messages
      ≡ ((asked.wire_messages ++ assistant (uses (search ∷ search_again ∷ [])) ∷ [])
          ++ user_results (answers texts (search ∷ search_again ∷ [])) ∷ [])
        ++ assistant (AssistantBlock.text (lit "o" ++ joined (lit "k" ∷ [])) ∷ []) ∷ [])
    × ((apply_events texts asked
          (round texts search (search_again ∷ []) (lit "o") (lit "k" ∷ []))).status
        ≡ ChatStatus.done)
unfolding append_user_text
round-wire_example =
    round-wire texts asked search (search_again ∷ []) (lit "o") (lit "k" ∷ []) refl refl refl

cancel-done_example :
    (apply_event texts (cancel asked) (done end_turn)).wire_messages ≡ asked.wire_messages
unfolding append_user_text is_streaming
cancel-done_example = cancel-done texts asked end_turn refl

abbrev wire : List QueryEvent
wire =
    answer_delta (lit "a") ∷ answer_delta (lit "b") ∷ chunks_only [] (some synth_unavailable) ∷ []

answer-apply_events_example :
    (QueryChat.apply_events initial_query_state wire).answer
    ≡ initial_query_state.answer ++ deltas wire
answer-apply_events_example = answer-apply_events initial_query_state wire

apply_events-HasPair_example : HasPair (QueryChat.apply_events initial_query_state wire)
unfolding initial_query_state
apply_events-HasPair_example =
    apply_events-HasPair initial_query_state wire (tt, (tt, (tt, tt))) healthy

map_degraded_reason-eq-none_example :
    (map_degraded_reason all_up ≡ none)
    ↔ ((all_up.embed_ok ≡ true) × (all_up.rerank_ok ≡ true) × (all_up.synth_ok ≡ true))
map_degraded_reason-eq-none_example = map_degraded_reason-eq-none all_up

map_degraded_reason_injective_example : all_up ≡ all_up
map_degraded_reason_injective_example = map_degraded_reason_injective all_up all_up refl refl refl
