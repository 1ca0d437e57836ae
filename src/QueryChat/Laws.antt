-- ===== src/QueryChat/Laws.antt =====
-- Laws of the query page's reducer over whole event streams.
use priority_kb.Base.{
  Text, Bool, true, Option, none, some, List, [], ◌∷◌, ◌++◌, append-nil, append_assoc, ◌≡◌, sym,
  ◌∙◌, All,
}
use priority_kb.Degraded.{DegradedReasonCode}
use priority_kb.QueryChat.{
  QueryEvent, answer_delta, done, chunks_only, no_content, QueryState, apply_event, apply_events,
}

-- The text of all `answer_delta` events, in order.
unfoldable pub deltas : List QueryEvent → Text
deltas [] = []
deltas (answer_delta text ∷ es) = text ++ deltas es
deltas (_ ∷ es) = deltas es

-- Whatever else arrives, the answer is the answer so far followed by the deltas in order.
pub answer-apply_events :
    (s : QueryState) (es : List QueryEvent) → (apply_events s es).answer ≡ s.answer ++ deltas es
unfolding apply_events apply_event deltas
answer-apply_events s [] = sym (append-nil s.answer)
answer-apply_events s (answer_delta text ∷ es) =
    answer-apply_events (apply_event s (answer_delta text)) es ∙ append_assoc s.answer text _
answer-apply_events s (e ∷ es) = answer-apply_events (apply_event s e) es

-- A flag and a reason that are both set or both absent.
pub data Paired : Option Bool → Option DegradedReasonCode → Type 0 where
  healthy : Paired none none
  degraded : (r : DegradedReasonCode) → Paired (some true) (some r)

-- What a `done` event may carry without breaking the pair; the other events carry a reason only.
abbrev pub IsPaired : QueryEvent → Type 0
IsPaired (done ids d r) = Paired d r
IsPaired _ = Unit

abbrev pub HasPair : QueryState → Type 0
HasPair s = Paired s.degraded s.degraded_reason

not-Paired_flag : (b : Bool) → ¬ (Paired (some b) none)
not-Paired_flag b h = elim h [ ]

not-Paired_reason : (r : DegradedReasonCode) → ¬ (Paired none (some r))
not-Paired_reason r h = elim h [ ]

pub apply_event-HasPair :
    (s : QueryState) (e : QueryEvent) → IsPaired e → HasPair s → HasPair (apply_event s e)
unfolding apply_event
apply_event-HasPair s (done ids none none) p h = h
apply_event-HasPair s (done ids (some b) (some r)) p h = p
apply_event-HasPair s (done ids none (some r)) p h = absurd (not-Paired_reason r p)
apply_event-HasPair s (done ids (some b) none) p h = absurd (not-Paired_flag b p)
apply_event-HasPair s (chunks_only es none) p h = h
apply_event-HasPair s (chunks_only es (some r)) p h = degraded r
apply_event-HasPair s (no_content none) p h = h
apply_event-HasPair s (no_content (some r)) p h = degraded r
apply_event-HasPair s e p h = h

-- A stream whose `done` events carry both or neither of flag and reason leaves the page with both
-- or neither, from any state that has both or neither.
pub apply_events-HasPair :
    (s : QueryState) (es : List QueryEvent)
    → All IsPaired es
    → HasPair s
    → HasPair (apply_events s es)
unfolding apply_events
apply_events-HasPair s [] p h = h
apply_events-HasPair s (e ∷ es) p h =
    apply_events-HasPair (apply_event s e) es p.1 (apply_event-HasPair s e p.0 h)
