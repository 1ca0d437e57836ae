-- ===== src/SseParse/Frames.antt =====
-- What the agent route writes is what the parser yields.
use priority_kb.Base.{
  Text, lit, text_eq, true, false, List, [], ◌∷◌, ◌++◌, some, ◌≡◌, refl, ap, ◌∙◌, arith, All,
  All-append,
}
use priority_kb.SynthInput.{join}
use priority_kb.SseParse.{
  Values, is_end, put, goes_on, yields, open_with, flush_event, field_value, take_line, take_lines,
  cut_buffer, cut, ends_cr, emit, feed, and_then, iterate_events, initial_state,
}
use priority_kb.SseParse.Lines.{cut_held, cut_held-put, cut_buffer-eq-cut_held}
use priority_kb.SseParse.Laws.{joined, feed-append, iterate_events-joined}

-- An event as the route writes it: its JSON text, and the value that the text stands for.
pub record Message (J : Type 0) : Type 0 where
  pub payload : Text
  pub value : J

-- `data: <JSON>\n\n`
unfoldable pub frame : Text → Text
frame payload = (lit "data: " ++ payload) ++ (10 ∷ 10 ∷ [])

abbrev NoEnds : Text → Type 0
NoEnds t = All (λ c. is_end c ≡ false) t

cut_held-line :
    (t : Text)
    → NoEnds t
    → cut_held (t ++ (10 ∷ 10 ∷ [])) ≡ record { lines = t ∷ [] ∷ []; rest = [] }
unfolding cut_held
cut_held-line [] h = refl
cut_held-line (c ∷ t) h =
    cut_held-put c (t ++ (10 ∷ 10 ∷ [])) h.0 ∙ ap (put c) (cut_held-line t h.1)

NoEnds-data : NoEnds (lit "data: ")
unfolding lit
NoEnds-data = (refl, (refl, (refl, (refl, (refl, (refl, tt))))))

module _ {J : Type 0} (values : Values J) where
  unfoldable pub frames : List (Message J) → Text
  frames [] = []
  frames (m ∷ ms) = frame m.payload ++ frames ms

  abbrev pub sent : List (Message J) → List J
  sent [] = []
  sent (m ∷ ms) = m.value ∷ sent ms

  -- The text has no line end, and parses to the value, an object with a kind.
  abbrev pub IsMessage : Message J → Type 0
  IsMessage m =
      All (λ c. is_end c ≡ false) m.payload
      × (values.parse m.payload ≡ some m.value)
      × (values.is_object m.value ≡ true)
      × (values.has_kind m.value ≡ true)

  take_line-data : (p : Text) → take_line values [] (lit "data: " ++ p) ≡ goes_on (p ∷ [])
  unfolding take_line lit text_eq field_value
  take_line-data p = refl

  take_line-end :
      (m : Message J) → IsMessage m → take_line values (m.payload ∷ []) [] ≡ yields m.value
  unfolding take_line flush_event join
  take_line-end m h = ground (arith, h.1, h.2, h.3)

  take_lines-frame :
      (m : Message J)
      → IsMessage m
      → take_lines values [] ((lit "data: " ++ m.payload) ∷ [] ∷ [])
        ≡ record { events = m.value ∷ []; after = open_with [] }
  unfolding take_lines
  take_lines-frame m h = rw (take_line-data m.payload) (rw (take_line-end m h) refl)

  feed-frame :
      (m : Message J)
      → IsMessage m
      → feed values initial_state (frame m.payload)
        ≡ record { events = m.value ∷ []; after = open_with initial_state }
  unfolding feed initial_state frame
  feed-frame m h = rw (cut_buffer-eq-cut_held ((lit "data: " ++ m.payload) ++ (10 ∷ 10 ∷ []))) (
      rw
        (cut_held-line (lit "data: " ++ m.payload)
          (All-append _ (lit "data: ") m.payload NoEnds-data h.0))
        (rw (take_lines-frame m h) refl))

  feed-nothing :
      feed values initial_state [] ≡ record { events = []; after = open_with initial_state }
  unfolding feed initial_state cut_buffer cut ends_cr take_lines
  feed-nothing = refl

  feed-frames :
      (ms : List (Message J))
      → All IsMessage ms
      → feed values initial_state (frames ms)
        ≡ record { events = sent ms; after = open_with initial_state }
  unfolding frames
  feed-frames [] h = feed-nothing
  feed-frames (m ∷ ms) h =
      feed-append values initial_state (frame m.payload) (frames ms)
      ∙ ap (λ f. and_then values f (λ n. feed values n (frames ms))) (feed-frame m h.0)
      ∙ ap (emit m.value) (feed-frames ms h.1)

  -- A stream that frames messages one after the other, cut into chunks at any place, yields the
  -- messages' values in order and leaves the parser as it began.
  pub iterate_events-frames :
      (ms : List (Message J)) (chunks : List Text)
      → All IsMessage ms
      → joined chunks ≡ frames ms
      → iterate_events values initial_state chunks
        ≡ record { events = sent ms; after = open_with initial_state }
  iterate_events-frames ms chunks h e =
      iterate_events-joined values chunks ∙ ap (feed values initial_state) e ∙ feed-frames ms h
