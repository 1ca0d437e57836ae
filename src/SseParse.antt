-- ===== src/SseParse.antt =====
-- lib/sse-parse.ts: the parser of the agent stream. A chunk is the text that the streaming decoder
-- gives for it. What JSON.parse accepts, and the tests of the parsed value, are parameters.
pub mod Lines
pub mod Laws
pub mod Frames
use priority_kb.Base.{
  Text, lit, text_eq, ℕ, zero, suc, ◌==◌, Bool, true, false, ◌&&◌, ◌||◌, List, [], ◌∷◌, ◌++◌,
  Option, none, some, if◌then◌else◌, length, take, drop,
}
use priority_kb.SynthInput.{join}

pub data SseStreamError : Type 0 where
  malformed_json not_an_object missing_kind : (payload : Text) → SseStreamError

pub record Values (J : Type 0) : Type 0 where
  pub parse : Text → Option J
  pub is_object : J → Bool
  pub has_kind : J → Bool

-- The lines that end in a buffer, and the text behind the last of them.
pub record Cut : Type 0 where
  pub lines : List Text
  pub rest : Text

abbrev pub is_end : ℕ → Bool
is_end c = (c == 10) || (c == 13)

abbrev pub end_line : Cut → Cut
end_line k = record { lines = [] ∷ k.lines; rest = k.rest }

abbrev pub put : ℕ → Cut → Cut
put c k = elim k.lines [
  | [] ↦ record { lines = []; rest = c ∷ k.rest }
  | l ∷ ls ↦ record { lines = (c ∷ l) ∷ ls; rest = k.rest }
]

-- The inner loop over `nextLineEnd`: CR, LF and CRLF end a line.
unfoldable pub cut : Text → Cut
cut [] = record { lines = []; rest = [] }
cut (c ∷ []) =
    if is_end c then record { lines = [] ∷ []; rest = [] } else record { lines = []; rest = c ∷ [] }
cut (c ∷ d ∷ s) =
    let pair = cut s in
    let one = cut (d ∷ s) in
    if (c == 13) && (d == 10) then end_line pair else if is_end c then end_line one else put c one

unfoldable pub ends_cr : Text → Bool
ends_cr [] = false
ends_cr (c ∷ []) = c == 13
ends_cr (c ∷ d ∷ s) = ends_cr (d ∷ s)

unfoldable pub drop_last : Text → Text
drop_last [] = []
drop_last (c ∷ []) = []
drop_last (c ∷ d ∷ s) = c ∷ drop_last (d ∷ s)

abbrev pub add_cr : Cut → Cut
add_cr k = record { lines = k.lines; rest = k.rest ++ 13 ∷ [] }

-- A CR at the very end of the buffer is held back.
unfoldable pub cut_buffer : Text → Cut
cut_buffer buf = if ends_cr buf then add_cr (cut (drop_last buf)) else cut buf

-- What a line does: data lines to go on with, an event, or an exception.
pub data LineStep (J : Type 0) : Type 0 where
  goes_on : List Text → LineStep J
  yields : J → LineStep J
  fails : SseStreamError → LineStep J

-- The events so far, and what comes after them.
pub data After (S : Type 0) : Type 0 where
  open_with : S → After S
  thrown : SseStreamError → After S

pub record Fed (J : Type 0) (S : Type 0) : Type 0 where
  pub events : List J
  pub after : After S

abbrev pub emit : {J : Type 0} {S : Type 0} → J → Fed J S → Fed J S
emit e f = record { events = e ∷ f.events; after = f.after }

pub record SseState : Type 0 where
  pub line_buf : Text
  pub data_lines : List Text

abbrev pub starts_with : Text → Text → Bool
starts_with prefix s = text_eq (take (length prefix) s) prefix

module _ {J : Type 0} (values : Values J) where
  -- `flushEvent`, with data lines.
  unfoldable pub flush_event : Text → LineStep J
  flush_event payload = elim (values.parse payload) [
    | none ↦ fails (malformed_json payload)
    | some v ↦
        if values.is_object v
        then if values.has_kind v then yields v else fails (missing_kind payload)
        else fails (not_an_object payload)
  ]

  -- The value of a `data:` line, without one leading space.
  unfoldable pub field_value : Text → Text
  field_value [] = []
  field_value (c ∷ s) = if c == 32 then s else c ∷ s

  unfoldable pub take_line : List Text → Text → LineStep J
  take_line [] [] = goes_on []
  take_line (d ∷ ds) [] = flush_event (join (10 ∷ []) (d ∷ ds))
  take_line data_lines (c ∷ line) =
      if c == b':'
      then goes_on data_lines
      else if starts_with (lit "data:") (c ∷ line)
      then goes_on (data_lines ++ field_value (drop 5 (c ∷ line)) ∷ [])
      else goes_on data_lines

  abbrev pub after_line : {S : Type 0} → LineStep J → (List Text → Fed J S) → Fed J S
  after_line (goes_on next) k = k next
  after_line (yields e) k = emit e (k [])
  after_line (fails err) k = record { events = []; after = thrown err }

  unfoldable pub take_lines : List Text → List Text → Fed J (List Text)
  take_lines data_lines [] = record { events = []; after = open_with data_lines }
  take_lines data_lines (l ∷ ls) = after_line (take_line data_lines l) (λ next. take_lines next ls)

  abbrev pub keep_rest : Text → After (List Text) → After SseState
  keep_rest rest (open_with data_lines) =
      open_with (record { line_buf = rest; data_lines = data_lines })
  keep_rest rest (thrown err) = thrown err

  -- One chunk of the stream.
  unfoldable pub feed : SseState → Text → Fed J SseState
  feed state chunk =
      let k = cut_buffer (state.line_buf ++ chunk) in
      let fed = take_lines state.data_lines k.lines in
      record { events = fed.events; after = keep_rest k.rest fed.after }

  -- The iterator goes on until a chunk makes it throw.
  abbrev pub and_then : {S : Type 0} {T : Type 0} → Fed J S → (S → Fed J T) → Fed J T
  and_then f k = elim f.after [
    | open_with s ↦ record { events = f.events ++ (k s).events; after = (k s).after }
    | thrown err ↦ record { events = f.events; after = thrown err }
  ]

  unfoldable pub iterate_events : SseState → List Text → Fed J SseState
  iterate_events state [] = record { events = []; after = open_with state }
  iterate_events state (chunk ∷ chunks) =
      and_then (feed state chunk) (λ next. iterate_events next chunks)

unfoldable pub initial_state : SseState
initial_state = record { line_buf = []; data_lines = [] }
