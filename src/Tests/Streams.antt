-- ===== src/Tests/Streams.antt =====
-- Streams of events cut into chunks.
use priority_kb.Base.{Text, lit, true, List, [], ◌∷◌, some, ◌≡◌, refl}
use priority_kb.SseParse.{Values, open_with, iterate_events, feed, initial_state}
use priority_kb.SseParse.Laws.{joined, iterate_events-joined}
use priority_kb.SseParse.Frames.{Message, frame, frames, sent, iterate_events-frames}

abbrev plain : Values Text
plain = record { parse = λ t. some t; is_object = λ v. true; has_kind = λ v. true }

abbrev messages : List (Message Text)
messages =
    record { payload = lit "x"; value = lit "x" }
    ∷ record { payload = lit "yz"; value = lit "yz" }
    ∷ []

abbrev pieces : List Text
pieces = lit "data: x\n" ∷ lit "\ndata: y" ∷ lit "z\n\n" ∷ []

pieces-frames : joined pieces ≡ frames plain messages
unfolding joined frames frame lit
pieces-frames = refl

iterate_events-joined_example :
    iterate_events plain initial_state pieces ≡ feed plain initial_state (joined pieces)
iterate_events-joined_example = iterate_events-joined plain pieces

iterate_events-frames_example :
    iterate_events plain initial_state pieces
    ≡ record { events = sent plain messages; after = open_with initial_state }
unfolding lit
iterate_events-frames_example =
    iterate_events-frames plain messages pieces
      (((refl, tt), refl, refl, refl), (((refl, (refl, tt)), refl, refl, refl), tt)) pieces-frames
