-- ===== src/SseParse/Laws.antt =====
-- The chunks of a stream may be cut at any place.
use priority_kb.Base.{Text, List, [], ◌∷◌, ◌++◌, append_assoc, append-nil, ◌≡◌, refl, sym, ap, ◌∙◌}
use priority_kb.SseParse.{
  Values, Cut, cut, ends_cr, cut_buffer, LineStep, goes_on, yields, fails, After, open_with, thrown,
  Fed, emit, SseState, after_line, take_line, take_lines, keep_rest, feed, and_then, iterate_events,
  initial_state,
}
use priority_kb.SseParse.Lines.{cut_held, more, cut_buffer-eq-cut_held, cut_held-append}

-- The whole text of a stream.
unfoldable pub joined : List Text → Text
joined [] = []
joined (t ∷ ts) = t ++ joined ts

module _ {J : Type 0} (values : Values J) where
  and_then-emit :
      {S : Type 0} {T : Type 0} (e : J) (f : Fed J S) (k : S → Fed J T)
      → and_then values (emit e f) k ≡ emit e (and_then values f k)
  and_then-emit {S} {T} e f k = go f.events f.after
    where
      go :
          (es : List J) (a : After S)
          → and_then values (emit e (record { events = es; after = a })) k
            ≡ emit e (and_then values (record { events = es; after = a }) k)
      go es (open_with s) = refl
      go es (thrown err) = refl

  and_then-after_line :
      (s : LineStep J) (k j l : List Text → Fed J (List Text))
      → ((n : List Text) → l n ≡ and_then values (k n) j)
      → after_line values s l ≡ and_then values (after_line values s k) j
  and_then-after_line (goes_on n) k j l h = h n
  and_then-after_line (yields e) k j l h = ap (emit e) (h []) ∙ sym (and_then-emit e (k []) j)
  and_then-after_line (fails err) k j l h = refl

  take_lines-append :
      (data_lines xs ys : List Text)
      → take_lines values data_lines (xs ++ ys)
        ≡ and_then values (take_lines values data_lines xs) (λ d. take_lines values d ys)
  unfolding take_lines
  take_lines-append data_lines [] ys = refl
  take_lines-append data_lines (x ∷ xs) ys =
      and_then-after_line (take_line values data_lines x) (λ n. take_lines values n xs) _ _
        (λ n. take_lines-append n xs ys)

  abbrev with_rest : Fed J (List Text) → Text → Fed J SseState
  with_rest f r = record { events = f.events; after = keep_rest values r f.after }

  with_rest-more :
      (f : Fed J (List Text)) (r u : Text)
      → with_rest
          (and_then values f (λ d. take_lines values d (cut_held (r ++ u)).lines))
          (cut_held (r ++ u)).rest
        ≡ and_then values (with_rest f r) (λ n. feed values n u)
  unfolding feed
  with_rest-more f r u = go f.events f.after
    where
      go :
          (es : List J) (a : After (List Text))
          → with_rest
              (and_then values
                (record { events = es; after = a })
                (λ d. take_lines values d (cut_held (r ++ u)).lines))
              (cut_held (r ++ u)).rest
            ≡ and_then values
                (with_rest (record { events = es; after = a }) r)
                (λ n. feed values n u)
      go es (open_with d) = rw (cut_buffer-eq-cut_held (r ++ u)) refl
      go es (thrown err) = refl

  abbrev from_cut : List Text → Cut → Fed J SseState
  from_cut data_lines k = with_rest (take_lines values data_lines k.lines) k.rest

  from_cut-more :
      (data_lines : List Text) (k : Cut) (u : Text)
      → from_cut data_lines (more k u)
        ≡ and_then values (from_cut data_lines k) (λ n. feed values n u)
  unfolding more
  from_cut-more data_lines k u =
      ap (λ f. with_rest f (cut_held (k.rest ++ u)).rest)
        (take_lines-append data_lines k.lines (cut_held (k.rest ++ u)).lines)
      ∙ with_rest-more (take_lines values data_lines k.lines) k.rest u

  pub feed-append :
      (s : SseState) (t u : Text)
      → feed values s (t ++ u) ≡ and_then values (feed values s t) (λ n. feed values n u)
  unfolding feed
  feed-append s t u =
      ap (from_cut s.data_lines) (
        cut_buffer-eq-cut_held (s.line_buf ++ (t ++ u))
        ∙ ap cut_held (sym (append_assoc s.line_buf t u))
        ∙ cut_held-append (s.line_buf ++ t) u)
      ∙ from_cut-more s.data_lines (cut_held (s.line_buf ++ t)) u
      ∙ ap (λ k. and_then values (from_cut s.data_lines k) (λ n. feed values n u))
          (sym (cut_buffer-eq-cut_held (s.line_buf ++ t)))

  and_then-done :
      (f : Fed J SseState)
      → and_then values f (λ s. record { events = []; after = open_with s }) ≡ f
  and_then-done f = go f.events f.after
    where
      go :
          (es : List J) (a : After SseState)
          → and_then values
              (record { events = es; after = a })
              (λ s. record { events = []; after = open_with s })
            ≡ record { events = es; after = a }
      go es (open_with s) = rw (append-nil es) refl
      go es (thrown err) = refl

  and_then-ext :
      {S : Type 0} {T : Type 0} (f : Fed J S) (k l : S → Fed J T)
      → ((s : S) → k s ≡ l s)
      → and_then values f k ≡ and_then values f l
  and_then-ext {S} {T} f k l h = go f.after
    where
      go :
          (a : After S)
          → and_then values (record { events = f.events; after = a }) k
            ≡ and_then values (record { events = f.events; after = a }) l
      go (open_with s) = rw (h s) refl
      go (thrown err) = refl

  iterate_events-cons :
      (cs : List Text) (s : SseState) (c : Text)
      → iterate_events values s (c ∷ cs) ≡ feed values s (c ++ joined cs)
  unfolding iterate_events joined
  iterate_events-cons [] s c =
      and_then-done (feed values s c) ∙ ap (feed values s) (sym (append-nil c))
  iterate_events-cons (d ∷ ds) s c =
      and_then-ext (feed values s c) _ _ (λ n. iterate_events-cons ds n d)
      ∙ sym (feed-append s c (d ++ joined ds))

  -- However a stream is cut into chunks, the parser yields the same events, ends in the same state
  -- or throws the same error as for the whole text in one chunk.
  pub iterate_events-joined :
      (chunks : List Text)
      → iterate_events values initial_state chunks ≡ feed values initial_state (joined chunks)
  unfolding iterate_events joined initial_state feed cut_buffer cut take_lines ends_cr
  iterate_events-joined [] = refl
  iterate_events-joined (c ∷ cs) = iterate_events-cons cs initial_state c
