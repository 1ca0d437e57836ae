-- ===== src/Ingest/Caption.antt =====
-- lib/caption.ts: `deriveCaption`.
use priority_kb.Base.{
  Text, ℕ, Bool, List, [], ◌∷◌, Option, none, some, length, reverse, trim, ◌==◌, if◌then◌else◌,
}
use priority_kb.Snippet.{safe_snippet_slice}

abbrev pub caption_display_clip_chars : ℕ
caption_display_clip_chars = 160

-- The line read so far, reversed, without the `\r` of a `\r\n`.
drop_cr : Text → Text
drop_cr [] = []
drop_cr (c ∷ s) = if c == 13 then s else c ∷ s

-- `body.split(/\r?\n/)`, `line` being the reversed line so far.
unfoldable pub split_lines : Text → Text → List Text
unfolding drop_cr
split_lines line [] = reverse line ∷ []
split_lines line (c ∷ s) =
    let rest = split_lines (if c == 10 then [] else c ∷ line) s in
    if c == 10 then reverse (drop_cr line) ∷ rest else rest

-- `is_mark` is `\p{M}` on a code unit.
module _ (is_mark : ℕ → Bool) where
  unfoldable pub first_line : List Text → Option Text
  unfolding trim safe_snippet_slice
  first_line [] = none
  first_line (l ∷ ls) =
      if length (trim l) == 0
      then first_line ls
      else some (safe_snippet_slice is_mark (trim l) caption_display_clip_chars)

  unfoldable pub derive_caption : Text → Option Text
  unfolding split_lines first_line
  derive_caption body = first_line (split_lines [] body)
