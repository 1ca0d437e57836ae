-- ===== src/Snippet.antt =====
-- lib/snippet.ts: the preview of a candidate's body. `is_mark` is Unicode's `\p{M}` on one code unit.
pub mod Laws
use priority_kb.Base.{
  Text, lit, text_eq, ℕ, zero, suc, ◌-◌, ltb, leb, Bool, true, false, ◌&&◌, List, [], ◌∷◌, ◌++◌,
  Option, none, some, if◌then◌else◌, length, take, drop, get_elem?,
}

abbrev pub candidate_snippet_max_chars : ℕ
candidate_snippet_max_chars = 240

unfoldable pub starts_with : Text → Text → Bool
starts_with s prefix = text_eq (take (length prefix) s) prefix

unfoldable pub strip_synth_rep_prefix : Text → Text → Text
strip_synth_rep_prefix body title =
    let prefix = lit "# " ++ (title ++ lit "\n") in
    if starts_with body prefix then drop (length prefix) body else body

module _ (is_mark : ℕ → Bool) where
  -- `charAt(cut)` is a mark; it is "" past the end.
  unfoldable pub mark_at : Text → ℕ → Bool
  mark_at body cut = elim (get_elem? body cut) [ none ↦ false | some c ↦ is_mark c ]

  unfoldable pub back_off_marks : Text → ℕ → ℕ
  back_off_marks body zero = zero
  back_off_marks body (suc cut) =
      let less = back_off_marks body cut in if mark_at body (suc cut) then less else suc cut

  unfoldable pub back_off_surrogate : Text → ℕ → ℕ
  back_off_surrogate body zero = zero
  back_off_surrogate body (suc cut) = elim (get_elem? body cut) [
    | none ↦ suc cut
    | some c ↦ if leb 0xd800 c && leb c 0xdbff then cut else suc cut
  ]

  unfoldable pub safe_snippet_slice : Text → ℕ → Text
  safe_snippet_slice body max_chars =
      if leb (length body) max_chars
      then body
      else take (back_off_surrogate body (back_off_marks body max_chars)) body ++ lit "…"

  unfoldable pub project_candidate_snippet : Text → Text → Text
  project_candidate_snippet body title =
      safe_snippet_slice (strip_synth_rep_prefix body title) candidate_snippet_max_chars
