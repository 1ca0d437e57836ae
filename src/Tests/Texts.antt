-- ===== src/Tests/Texts.antt =====
-- Diffs, previews and escapes.
use priority_kb.Base.{Text, lit, List, [], ◌∷◌, ◌≡◌, ◌≤◌, refl, false, length, text_eq}
use priority_kb.Diff.{diff_lines, diff_of, split_lines, backtrack, lcs_matrix, is_blank, cell}
use priority_kb.Diff.Rebuild.{Shows, old_side, new_side, diff_lines-Shows}
use priority_kb.Diff.Matrix.{start, drops, adds, pairs}
use priority_kb.Diff.Longest.{kept, backtrack-longest}
use priority_kb.Snippet.{safe_snippet_slice}
use priority_kb.Snippet.Laws.{IsCut, safe_snippet_slice-IsCut}
use priority_kb.SynthInput.Escape.{escape_attribute}
use priority_kb.SynthInput.Laws.{entities, escape_attribute-eq-entities}

abbrev old_lines : List Text
old_lines = lit "a" ∷ lit "b" ∷ []

abbrev new_lines : List Text
new_lines = lit "b" ∷ lit "c" ∷ []

backtrack-longest_example :
    (1 ≤ kept (backtrack old_lines new_lines (lcs_matrix old_lines new_lines)))
    × (kept (backtrack old_lines new_lines (lcs_matrix old_lines new_lines))
        ≡ cell (lcs_matrix old_lines new_lines) (length old_lines) (length new_lines))
unfolding lit
backtrack-longest_example = backtrack-longest old_lines new_lines (adds (pairs refl (drops start)))

not_oversized : (diff_lines (lit "a\nb") (lit "b\nc")).oversized ≡ false
unfolding diff_lines diff_of split_lines lit text_eq is_blank
not_oversized = refl

diff_lines-Shows_example :
    Shows (lit "a\nb") (lit "b\nc") (old_side (diff_lines (lit "a\nb") (lit "b\nc")).chunks)
    × Shows (lit "b\nc") (lit "a\nb") (new_side (diff_lines (lit "a\nb") (lit "b\nc")).chunks)
diff_lines-Shows_example = diff_lines-Shows (lit "a\nb") (lit "b\nc") not_oversized

safe_snippet_slice-IsCut_example :
    IsCut (lit "abc") 2 (safe_snippet_slice (λ c. false) (lit "abc") 2)
safe_snippet_slice-IsCut_example = safe_snippet_slice-IsCut (λ c. false) (lit "abc") 2

escape_attribute-eq-entities_example : escape_attribute (lit "<&>") ≡ entities (lit "<&>")
escape_attribute-eq-entities_example = escape_attribute-eq-entities (lit "<&>")
