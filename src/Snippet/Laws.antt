-- ===== src/Snippet/Laws.antt =====
-- Where `safeSnippetSlice` cuts.
use priority_kb.Base.{
  Text, lit, ℕ, zero, suc, ◌≤◌, ◌<◌, leb, leb→le, Bool, true, ◌&&◌, ◌≡◌, refl, ◌++◌, ◌⊎◌, inl, inr,
  some, length, take, get_elem?, arith, Bool-cases,
}
use priority_kb.Snippet.{back_off_marks, back_off_surrogate, safe_snippet_slice}

-- A cut before `k` would part a high surrogate from the low one after it.
abbrev pub Parts : Text → ℕ → Type 0
Parts body k =
    (i : ℕ) × (h : ℕ) × (l : ℕ) × (k ≡ suc i)
    × (get_elem? body i ≡ some h)
    × ((leb 0xd800 h && leb h 0xdbff) ≡ true)
    × (get_elem? body k ≡ some l)
    × ((leb 0xdc00 l && leb l 0xdfff) ≡ true)

-- The text itself where it is short enough, or a prefix of at most `max` units and an ellipsis,
-- cut where no surrogate pair is parted.
abbrev pub IsCut : Text → ℕ → Text → Type 0
IsCut body max_chars out =
    ((length body ≤ max_chars) × (out ≡ body))
    ⊎ ((k : ℕ) × (max_chars < length body)
        × (k ≤ max_chars)
        × (out ≡ take k body ++ lit "…")
        × ¬ Parts body k)

module _ (is_mark : ℕ → Bool) where
  back_off_marks-le : (body : Text) (cut : ℕ) → back_off_marks is_mark body cut ≤ cut
  unfolding back_off_marks
  back_off_marks-le body zero = omega arith
  back_off_marks-le body (suc cut) = ground (arith, back_off_marks-le body cut)

  back_off_surrogate-le : (body : Text) (cut : ℕ) → back_off_surrogate is_mark body cut ≤ cut
  unfolding back_off_surrogate
  back_off_surrogate-le body zero = omega arith
  back_off_surrogate-le body (suc cut) = ground arith

  back_off_surrogate-Parts :
      (body : Text) (cut : ℕ) → ¬ Parts body (back_off_surrogate is_mark body cut)
  unfolding back_off_surrogate
  back_off_surrogate-Parts body zero (i, h, l, e, at_i, high, at_k, low) = cc
  back_off_surrogate-Parts body (suc cut) (i, h, l, e, at_i, high, at_k, low) = ground arith

  -- The slice is the text itself where it has at most `max_chars` units, and otherwise a prefix
  -- of at most `max_chars` units and an ellipsis, cut where no surrogate pair is parted.
  pub safe_snippet_slice-IsCut :
      (body : Text) (max_chars : ℕ)
      → IsCut body max_chars (safe_snippet_slice is_mark body max_chars)
  unfolding safe_snippet_slice
  safe_snippet_slice-IsCut body max_chars = elim (Bool-cases (leb (length body) max_chars)) [
    | inl e ↦ rw e (inl (leb→le _ _ e, refl))
    | inr e ↦ rw e (
        inr (
          back_off_surrogate is_mark body (back_off_marks is_mark body max_chars),
          ground arith,
          omega (
            arith,
            back_off_surrogate-le body (back_off_marks is_mark body max_chars),
            back_off_marks-le body max_chars,
          ),
          refl,
          back_off_surrogate-Parts body _,
        ))
  ]
