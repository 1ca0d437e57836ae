-- ===== src/Diff/Rebuild.antt =====
-- Both texts can be read back from a diff.
use priority_kb.Base.{
  Text, text_eq, text_eq→eq, eq→text_eq, ltb, ◌||◌, ◌&&◌, ◌==◌, ◌≢◌, inl, inr, Bool-cases, ℕ, zero,
  suc, ◌≤◌, ◌<◌, true, false, List, [], ◌∷◌, ◌++◌, append_assoc, append-nil, reverse, length, take,
  take-suc, take_all, ◌≡◌, refl, sym, ap, ◌∙◌, ◌⊎◌, arith,
}
use mathlib.Core.List.{reverse-cons}
use priority_kb.Diff.{
  context, add, remove, DiffChunk, split_lines, line, lcs_matrix, backtrack_from, backtrack,
  lines_from, max_diff_lines, chunks_of, is_blank, diff_of, diff_lines,
}

-- The lines of the old text that a diff shows, and those of the new text.
pub old_side : List DiffChunk → List Text
old_side [] = []
old_side (c ∷ cs) = elim c.kind [ add ↦ old_side cs | _ ↦ c.text ∷ old_side cs ]

pub new_side : List DiffChunk → List Text
new_side [] = []
new_side (c ∷ cs) = elim c.kind [ remove ↦ new_side cs | _ ↦ c.text ∷ new_side cs ]

-- What the loop has left to put in front of `result`.
abbrev Sides : List Text → List Text → ℕ → ℕ → List DiffChunk → List DiffChunk → Type 0
Sides a b i j result out =
    (old_side out ≡ take i a ++ old_side result) × (new_side out ≡ take j b ++ new_side result)

module _ (a b : List Text) (dp : List (List ℕ)) where
  take-cons :
      (ls : List Text) (i : ℕ) (rest : List Text)
      → i < length ls
      → take i ls ++ line ls i ∷ rest ≡ take (suc i) ls ++ rest
  take-cons ls i rest h =
      sym
        (ap (λ l. l ++ rest) (take-suc i ls [] h) ∙ append_assoc (take i ls) (line ls i ∷ []) rest)

  backtrack_from-Sides :
      (i j : ℕ) (result : List DiffChunk)
      → i ≤ length a
      → j ≤ length b
      → Sides a b i j result (backtrack_from a b dp i j result)
  unfolding backtrack_from old_side new_side
  backtrack_from-Sides zero zero result h k = (refl, refl)
  backtrack_from-Sides zero (suc j) result h k = ground (
    arith,
    backtrack_from-Sides zero j (record { kind = add; text = line b j } ∷ result) h (omega arith),
    take-cons b j (new_side result) (omega arith),
  )
  backtrack_from-Sides (suc i) zero result h k = ground (
    arith,
    backtrack_from-Sides i zero (record { kind = remove; text = line a i } ∷ result) (omega arith)
        k,
    take-cons a i (old_side result) (omega arith),
  )
  backtrack_from-Sides (suc i) (suc j) result h k = ground (
    arith,
    backtrack_from-Sides i j (record { kind = context; text = line a i } ∷ result) (omega arith)
        (omega arith),
    backtrack_from-Sides i (suc j) (record { kind = remove; text = line a i } ∷ result)
        (omega arith) k,
    backtrack_from-Sides (suc i) j (record { kind = add; text = line b j } ∷ result) h
        (omega arith),
    take-cons a i (old_side result) (omega arith),
    take-cons b j (new_side result) (omega arith),
    text_eq→eq (line a i) (line b j),
  )

sides-chunks_of :
    (ts : List Text)
    → (old_side (chunks_of context ts) ≡ ts)
      × (new_side (chunks_of context ts) ≡ ts)
      × (old_side (chunks_of add ts) ≡ [])
      × (new_side (chunks_of add ts) ≡ ts)
      × (old_side (chunks_of remove ts) ≡ ts)
      × (new_side (chunks_of remove ts) ≡ [])
unfolding old_side new_side
sides-chunks_of [] = (refl, refl, refl, refl, refl, refl)
sides-chunks_of (t ∷ ts) = ground (arith, sides-chunks_of ts)

nonempty_reverse : (c : ℕ) (cs : Text) → reverse (c ∷ cs) ≢ []
nonempty_reverse c cs h = nonempty_end (reverse cs) (sym (reverse-cons c cs) ∙ h)
  where
    nonempty_end : (xs : Text) → xs ++ (c ∷ []) ≢ []
    nonempty_end [] k = cc
    nonempty_end (x ∷ xs) k = cc

nonempty_lines : (cur s : Text) → lines_from cur s ≢ []
unfolding lines_from
nonempty_lines cur [] h = cc
nonempty_lines cur (c ∷ []) h = elim (Bool-cases (c == 10)) [
  | inl e ↦ cc (rw (e, lines_from) at h)
  | inr e ↦ cc (rw (e, lines_from) at h)
]
nonempty_lines cur (c ∷ d ∷ s) h = elim (Bool-cases (c == 10)) [
  | inl e ↦ cc (rw (e, lines_from) at h)
  | inr e ↦ elim (Bool-cases ((c == 13) && (d == 10))) [
    | inl k ↦ cc (rw (e, k, lines_from) at h)
    | inr k ↦ nonempty_lines (c ∷ cur) (d ∷ s) (rw (e, k, lines_from) at h)
  ]
]

-- The lines of a text are one empty line only for the empty text.
one_blank : (cur s : Text) → lines_from cur s ≡ [] ∷ [] → s ≡ []
unfolding lines_from
one_blank cur [] h = refl
one_blank cur (c ∷ []) h = elim (Bool-cases (c == 10)) [
  | inl e ↦ cc (rw (e, lines_from) at h)
  | inr e ↦ absurd (nonempty_reverse c cur (cc (rw (e, lines_from) at h)))
]
one_blank cur (c ∷ d ∷ s) h = elim (Bool-cases (c == 10)) [
  | inl e ↦ absurd (nonempty_lines [] (d ∷ s) (cc (rw (e, lines_from) at h)))
  | inr e ↦ elim (Bool-cases ((c == 13) && (d == 10))) [
    | inl k ↦ absurd (nonempty_lines [] s (cc (rw (e, k, lines_from) at h)))
    | inr k ↦ cc (one_blank (c ∷ cur) (d ∷ s) (rw (e, k, lines_from) at h))
  ]
]

-- All lines of a text are shown; but if the texts differ, an empty one is shown by no line.
abbrev pub Shows : (text other : Text) → List Text → Type 0
Shows text other shown =
    ((shown ≡ split_lines text) × ((text ≢ []) ⊎ (text ≡ other)))
    ⊎ ((shown ≡ []) × (text ≡ []) × (text ≢ other))

is_blank-cases :
    (text : Text)
    → ((is_blank (split_lines text) ≡ true) × (text ≡ []))
      ⊎ ((is_blank (split_lines text) ≡ false) × (text ≢ []))
unfolding split_lines is_blank lines_from
is_blank-cases [] = inl (refl, refl)
is_blank-cases (c ∷ s) = elim (Bool-cases (is_blank (split_lines (c ∷ s)))) [
  | inr e ↦ inr (e, λ k. cc)
  | inl e ↦ elim (blank (split_lines (c ∷ s)) e) [
    | inl k ↦ absurd (nonempty_lines [] (c ∷ s) k)
    | inr k ↦ absurd (cc (one_blank [] (c ∷ s) k))
  ]
]
  where
    blank : (ls : List Text) → is_blank ls ≡ true → (ls ≡ []) ⊎ (ls ≡ [] ∷ [])
    blank [] h = inl refl
    blank ([] ∷ []) h = inr refl
    blank ([] ∷ l ∷ ls) h = cc
    blank ((x ∷ xs) ∷ ls) h = cc

-- The texts differ.
diff_of-Shows :
    (old_text new_text : Text)
    → old_text ≢ new_text
    → (diff_of (split_lines old_text) (split_lines new_text)).oversized ≡ false
    → Shows old_text new_text
        (old_side (diff_of (split_lines old_text) (split_lines new_text)).chunks)
      × Shows new_text old_text
          (new_side (diff_of (split_lines old_text) (split_lines new_text)).chunks)
unfolding diff_of backtrack old_side split_lines new_side
diff_of-Shows old_text new_text apart h =
    let a = split_lines old_text in
    let b = split_lines new_text in
    let removed = sides-chunks_of a in
    let added = sides-chunks_of b in
    elim (is_blank-cases old_text) [
      | inl (e, z) ↦
          let other : new_text ≢ [] = λ k. apart (z ∙ sym k) in
          rw (e, diff_of) (inr (added.2, z, apart), inl (added.3, inl other))
      | inr (e, z) ↦ elim (is_blank-cases new_text) [
        | inl (f, y) ↦
            rw (e, f, diff_of) (inl (removed.4, inl z), inr (removed.5, y, λ k. apart (sym k)))
        | inr (f, y) ↦
            elim (Bool-cases (ltb max_diff_lines (length a) || ltb max_diff_lines (length b))) [
              | inl g ↦ absurd (cc (rw (e, f, g, diff_of) at h))
              | inr g ↦
                  let both =
                    backtrack_from-Sides a b (lcs_matrix a b) (length a) (length b) [] (omega arith)
                      (omega arith) in
                  rw (e, f, g, diff_of)
                    (
                      inl (
                        both.0
                            ∙ append-nil (take (length a) a)
                            ∙ take_all (length a) a (omega arith),
                        inl z,
                      ),
                      inl (
                        both.1
                            ∙ append-nil (take (length b) b)
                            ∙ take_all (length b) b (omega arith),
                        inl y,
                      ),
                    )
            ]
      ]
    ]

-- Of a diff that is not oversized, the context and removed lines are the lines of the old text and
-- the context and added lines those of the new text, in order; but when the texts differ, an empty
-- text is shown by no line.
pub diff_lines-Shows :
    (old_text new_text : Text)
    → (diff_lines old_text new_text).oversized ≡ false
    → Shows old_text new_text (old_side (diff_lines old_text new_text).chunks)
      × Shows new_text old_text (new_side (diff_lines old_text new_text).chunks)
unfolding diff_lines
diff_lines-Shows old_text new_text h = elim (Bool-cases (text_eq old_text new_text)) [
  | inl e ↦
      let same = text_eq→eq old_text new_text e in
      let sides = sides-chunks_of (split_lines old_text) in
      rw (e, diff_lines)
        (inl (sides.0, inr same), inl (sides.1 ∙ ap split_lines same, inr (sym same)))
  | inr e ↦
      rw (e, diff_lines)
        (diff_of-Shows old_text new_text (λ k. cc (eq→text_eq old_text new_text k, e))
          (rw (e, diff_lines) at h))
]
