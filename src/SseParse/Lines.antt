-- ===== src/SseParse/Lines.antt =====
-- The lines of a buffer, and of a longer buffer.
use priority_kb.Base.{
  Text, ℕ, ◌==◌, Bool, true, false, ◌&&◌, List, [], ◌∷◌, ◌++◌, if◌then◌else◌, ◌≡◌, refl, sym, ap,
  ◌∙◌, arith, Bool-cases, inl, inr,
}
use priority_kb.SseParse.{Cut, is_end, end_line, put, cut, ends_cr, drop_last, add_cr, cut_buffer}

-- One pass that holds a last CR back.
unfoldable pub cut_held : Text → Cut
cut_held [] = record { lines = []; rest = [] }
cut_held (c ∷ []) =
    if c == 10 then record { lines = [] ∷ []; rest = [] } else record { lines = []; rest = c ∷ [] }
cut_held (c ∷ d ∷ s) =
    let pair = cut_held s in
    let one = cut_held (d ∷ s) in
    if (c == 13) && (d == 10) then end_line pair else if is_end c then end_line one else put c one

-- What both passes do with two code units in front of a text.
abbrev step : ℕ → ℕ → Cut → Cut → Cut
step c d pair one =
    if (c == 13) && (d == 10) then end_line pair else if is_end c then end_line one else put c one

add_cr-put : (c : ℕ) (k : Cut) → add_cr (put c k) ≡ put c (add_cr k)
add_cr-put c k = go k.lines k.rest
  where
    go :
        (ls : List Text) (r : Text)
        → add_cr (put c (record { lines = ls; rest = r }))
          ≡ put c (add_cr (record { lines = ls; rest = r }))
    go [] r = refl
    go (l ∷ ls) r = refl

add_cr-step : (c d : ℕ) (p o : Cut) → add_cr (step c d p o) ≡ step c d (add_cr p) (add_cr o)
add_cr-step c d p o = elim (Bool-cases ((c == 13) && (d == 10))) [
  | inl e ↦ rw e refl
  | inr e ↦ elim (Bool-cases (is_end c)) [
    | inl k ↦ rw (e, k) refl
    | inr k ↦ rw (e, k) (add_cr-put c o)
  ]
]

held_step :
    (b : Bool) (c d : ℕ) (p q o r : Cut)
    → (if b then add_cr (step c d p o) else step c d q r)
      ≡ step c d (if b then add_cr p else q) (if b then add_cr o else r)
held_step true c d p q o r = add_cr-step c d p o
held_step false c d p q o r = refl

pub cut_buffer-eq-cut_held : (t : Text) → cut_buffer t ≡ cut_held t
unfolding cut_buffer cut_held cut ends_cr drop_last
cut_buffer-eq-cut_held [] = refl
cut_buffer-eq-cut_held (c ∷ []) = ground arith
cut_buffer-eq-cut_held (c ∷ d ∷ []) = ground arith
cut_buffer-eq-cut_held (c ∷ d ∷ e ∷ s) =
    held_step (ends_cr (e ∷ s)) c d (cut (drop_last (e ∷ s))) (cut (e ∷ s))
      (cut (d ∷ drop_last (e ∷ s))) (cut (d ∷ e ∷ s))
    ∙ ap (λ k. step c d k (cut_buffer (d ∷ e ∷ s))) (cut_buffer-eq-cut_held (e ∷ s))
    ∙ ap (step c d (cut_held (e ∷ s))) (cut_buffer-eq-cut_held (d ∷ e ∷ s))

unfoldable pub more : Cut → Text → Cut
more k u = record {
  lines = k.lines ++ (cut_held (k.rest ++ u)).lines;
  rest = (cut_held (k.rest ++ u)).rest;
}

pub cut_held-put : (c : ℕ) (x : Text) → is_end c ≡ false → cut_held (c ∷ x) ≡ put c (cut_held x)
unfolding cut_held
cut_held-put c [] h = ground arith
cut_held-put c (d ∷ s) h = ground arith

put-more : (c : ℕ) (k : Cut) (u : Text) → is_end c ≡ false → more (put c k) u ≡ put c (more k u)
unfolding more
put-more c k u h = go k.lines k.rest
  where
    go :
        (ls : List Text) (r : Text)
        → more (put c (record { lines = ls; rest = r })) u
          ≡ put c (more (record { lines = ls; rest = r }) u)
    go [] r = cut_held-put c (r ++ u) h
    go (l ∷ ls) r = refl

step-more :
    (c d : ℕ) (p o : Cut) (u : Text) → more (step c d p o) u ≡ step c d (more p u) (more o u)
unfolding more
step-more c d p o u = elim (Bool-cases ((c == 13) && (d == 10))) [
  | inl e ↦ rw e refl
  | inr e ↦ elim (Bool-cases (is_end c)) [
    | inl k ↦ rw (e, k) refl
    | inr k ↦ rw (e, k) (put-more c o u k)
  ]
]

cut_held-one : (c : ℕ) (u : Text) → cut_held (c ∷ u) ≡ more (cut_held (c ∷ [])) u
unfolding cut_held more
cut_held-one c [] = ground arith
cut_held-one c (d ∷ s) = ground arith

pub cut_held-append : (t u : Text) → cut_held (t ++ u) ≡ more (cut_held t) u
unfolding cut_held more
cut_held-append [] u = refl
cut_held-append (c ∷ []) u = cut_held-one c u
cut_held-append (c ∷ d ∷ s) u =
    ap (λ k. step c d k (cut_held (d ∷ (s ++ u)))) (cut_held-append s u)
    ∙ ap (step c d (more (cut_held s) u)) (cut_held-append (d ∷ s) u)
    ∙ sym (step-more c d (cut_held s) (cut_held (d ∷ s)) u)
