-- ===== src/Fusion/Sorting.antt =====
-- The sort of `rrfFuse`: order, and what it keeps.
use priority_kb.Base.{
  Text, text_eq, text_eq_comm, true, false, ◌||◌, List, [], ◌∷◌, ◌≡◌, refl, ◌∙◌, ap, All, includes,
  Distinct, Bool-cases, inl, inr, arith, length, suc,
}
use priority_kb.Fusion.{Num, Acc, before, insert_sorted, sort}

module _ {F : Type 0} where
  abbrev pub ids : List (Acc F) → List Text
  ids [] = []
  ids (a ∷ as') = a.entry_id ∷ ids as'

module _ (num : Num) where
  open num use {F, lt, lt_asym, lt_neg_trans}

  -- No later entry is ordered before an earlier one.
  abbrev pub IsSorted : List (Acc F) → Type 0
  IsSorted [] = Unit
  IsSorted (x ∷ xs) = All (λ y. before num y x ≡ false) xs × IsSorted xs

  before_asym : (x y : Acc F) → before num x y ≡ true → before num y x ≡ false
  unfolding before
  before_asym x y h = ground (arith, lt_asym x.score y.score, lt_asym y.score x.score)

  before_neg_trans :
      (x y z : Acc F) → before num x y ≡ false → before num y z ≡ false → before num x z ≡ false
  unfolding before
  before_neg_trans x y z h k = ground (
    arith,
    lt_neg_trans z.score y.score x.score,
    lt_neg_trans x.score z.score y.score,
    lt_neg_trans y.score x.score z.score,
  )

  All-insert_sorted {ℓ} :
      (P : Acc F → Type ℓ) (x : Acc F) (ys : List (Acc F))
      → P x
      → All P ys
      → All P (insert_sorted num x ys)
  unfolding insert_sorted
  All-insert_sorted P x [] p h = (p, tt)
  All-insert_sorted P x (y ∷ ys) p h = elim (Bool-cases (before num y x)) [
    | inl e ↦ rw (e, insert_sorted) (h.0, All-insert_sorted P x ys p h.1)
    | inr e ↦ rw (e, insert_sorted) (p, h)
  ]

  pub All-sort {ℓ} : (P : Acc F → Type ℓ) (xs : List (Acc F)) → All P xs → All P (sort num xs)
  unfolding sort
  All-sort P [] h = tt
  All-sort P (x ∷ xs) h = All-insert_sorted P x (sort num xs) h.0 (All-sort P xs h.1)

  behind :
      (x y : Acc F) (ys : List (Acc F))
      → before num y x ≡ false
      → All (λ z. before num z y ≡ false) ys
      → All (λ z. before num z x ≡ false) ys
  behind x y [] e h = tt
  behind x y (z ∷ ys) e h = (before_neg_trans z y x h.0 e, behind x y ys e h.1)

  insert_sorted-IsSorted :
      (x : Acc F) (ys : List (Acc F)) → IsSorted ys → IsSorted (insert_sorted num x ys)
  unfolding insert_sorted
  insert_sorted-IsSorted x [] h = (tt, tt)
  insert_sorted-IsSorted x (y ∷ ys) h = elim (Bool-cases (before num y x)) [
    | inl e ↦
        rw (e, insert_sorted)
          (
            All-insert_sorted (λ z. before num z y ≡ false) x ys (before_asym y x e) h.0,
            insert_sorted-IsSorted x ys h.1,
          )
    | inr e ↦ rw (e, insert_sorted) ((e, behind x y ys e h.0), h)
  ]

  pub sort-IsSorted : (xs : List (Acc F)) → IsSorted (sort num xs)
  unfolding sort
  sort-IsSorted [] = tt
  sort-IsSorted (x ∷ xs) = insert_sorted-IsSorted x (sort num xs) (sort-IsSorted xs)

  includes-insert_sorted :
      (x : Acc F) (ys : List (Acc F)) (t : Text)
      → includes (ids (insert_sorted num x ys)) t ≡ includes (x.entry_id ∷ ids ys) t
  unfolding insert_sorted includes
  includes-insert_sorted x [] t = refl
  includes-insert_sorted x (y ∷ ys) t = ground (arith, includes-insert_sorted x ys t)

  pub includes-sort :
      (xs : List (Acc F)) (t : Text) → includes (ids (sort num xs)) t ≡ includes (ids xs) t
  unfolding sort includes
  includes-sort [] t = refl
  includes-sort (x ∷ xs) t =
      includes-insert_sorted x (sort num xs) t
      ∙ ap (λ b. text_eq x.entry_id t || b) (includes-sort xs t)

  insert_sorted-Distinct :
      (x : Acc F) (ys : List (Acc F))
      → includes (ids ys) x.entry_id ≡ false
      → Distinct (ids ys)
      → Distinct (ids (insert_sorted num x ys))
  unfolding insert_sorted includes
  insert_sorted-Distinct x [] e h = (refl, tt)
  insert_sorted-Distinct x (y ∷ ys) e h = ground (
    arith,
    includes-insert_sorted x ys y.entry_id,
    insert_sorted-Distinct x ys,
    text_eq_comm x.entry_id y.entry_id,
  )

  pub sort-Distinct : (xs : List (Acc F)) → Distinct (ids xs) → Distinct (ids (sort num xs))
  unfolding sort
  sort-Distinct [] h = tt
  sort-Distinct (x ∷ xs) h =
      insert_sorted-Distinct x (sort num xs) (includes-sort xs x.entry_id ∙ h.0)
        (sort-Distinct xs h.1)

  length-insert_sorted :
      (x : Acc F) (ys : List (Acc F)) → length (insert_sorted num x ys) ≡ suc (length ys)
  unfolding insert_sorted
  length-insert_sorted x [] = refl
  length-insert_sorted x (y ∷ ys) = ground (arith, length-insert_sorted x ys)

  pub length-sort : (xs : List (Acc F)) → length (sort num xs) ≡ length xs
  unfolding sort
  length-sort [] = refl
  length-sort (x ∷ xs) = length-insert_sorted x (sort num xs) ∙ ap suc (length-sort xs)
