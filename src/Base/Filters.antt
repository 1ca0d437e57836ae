-- ===== src/Base/Filters.antt =====
-- Filters that keep nothing, and sets built from lists.
use mathlib.Core.Path.{◌≡◌, refl, sym, subst, ◌∙◌}
use mathlib.Core.Logic.{◌↔◌, inl, inr}
use mathlib.Core.List.{List, [], ◌∷◌}
use mathlib.Core.Bool.{Bool, false, ◌||◌}
use native.Mathlib.Omega.{arith}
use priority_kb.Base.Tests.{Bool-cases}
use priority_kb.Base.Lists.{All, keep}
use priority_kb.Base.Texts.{Text, text_eq→eq}
use priority_kb.Base.Sets.{
  includes, In, In-cons_inv, not-In-nil, Subset, Subset_of, unique, unique_from,
}

pub keep-nil_iff : (p : Text → Bool) (xs : List Text) → (keep p xs ≡ []) ↔ All (λ x. p x ≡ false) xs
keep-nil_iff p [] = (λ h. tt, λ h. refl)
keep-nil_iff p (x ∷ xs) = elim (Bool-cases (p x)) [
  | inl e ↦ (λ h. cc (rw e at h), λ h. cc h.0)
  | inr e ↦ (λ h. (e, (keep-nil_iff p xs).0 (rw e at h)), λ h. rw e ((keep-nil_iff p xs).1 h.1))
]

pub All-In {ℓ} : (P : Text → Type ℓ) (xs : List Text) (t : Text) → All P xs → In xs t → P t
All-In P [] t h i = absurd (not-In-nil t i)
All-In P (x ∷ xs) t h i = elim (In-cons_inv x xs t i) [
  | inl e ↦ subst P e h.0
  | inr r ↦ All-In P xs t h.1 r
]

pub All-Subset {ℓ} : (P : Text → Type ℓ) (xs ys : List Text) → Subset xs ys → All P ys → All P xs
All-Subset P [] ys s h = tt
All-Subset P (x ∷ xs) ys s h = (All-In P ys x h s.0, All-Subset P xs ys s.1 h)

includes-unique_from :
    (seen xs : List Text) (t : Text)
    → (includes seen t || includes (unique_from seen xs) t) ≡ (includes seen t || includes xs t)
unfolding unique_from includes
includes-unique_from seen [] t = refl
includes-unique_from seen (x ∷ xs) t =
    ground
      (arith, includes-unique_from seen xs t, includes-unique_from (x ∷ seen) xs t, text_eq→eq x t)

pub includes-unique : (xs : List Text) (t : Text) → includes (unique xs) t ≡ includes xs t
unfolding unique includes
includes-unique xs t = includes-unique_from [] xs t

pub Subset-unique : (xs : List Text) → Subset (unique xs) xs
Subset-unique xs = Subset_of _ _ (λ t i. sym (includes-unique xs t) ∙ i)

pub unique-Subset : (xs : List Text) → Subset xs (unique xs)
unique-Subset xs = Subset_of _ _ (λ t i. includes-unique xs t ∙ i)

-- A filter over a set keeps nothing exactly when no listed text passes its test.
pub keep-unique-nil_iff :
    (p : Text → Bool) (xs : List Text) → (keep p (unique xs) ≡ []) ↔ All (λ x. p x ≡ false) xs
keep-unique-nil_iff p xs = (
  λ h. All-Subset _ xs (unique xs) (unique-Subset xs) ((keep-nil_iff p (unique xs)).0 h),
  λ h. (keep-nil_iff p (unique xs)).1 (All-Subset _ (unique xs) xs (Subset-unique xs) h),
)
