-- ===== src/Base/Sets.antt =====
-- `Set<string>` and membership tests: lists of texts in insertion order.
use Prim.Native.Nat.{ℕ, zero, suc}
use mathlib.Core.Path.{◌≡◌, refl}
use mathlib.Core.Logic.{◌⊎◌, inl, inr}
use mathlib.Core.List.{List, [], ◌∷◌, ◌++◌}
use mathlib.Core.Bool.{Bool, true, false, ◌||◌}
use native.Mathlib.Omega.{arith}
use priority_kb.Base.Tests.{if◌then◌else◌}
use priority_kb.Base.Lists.{All, take}
use priority_kb.Base.Texts.{Text, text_eq, text_eq→eq, text_eq_refl}

unfoldable pub includes : List Text → Text → Bool
includes [] t = false
includes (x ∷ xs) t = text_eq x t || includes xs t

-- `t` is listed in `xs`.
abbrev pub In : List Text → Text → Type 0
In xs t = includes xs t ≡ true

abbrev pub Subset : List Text → List Text → Type 0
Subset xs ys = All (In ys) xs

-- No text is listed twice.
abbrev pub Distinct : List Text → Type 0
Distinct [] = Unit
Distinct (x ∷ xs) = (includes xs x ≡ false) × Distinct xs

-- `new Set(xs)` seen as an array, `seen` being what the set holds already.
unfoldable pub unique_from : List Text → List Text → List Text
unique_from seen [] = []
unique_from seen (x ∷ xs) =
    let skip = unique_from seen xs in
    let add = x ∷ unique_from (x ∷ seen) xs in if includes seen x then skip else add

unfoldable pub unique : List Text → List Text
unfolding unique_from
unique xs = unique_from [] xs

pub includes-append :
    (xs ys : List Text) (t : Text) → includes (xs ++ ys) t ≡ (includes xs t || includes ys t)
unfolding includes
includes-append [] ys t = refl
includes-append (x ∷ xs) ys t = ground (arith, includes-append xs ys t)

pub In-self : (t : Text) (xs : List Text) → In (t ∷ xs) t
unfolding includes
In-self t xs = ground (arith, text_eq_refl t)

pub In-cons : (x : Text) (xs : List Text) (t : Text) → In xs t → In (x ∷ xs) t
unfolding includes
In-cons x xs t h = ground arith

pub In-cons_inv : (x : Text) (xs : List Text) (t : Text) → In (x ∷ xs) t → (x ≡ t) ⊎ In xs t
unfolding includes
In-cons_inv x xs t h = ground (arith, text_eq→eq x t)

pub not-In-nil : (t : Text) → ¬ (In [] t)
unfolding includes
not-In-nil t h = cc

pub Subset-cons : (y : Text) (ys xs : List Text) → Subset xs ys → Subset xs (y ∷ ys)
Subset-cons y ys [] h = tt
Subset-cons y ys (x ∷ xs) h = (In-cons y ys x h.0, Subset-cons y ys xs h.1)

pub Subset-refl : (xs : List Text) → Subset xs xs
Subset-refl [] = tt
Subset-refl (x ∷ xs) = (In-self x xs, Subset-cons x xs xs (Subset-refl xs))

pub In-Subset : (xs ys : List Text) (t : Text) → Subset xs ys → In xs t → In ys t
In-Subset [] ys t s h = absurd (not-In-nil t h)
In-Subset (x ∷ xs) ys t s h = elim (In-cons_inv x xs t h) [
  | inl e ↦ rw (← e) s.0
  | inr r ↦ In-Subset xs ys t s.1 r
]

pub Subset-trans : (xs ys zs : List Text) → Subset xs ys → Subset ys zs → Subset xs zs
Subset-trans [] ys zs h k = tt
Subset-trans (x ∷ xs) ys zs h k = (In-Subset ys zs x k h.0, Subset-trans xs ys zs h.1 k)

pub Subset-take : (n : ℕ) (xs : List Text) → Subset (take n xs) xs
Subset-take zero xs = tt
Subset-take (suc n) [] = tt
Subset-take (suc n) (x ∷ xs) = (In-self x xs, Subset-cons x xs (take n xs) (Subset-take n xs))

pub In-append_left : (xs ys : List Text) (t : Text) → In xs t → In (xs ++ ys) t
In-append_left xs ys t h = rw (includes-append, h)

pub In-append_right : (xs ys : List Text) (t : Text) → In ys t → In (xs ++ ys) t
In-append_right xs ys t h = ground (arith, includes-append xs ys t)

pub Subset-append_left : (xs ys : List Text) → Subset xs (xs ++ ys)
Subset-append_left xs ys = go xs (Subset-refl xs)
  where
    go : (zs : List Text) → Subset zs xs → Subset zs (xs ++ ys)
    go [] h = tt
    go (z ∷ zs) h = (In-append_left xs ys z h.0, go zs h.1)

pub Subset-append_right : (xs ys zs : List Text) → Subset zs ys → Subset zs (xs ++ ys)
Subset-append_right xs ys [] h = tt
Subset-append_right xs ys (z ∷ zs) h =
    (In-append_right xs ys z h.0, Subset-append_right xs ys zs h.1)

not_includes-take :
    (n : ℕ) (xs : List Text) (t : Text) → includes xs t ≡ false → includes (take n xs) t ≡ false
unfolding includes
not_includes-take zero xs t h = refl
not_includes-take (suc n) [] t h = refl
not_includes-take (suc n) (x ∷ xs) t h = ground (arith, not_includes-take n xs t)

pub Distinct-take : (n : ℕ) (xs : List Text) → Distinct xs → Distinct (take n xs)
Distinct-take zero xs h = tt
Distinct-take (suc n) [] h = tt
Distinct-take (suc n) (x ∷ xs) h = (not_includes-take n xs x h.0, Distinct-take n xs h.1)

pub Subset_of : (xs ys : List Text) → ((t : Text) → In xs t → In ys t) → Subset xs ys
Subset_of xs ys f = go xs (Subset-refl xs)
  where
    go : (zs : List Text) → Subset zs xs → Subset zs ys
    go [] h = tt
    go (z ∷ zs) h = (f z h.0, go zs h.1)
