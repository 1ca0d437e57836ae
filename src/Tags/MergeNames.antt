-- ===== src/Tags/MergeNames.antt =====
-- lib/tags.ts: what a merge does to one list of tags, and what its checked names are.
use priority_kb.Base.{
  Text, false, List, [], ◌∷◌, map, ◌≡◌, refl, sym, ap, ◌∙◌, subst, Bool-cases, Option-cases, inl,
  inr, if◌then◌else◌, arith, All, All-Subset, includes, unique, Subset-unique,
}
use priority_kb.Tags.Names.{
  to_field, normalize_tag, validate_tag_strict, Sources, sources, refused, read_sources, MergeInput,
  merge_input, merge_refused, with_target, from_given, check_merge,
}
use priority_kb.Tags.Steps.{applied}
use priority_kb.Tags.Swept.{Settles}
use priority_kb.Tags.Operations.{overlaps, merge_transform}

-- Each source is the target, listed once; the tags of an entry without a source stay.
unfoldable pub merged : (from : List Text) → (to : Text) → List Text → List Text
merged from to tags =
    if overlaps from tags then unique (map (λ t. if includes from t then to else t) tags) else tags

-- `t` is no source.
abbrev pub OutsideOf : List Text → Text → Type 0
OutsideOf from t = includes from t ≡ false

overlaps-All : (from xs : List Text) → All (OutsideOf from) xs → overlaps from xs ≡ false
unfolding overlaps
overlaps-All from [] h = refl
overlaps-All from (x ∷ xs) h = let rest = overlaps-All from xs h.1 in let head = h.0 in ground arith

replaced-All :
    (from : List Text) (to : Text) (tags : List Text)
    → OutsideOf from to
    → All (OutsideOf from) (map (λ t. if includes from t then to else t) tags)
replaced-All from to [] h = tt
replaced-All from to (t ∷ tags) h = (
  elim (Bool-cases (includes from t)) [ inl e ↦ rw e h | inr e ↦ rw e e ],
  replaced-All from to tags h,
)

pub merge_transform-idle :
    (from : List Text) (to : Text) (tags : List Text)
    → overlaps from tags ≡ false
    → applied (merge_transform from to) tags ≡ tags
unfolding merge_transform
merge_transform-idle from to tags h = rw (h, merge_transform) refl

pub merged-applied :
    (from : List Text) (to : Text) (tags : List Text)
    → merged from to tags ≡ applied (merge_transform from to) tags
unfolding merged merge_transform
merged-applied from to tags = elim (Bool-cases (overlaps from tags)) [
  | inl e ↦ rw (e, merged, merge_transform) refl
  | inr e ↦ rw (e, merged, merge_transform) refl
]

merged-gone :
    (from : List Text) (to : Text) (tags : List Text)
    → OutsideOf from to
    → overlaps from (merged from to tags) ≡ false
unfolding merged
merged-gone from to tags h = elim (Bool-cases (overlaps from tags)) [
  | inl e ↦
      let new = map (λ t. if includes from t then to else t) tags in
      rw (e, merged)
        (overlaps-All from (unique new) (
          All-Subset (OutsideOf from) (unique new) new (Subset-unique new)
            (replaced-All from to tags h)))
  | inr e ↦ rw (e, merged) e
]

pub merge_transform-Settles :
    (from : List Text) (to : Text) → OutsideOf from to → Settles (merge_transform from to)
merge_transform-Settles from to h tags =
    merge_transform-idle from to (applied (merge_transform from to) tags)
      (ap (overlaps from) (sym (merged-applied from to tags)) ∙ merged-gone from to tags h)

abbrev pub TargetApart : MergeInput → Type 0
TargetApart (merge_input f t) = OutsideOf f t
TargetApart (merge_refused e) = Unit

with_target-apart :
    (to : Text) (s : Sources) (f : List Text) (t : Text)
    → with_target to s ≡ merge_input f t
    → OutsideOf f t
with_target-apart to (refused e) f t h = absurd (cc)
with_target-apart to (sources from) f t h = elim (Bool-cases (includes from to)) [
  | inl e ↦ absurd (cc (rw e at h))
  | inr e ↦
      let same : merge_input from to ≡ merge_input f t = rw e at h in
      subst (λ m. TargetApart m) same e
]

from_given-apart :
    (nfc : Text → Text) (to : Text) (from : List Text) (f : List Text) (t : Text)
    → from_given nfc to from ≡ merge_input f t
    → OutsideOf f t
from_given-apart nfc to [] f t h = absurd (cc)
from_given-apart nfc to (raw ∷ raws) f t h =
    with_target-apart to (read_sources nfc [] (raw ∷ raws)) f t h

-- A merge whose names pass has a target that is no source.
pub check_merge-apart :
    (nfc : Text → Text) (from : List Text) (to : Text) (f : List Text) (t : Text)
    → check_merge nfc from to ≡ merge_input f t
    → OutsideOf f t
unfolding check_merge
check_merge-apart nfc from to f t h =
    elim (Option-cases (validate_tag_strict (normalize_tag nfc to) to_field)) [
      | inr (x, e) ↦ absurd (cc (rw (e, check_merge) at h))
      | inl e ↦ from_given-apart nfc (normalize_tag nfc to) from f t (rw (e, check_merge) at h)
    ]
