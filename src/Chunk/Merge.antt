-- ===== src/Chunk/Merge.antt =====
-- lib/chunk.ts: what `computeForbiddenRanges` does to the ranges that it finds.
use priority_kb.Base.{
  Text, ℕ, ◌≤◌, max, true, ◌||◌, List, [], ◌∷◌, ltb, All, All-map, ◌≡◌, refl, ◌∙◌, ap, Bool-cases,
  inl, inr, arith,
}
use priority_kb.Chunk.Ranges.{
  Range, within, ranges_contain, insert_range, sort_ranges, merge_from, merge_ranges, found_ranges,
  compute_forbidden_ranges,
}

-- In order, and no range begins before an earlier one has ended.
abbrev pub Apart : List Range → Type 0
Apart [] = Unit
Apart ((s, e) ∷ rs) = All (λ r. e ≤ r.0) rs × Apart rs

abbrev StartsSorted : List Range → Type 0
StartsSorted [] = Unit
StartsSorted ((s, e) ∷ rs) = All (λ r. s ≤ r.0) rs × StartsSorted rs

All-insert_range :
    (n s e : ℕ) (rs : List Range)
    → n ≤ s
    → All (λ r. n ≤ r.0) rs
    → All (λ r. n ≤ r.0) (insert_range (s, e) rs)
unfolding insert_range
All-insert_range n s e [] h k = (h, tt)
All-insert_range n s e ((t, f) ∷ rs) h k = elim (Bool-cases (ltb t s)) [
  | inl p ↦ rw (p, insert_range) (k.0, All-insert_range n s e rs h k.1)
  | inr p ↦ rw (p, insert_range) (h, k)
]

insert_range-StartsSorted :
    (s e : ℕ) (rs : List Range) → StartsSorted rs → StartsSorted (insert_range (s, e) rs)
unfolding insert_range
insert_range-StartsSorted s e [] h = (tt, tt)
insert_range-StartsSorted s e ((t, f) ∷ rs) h = elim (Bool-cases (ltb t s)) [
  | inl p ↦
      let less : t ≤ s = ground arith in
      rw (p, insert_range)
        (All-insert_range t s e rs less h.0, insert_range-StartsSorted s e rs h.1)
  | inr p ↦
      let less : s ≤ t = ground arith in
      rw (p, insert_range)
        ((less, All-map (λ r. t ≤ r.0) (λ r. s ≤ r.0) (λ r q. omega arith) rs h.0), h)
]

sort_ranges-StartsSorted : (rs : List Range) → StartsSorted (sort_ranges rs)
unfolding sort_ranges
sort_ranges-StartsSorted [] = tt
sort_ranges-StartsSorted ((s, e) ∷ rs) =
    insert_range-StartsSorted s e (sort_ranges rs) (sort_ranges-StartsSorted rs)

insert_range-contain :
    (s e : ℕ) (rs : List Range) (o : ℕ)
    → ranges_contain (insert_range (s, e) rs) o ≡ (within (s, e) o || ranges_contain rs o)
unfolding insert_range ranges_contain
insert_range-contain s e [] o = refl
insert_range-contain s e ((t, f) ∷ rs) o = ground (arith, insert_range-contain s e rs o)

sort_ranges-contain :
    (rs : List Range) (o : ℕ) → ranges_contain (sort_ranges rs) o ≡ ranges_contain rs o
unfolding sort_ranges ranges_contain
sort_ranges-contain [] o = refl
sort_ranges-contain ((s, e) ∷ rs) o =
    insert_range-contain s e (sort_ranges rs) o
    ∙ ap (λ b. within (s, e) o || b) (sort_ranges-contain rs o)

All-merge_from :
    (n s e : ℕ) (rs : List Range)
    → n ≤ s
    → All (λ r. n ≤ r.0) rs
    → All (λ r. n ≤ r.0) (merge_from (s, e) rs)
unfolding merge_from
All-merge_from n s e [] h k = (h, tt)
All-merge_from n s e ((t, f) ∷ rs) h k = elim (Bool-cases (ltb t e)) [
  | inl p ↦ rw (p, merge_from) (All-merge_from n s (max e f) rs h k.1)
  | inr p ↦ rw (p, merge_from) (h, All-merge_from n t f rs k.0 k.1)
]

merge_from-Apart : (s e : ℕ) (rs : List Range) → StartsSorted rs → Apart (merge_from (s, e) rs)
unfolding merge_from
merge_from-Apart s e [] h = (tt, tt)
merge_from-Apart s e ((t, f) ∷ rs) h = elim (Bool-cases (ltb t e)) [
  | inl p ↦ rw (p, merge_from) (merge_from-Apart s (max e f) rs h.1)
  | inr p ↦
      let less : e ≤ t = ground arith in
      rw (p, merge_from)
        (
          All-merge_from e t f rs less
              (All-map (λ r. t ≤ r.0) (λ r. e ≤ r.0) (λ r q. omega arith) rs h.0),
          merge_from-Apart t f rs h.1,
        )
]

joined-within :
    (s e t f o : ℕ)
    → s ≤ t
    → ltb t e ≡ true
    → within (s, max e f) o ≡ (within (s, e) o || within (t, f) o)
unfolding within
joined-within s e t f o h p = ground arith

merge_from-contain :
    (s e : ℕ) (rs : List Range) (o : ℕ)
    → All (λ r. s ≤ r.0) rs
    → StartsSorted rs
    → ranges_contain (merge_from (s, e) rs) o ≡ (within (s, e) o || ranges_contain rs o)
unfolding merge_from ranges_contain
merge_from-contain s e [] o h k = refl
merge_from-contain s e ((t, f) ∷ rs) o h k = elim (Bool-cases (ltb t e)) [
  | inl p ↦
      rw (p, merge_from)
        (ground (arith, merge_from-contain s (max e f) rs o h.1 k.1, joined-within s e t f o h.0 p))
  | inr p ↦
      rw (p, merge_from) (ap (λ b. within (s, e) o || b) (merge_from-contain t f rs o k.0 k.1))
]

merge_ranges-Apart : (rs : List Range) → StartsSorted rs → Apart (merge_ranges rs)
unfolding merge_ranges
merge_ranges-Apart [] h = tt
merge_ranges-Apart ((s, e) ∷ rs) h = merge_from-Apart s e rs h.1

merge_ranges-contain :
    (rs : List Range) (o : ℕ)
    → StartsSorted rs
    → ranges_contain (merge_ranges rs) o ≡ ranges_contain rs o
unfolding merge_ranges ranges_contain
merge_ranges-contain [] o h = refl
merge_ranges-contain ((s, e) ∷ rs) o h = merge_from-contain s e rs o h.0 h.1

-- The forbidden ranges are in order and none begins before an earlier one has ended, and they hold
-- the same offsets as the fences, spans and table rows found.
pub compute_forbidden_ranges-Apart :
    (body : Text)
    → Apart (compute_forbidden_ranges body)
      × ((o : ℕ)
          → ranges_contain (compute_forbidden_ranges body) o ≡ ranges_contain (found_ranges body) o)
unfolding compute_forbidden_ranges
compute_forbidden_ranges-Apart body =
    let found = found_ranges body in
    let sorted = sort_ranges-StartsSorted found in
    (
      merge_ranges-Apart (sort_ranges found) sorted,
      λ o. merge_ranges-contain (sort_ranges found) o sorted ∙ sort_ranges-contain found o,
    )
