-- ===== src/Rerank/Laws.antt =====
-- What a joined ranking holds.
use priority_kb.Base.{
  Text, ℕ, zero, suc, ◌≤◌, min, true, false, List, [], ◌∷◌, Option, none, some, some_inj,
  Bool-cases, length, take, take_all, get_elem?, All, ◌≡◌, ◌≢◌, ◌==◌, ==_iff, ||-eq-false, lt_or_le,
  refl, sym, ap, subst, arith, In, In-self, In-cons, Subset, Option-cases, inl, inr,
}
use priority_kb.Fusion.{Num}
use priority_kb.SynthInput.{SynthInputChunk}
use priority_kb.Rerank.{
  RerankBoundaryEntry, Ranked, Joined, joined, seen_index, boundary_at, finite_score, with_score,
  push_chunk, join_from, join_reranked_to_synth_input,
}

abbrev pub chunk_ids : {F : Type 0} → List (SynthInputChunk F) → List Text
chunk_ids [] = []
chunk_ids (c ∷ cs) = c.entry_id ∷ chunk_ids cs

abbrev pub boundary_ids : List RerankBoundaryEntry → List Text
boundary_ids [] = []
boundary_ids (b ∷ bs) = b.entry_id ∷ boundary_ids bs

get_elem?-In :
    (bs : List RerankBoundaryEntry) (i : ℕ) (b : RerankBoundaryEntry)
    → get_elem? bs i ≡ some b
    → In (boundary_ids bs) b.entry_id
get_elem?-In [] i b h = cc
get_elem?-In (x ∷ bs) zero b h =
    let same : x ≡ b = cc in
    subst (λ y. In (boundary_ids (x ∷ bs)) y.entry_id) same (In-self x.entry_id (boundary_ids bs))
get_elem?-In (x ∷ bs) (suc i) b h = In-cons x.entry_id (boundary_ids bs) _ (get_elem?-In bs i b h)

boundary_at-get_elem? :
    (bs : List RerankBoundaryEntry) (o : Option ℕ) (i : ℕ) (b : RerankBoundaryEntry)
    → boundary_at bs o ≡ some (i, b)
    → get_elem? bs i ≡ some b
unfolding boundary_at
boundary_at-get_elem? bs none i b h = cc
boundary_at-get_elem? bs (some j) i b h = ground arith

boundary_at-index :
    (bs : List RerankBoundaryEntry) (o : Option ℕ) (i : ℕ) (b : RerankBoundaryEntry)
    → boundary_at bs o ≡ some (i, b)
    → o ≡ some i
unfolding boundary_at
boundary_at-index bs none i b h = cc
boundary_at-index bs (some j) i b h = ground arith

-- No number comes twice.
abbrev pub AllDifferent : List ℕ → Type 0
AllDifferent [] = Unit
AllDifferent (i ∷ is) = All (λ j. i ≢ j) is × AllDifferent is

take-min : {A : Type 0} (n : ℕ) (xs : List A) → take (min n (length xs)) xs ≡ take n xs
take-min n xs = elim (lt_or_le n (length xs)) [
  | inl h ↦ let same : min n (length xs) ≡ n = omega arith in rw same refl
  | inr h ↦
      let same : min n (length xs) ≡ length xs = omega arith in
      rw (same, take_all n xs h) (take_all (length xs) xs (omega arith))
]

module _ (num : Num) where
  open num use {F, is_finite}

  -- The successful runs of the loop.
  data Steps (bs : List RerankBoundaryEntry)
      : List ℕ → List (Ranked F) → List (SynthInputChunk F) → Type 0 where
    finished : (seen : List ℕ) → Steps bs seen [] []
    next :
        (seen : List ℕ) (r : Ranked F) (rs : List (Ranked F)) (i : ℕ) (b : RerankBoundaryEntry)
        (cs : List (SynthInputChunk F))
        → boundary_at bs r.index ≡ some (i, b)
        → seen_index seen i ≡ false
        → (x : F) → finite_score num r.score ≡ some x
        → Steps bs (i ∷ seen) rs cs
        → Steps bs seen (r ∷ rs) (with_score num b x ∷ cs)

  push_chunk-inv :
      (c : SynthInputChunk F) (j : Joined F) (out : List (SynthInputChunk F))
      → push_chunk num c j ≡ joined out
      → (cs : List (SynthInputChunk F)) × (j ≡ joined cs) × (c ∷ cs ≡ out)
  push_chunk-inv c (joined cs) out h = (cs, refl, ground arith)
  push_chunk-inv c Joined.bad_top_n out h = cc
  push_chunk-inv c Joined.index_out_of_range out h = cc
  push_chunk-inv c Joined.duplicate_index out h = cc
  push_chunk-inv c Joined.score_not_finite out h = cc

  join_step :
      (bs : List RerankBoundaryEntry) (seen : List ℕ) (r : Ranked F) (rs : List (Ranked F)) (i : ℕ)
      (b : RerankBoundaryEntry) (out : List (SynthInputChunk F))
      → boundary_at bs r.index ≡ some (i, b)
      → join_from num bs seen (r ∷ rs) ≡ joined out
      → (seen_index seen i ≡ false)
        × ((x : F) × (finite_score num r.score ≡ some x)
            × (push_chunk num (with_score num b x) (join_from num bs (i ∷ seen) rs) ≡ joined out))
  unfolding join_from
  join_step bs seen r rs i b out e h = elim (Bool-cases (seen_index seen i)) [
    | inl k ↦ cc (rw (e, k, join_from) at h)
    | inr k ↦ elim (Option-cases (finite_score num r.score)) [
      | inl l ↦ cc (rw (e, k, l, join_from) at h)
      | inr (x, l) ↦ (k, (x, l, rw (e, k, l, join_from) at h))
    ]
  ]

  finite_score-some :
      (o : Option F) (x : F) → finite_score num o ≡ some x → (o ≡ some x) × (is_finite x ≡ true)
  unfolding finite_score
  finite_score-some none x h = cc
  finite_score-some (some y) x h = elim (Bool-cases (is_finite y)) [
    | inl e ↦
        let same : y ≡ x = some_inj.0 (rw (e, finite_score) at h) in
        (ap some same, subst (λ z. is_finite z ≡ true) same e)
    | inr e ↦ cc (rw (e, finite_score) at h)
  ]

  join_from-Steps :
      (bs : List RerankBoundaryEntry) (seen : List ℕ) (rs : List (Ranked F))
      (out : List (SynthInputChunk F))
      → join_from num bs seen rs ≡ joined out
      → Steps bs seen rs out
  unfolding join_from
  join_from-Steps bs seen [] out h =
      let same : [] ≡ out = ground arith in subst (Steps bs seen []) same (finished seen)
  join_from-Steps bs seen (r ∷ rs) out h = elim (Option-cases (boundary_at bs r.index)) [
    | inl e ↦ cc (rw (e, join_from) at h)
    | inr ((i, b), e) ↦
        let (fresh, (x, finite, pushed)) = join_step bs seen r rs i b out e h in
        let (cs, rest, same) = push_chunk-inv _ _ out pushed in
        subst (Steps bs seen (r ∷ rs)) same
          (next seen r rs i b cs e fresh x finite (join_from-Steps bs (i ∷ seen) rs cs rest))
  ]

  -- A chunk is the boundary entry with the score of the ranked item.
  pub record IsChunk (b : RerankBoundaryEntry) (r : Ranked F) (c : SynthInputChunk F) : Type 0 where
    pub entry_id : c.entry_id ≡ b.entry_id
    pub title : c.title ≡ b.title
    pub body : c.body ≡ b.body
    pub category : c.category ≡ b.category
    pub tags : c.tags ≡ b.tags
    pub source_pointer : c.source_pointer ≡ b.source_pointer
    pub last_verified_at : c.last_verified_at ≡ b.last_verified_at
    pub sensitivity : c.sensitivity ≡ b.sensitivity
    pub score : r.score ≡ some c.score

  -- Item by item: the index in the boundary list, the entry there, the chunk made of it.
  abbrev pub Chosen :
      List RerankBoundaryEntry → List (Ranked F) → List ℕ → List (SynthInputChunk F) → Type 0
  Chosen bs [] [] [] = Unit
  Chosen bs (r ∷ rs) (i ∷ is) (c ∷ cs) =
      (r.index ≡ some i)
      × (is_finite c.score ≡ true)
      × ((b : RerankBoundaryEntry) × (get_elem? bs i ≡ some b) × IsChunk b r c)
      × Chosen bs rs is cs
  Chosen bs rs is cs = ⊥

  -- `out` has one chunk for each ranked item, in the same order, of the entries at pairwise different
  -- indices.
  abbrev pub Joins : List RerankBoundaryEntry → List (Ranked F) → List (SynthInputChunk F) → Type 0
  Joins bs rs out = (is : List ℕ) × AllDifferent is × Chosen bs rs is out

  seen_index-cons :
      (j : ℕ) (seen is : List ℕ)
      → All (λ i. seen_index (j ∷ seen) i ≡ false) is
      → All (λ i. j ≢ i) is × All (λ i. seen_index seen i ≡ false) is
  unfolding seen_index
  seen_index-cons j seen [] h = (tt, tt)
  seen_index-cons j seen (i ∷ is) h =
      let (a, b) = seen_index-cons j seen is h.1 in
      let (e, f) = ||-eq-false (j == i) (seen_index seen i) h.0 in
      ((λ k. cc ((==_iff j i).1 k, e), a), (f, b))

  Steps-Joins :
      (bs : List RerankBoundaryEntry) (seen : List ℕ) (rs : List (Ranked F))
      (cs : List (SynthInputChunk F))
      → Steps bs seen rs cs
      → (is : List ℕ) × AllDifferent is
        × All (λ i. seen_index seen i ≡ false) is
        × Chosen bs rs is cs
  Steps-Joins bs seen rs cs (finished _) = ([], tt, tt, tt)
  Steps-Joins bs seen rs cs (next _ r rest i b ds e fresh x known j) =
      let (is, apart, unseen, chosen) = Steps-Joins bs (i ∷ seen) rest ds j in
      let (others, new) = seen_index-cons i seen is unseen in
      let (same, finite) = finite_score-some r.score x known in
      let at : get_elem? bs i ≡ some b = boundary_at-get_elem? bs r.index i b e in
      let made : IsChunk b r (with_score num b x) = record {
        entry_id = refl;
        title = refl;
        body = refl;
        category = refl;
        tags = refl;
        source_pointer = refl;
        last_verified_at = refl;
        sensitivity = refl;
        score = same;
      } in
      (
        i ∷ is,
        (others, apart),
        (fresh, new),
        (boundary_at-index bs r.index i b e, finite, (b, at, made), chosen),
      )

  -- A join that succeeds has one chunk for each of the first `top_n` ranked items, in their order:
  -- the boundary entry at the item's index, field by field, with the item's score. The indices are
  -- in range and pairwise different, the scores finite, and `top_n` lies between 1 and 1000.
  pub join_reranked_to_synth_input-Joins :
      (ranking : List (Ranked F)) (bs : List RerankBoundaryEntry) (top_n : ℕ)
      (out : List (SynthInputChunk F))
      → join_reranked_to_synth_input num ranking bs top_n ≡ joined out
      → (1 ≤ top_n) × (top_n ≤ 1000) × Joins bs (take top_n ranking) out
  unfolding join_reranked_to_synth_input
  join_reranked_to_synth_input-Joins ranking bs top_n out h =
      let steps =
        join_from-Steps bs [] (take (min top_n (length ranking)) ranking) out (ground arith) in
      let (is, apart, _, chosen) = Steps-Joins bs [] _ out steps in
      (
        ground arith,
        ground arith,
        subst (λ rs. Joins bs rs out) (take-min top_n ranking) (is, apart, chosen),
      )

  -- The chunks of a join are boundary entries.
  pub Chosen-Subset :
      (bs : List RerankBoundaryEntry) (rs : List (Ranked F)) (is : List ℕ)
      (cs : List (SynthInputChunk F))
      → Chosen bs rs is cs
      → Subset (chunk_ids cs) (boundary_ids bs)
  Chosen-Subset bs [] [] [] h = tt
  Chosen-Subset bs [] [] (c ∷ cs) h = absurd h
  Chosen-Subset bs [] (i ∷ is) cs h = absurd h
  Chosen-Subset bs (r ∷ rs) [] cs h = absurd h
  Chosen-Subset bs (r ∷ rs) (i ∷ is) [] h = absurd h
  Chosen-Subset bs (r ∷ rs) (i ∷ is) (c ∷ cs) (e, finite, (b, at, made), rest) = (
    subst (λ t. In (boundary_ids bs) t) (sym made.entry_id) (get_elem?-In bs i b at),
    Chosen-Subset bs rs is cs rest,
  )

  pub Chosen-length :
      (bs : List RerankBoundaryEntry) (rs : List (Ranked F)) (is : List ℕ)
      (cs : List (SynthInputChunk F))
      → Chosen bs rs is cs
      → length cs ≡ length rs
  Chosen-length bs [] [] [] h = refl
  Chosen-length bs [] [] (c ∷ cs) h = absurd h
  Chosen-length bs [] (i ∷ is) cs h = absurd h
  Chosen-length bs (r ∷ rs) [] cs h = absurd h
  Chosen-length bs (r ∷ rs) (i ∷ is) [] h = absurd h
  Chosen-length bs (r ∷ rs) (i ∷ is) (c ∷ cs) (e, finite, b, rest) =
      ap suc (Chosen-length bs rs is cs rest)
