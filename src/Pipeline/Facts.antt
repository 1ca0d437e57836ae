-- ===== src/Pipeline/Facts.antt =====
-- Ids along the stages, and case splits on the combinators of a run.
use priority_kb.Base.{
  Text, text_eq, text_eq→eq, ◌≤◌, List, [], ◌∷◌, ◌++◌, Option, none, some, if◌then◌else◌, length,
  ◌≡◌, refl, ap, subst, ◌∙◌, arith, Subset, Subset-cons, In-self, Option-cases, inl, inr,
}
use priority_kb.Auth.{Role}
use priority_kb.Fusion.{Num}
use priority_kb.SynthInput.{SynthInputChunk}
use priority_kb.Rerank.{RerankBoundaryEntry}
use priority_kb.Rerank.Laws.{chunk_ids, boundary_ids}
use priority_kb.Citations.Validate.{CitationValidationResult, valid}
use priority_kb.Pipeline.Types.{
  HydratedEntryRow, Attempt, Call, succeeded, unavailable, threw, returned, failed, PipelineDeps,
  Exception, Run, throw, attempt, await, checked, branch,
}
use priority_kb.Pipeline.Hydrate.{
  row_by_id, add_row, ordered_rows, row_ids, boundary_body, boundary_with, boundaries_of,
}
use priority_kb.Pipeline.Synthesis.{Lanes, if_cited}
use priority_kb.Pipeline.Stages.{top_n_synth}

-- The fused ids come from the lanes.
abbrev pub FromLanes : Lanes → Type 0
FromLanes l = Subset l.fused_ids (l.ann_ids ++ l.keyword_ids)

-- The chunks are of fused entries, and at most as many as the synthesizer gets.
abbrev pub Drawn : {F : Type 0} → Lanes → List (SynthInputChunk F) → Type 0
Drawn l chunks = FromLanes l × Subset (chunk_ids chunks) l.fused_ids × (length chunks ≤ top_n_synth)

pub row_by_id-id :
    (rows : List HydratedEntryRow) (id : Text) (r : HydratedEntryRow)
    → row_by_id rows id ≡ some r
    → r.id ≡ id
unfolding row_by_id
row_by_id-id [] id r h = cc
row_by_id-id (x ∷ rows) id r h = elim (Option-cases (row_by_id rows id)) [
  | inl e ↦ found (rw (e, row_by_id) at h)
  | inr (y, e) ↦ row_by_id-id rows id r (e ∙ rw (e, row_by_id) at h)
]
  where
    found : (if text_eq x.id id then some x else none) ≡ some r → r.id ≡ id
    found k = ground (arith, text_eq→eq x.id id)

add_row-Subset :
    (rows : List HydratedEntryRow) (id : Text) (ids : List Text) (others : List HydratedEntryRow)
    → Subset (row_ids others) ids
    → (o : Option HydratedEntryRow) → row_by_id rows id ≡ o
    → Subset (row_ids (add_row o others)) (id ∷ ids)
add_row-Subset rows id ids others h none e = Subset-cons id ids _ h
add_row-Subset rows id ids others h (some r) e =
    (rw (row_by_id-id rows id r e) (In-self id ids), Subset-cons id ids _ h)

pub ordered_rows-Subset :
    (rows : List HydratedEntryRow) (ids : List Text) → Subset (row_ids (ordered_rows rows ids)) ids
unfolding ordered_rows
ordered_rows-Subset rows [] = tt
ordered_rows-Subset rows (id ∷ ids) =
    add_row-Subset rows id ids _ (ordered_rows-Subset rows ids) (row_by_id rows id) refl

pub boundaries_of-ids :
    (rep : Text → Text → Option Text) (found : List (Text × Text)) (rows : List HydratedEntryRow)
    (bs : List RerankBoundaryEntry)
    → boundaries_of rep found rows ≡ some bs
    → boundary_ids bs ≡ row_ids rows
unfolding boundaries_of
boundaries_of-ids rep found [] bs h = let same : [] ≡ bs = ground arith in rw (← same) refl
boundaries_of-ids rep found (r ∷ rows) bs h = elim (Option-cases (boundary_body rep found r)) [
  | inl e ↦ cc (rw (e, boundaries_of) at h)
  | inr (body, e) ↦ elim (Option-cases (boundaries_of rep found rows)) [
    | inl k ↦ cc (rw (e, k, boundaries_of) at h)
    | inr (rest, k) ↦
        let whole : some (boundary_with r body ∷ rest) ≡ some bs = rw (e, k, boundaries_of) at h in
        let same : boundary_with r body ∷ rest ≡ bs = ground arith in
        subst (λ xs. boundary_ids xs ≡ r.id ∷ row_ids rows) same
          (ap (◌∷◌ r.id) (boundaries_of-ids rep found rows rest k))
  ]
]

-- Case splits on the combinators of a run, with the equation that each case has.
module _ (P : Run → Type 0) (thrown : (e : Exception) → P (throw e)) where
  pub attempt-given :
      {A : Type 0} (a : Attempt A) (k : A → Run) (down : Text → Run)
      → ((x : A) → a ≡ succeeded x → P (k x))
      → ((m : Text) → P (down m))
      → P (attempt a k down)
  attempt-given (succeeded a) k down hk hd = hk a refl
  attempt-given (unavailable m) k down hk hd = hd m
  attempt-given (threw m) k down hk hd = thrown _

  pub attempt-cases :
      {A : Type 0} (a : Attempt A) (k : A → Run) (down : Text → Run)
      → ((x : A) → P (k x))
      → ((m : Text) → P (down m))
      → P (attempt a k down)
  attempt-cases a k down hk hd = attempt-given a k down (λ x _. hk x) hd

  pub await-cases : {A : Type 0} (a : Call A) (k : A → Run) → ((x : A) → P (k x)) → P (await a k)
  await-cases (returned a) k h = h a
  await-cases (failed m) k h = thrown _

  pub checked-cases :
      {A : Type 0} (a : Option A) (k : A → Run) → ((x : A) → a ≡ some x → P (k x)) → P (checked a k)
  checked-cases (some a) k h = h a refl
  checked-cases none k h = thrown _

  pub branch-cases :
      {A : Type 0} (a : Option A) (absent : Run) (k : A → Run)
      → (a ≡ none → P absent)
      → ((x : A) → a ≡ some x → P (k x))
      → P (branch a absent k)
  branch-cases none absent k ha hk = ha refl
  branch-cases (some a) absent k ha hk = hk a refl

  pub if_cited-cases :
      (num : Num) {V : Type 0} (deps : PipelineDeps num.F V) (query : Text) (role : Role)
      (v : CitationValidationResult) (k : List Text → Text → Run)
      (f : CitationValidationResult → Run)
      → ((ids : List Text) (body : Text) → v ≡ valid ids body → P (k ids body))
      → ((w : CitationValidationResult) → P (f w))
      → P (if_cited num deps query role v k f)
  unfolding if_cited
  if_cited-cases num deps query role (valid ids body) k f hk hf = hk ids body refl
  if_cited-cases num deps query role v k f hk hf = hf v
