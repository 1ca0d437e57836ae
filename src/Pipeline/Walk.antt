-- ===== src/Pipeline/Walk.antt =====
-- From the stages before the reranker to the exits.
use priority_kb.Base.{
  Text, lit, append-nil, ℕ, true, false, List, [], ◌∷◌, ◌++◌, some, take, ◌≡◌, arith, Subset,
  Subset-trans, Subset-take, Bool-cases, inl, inr,
}
use priority_kb.Auth.{Role, sensitivity_allowed_for_role}
use priority_kb.Fusion.{Num, RrfFusedEntry, Fused, fused, rrf_fuse}
use priority_kb.Fusion.Scores.{lane_ids}
use priority_kb.Fusion.Laws.{entry_ids, rrf_fuse_lem}
use priority_kb.Pipeline.Types.{AnnCandidate, HydratedEntryRow, PipelineDeps, Run}
use priority_kb.Pipeline.Hydrate.{ordered_rows}
use priority_kb.Pipeline.Synthesis.{Lanes, is_empty}
use priority_kb.Pipeline.Stages.{
  top_n_synth, top_k_ann, top_k_ann_inner, top_k_keyword, ann_ids, fused_of, candidates_stage,
  hydrate_stage, fuse_stage, lanes_stage, keyword_stage, retrieve_pipeline,
}
use priority_kb.Pipeline.Facts.{
  FromLanes, ordered_rows-Subset, boundaries_of-ids, attempt-cases, await-cases, checked-cases,
}
use priority_kb.Pipeline.Exits.{Exits, rerank_stage-exits}

result_of :
    (num : Num) (r : Fused num.F) (out : List (RrfFusedEntry num.F))
    → fused_of r ≡ some out
    → r ≡ fused out
result_of num (fused o) out h = ground arith
result_of num Fused.bad_k out h = cc
result_of num Fused.bad_limit out h = cc

fused-FromLanes :
    (num : Num) (ann keyword : List Text) (k limit : ℕ) (out : List (RrfFusedEntry num.F))
    → fused_of (
        rrf_fuse num
          (record { name = lit "ann"; ranked_entry_ids = ann }
            ∷ record { name = lit "keyword"; ranked_entry_ids = keyword }
            ∷ [])
          k
          limit)
      ≡ some out
    → Subset (entry_ids out) (ann ++ keyword)
unfolding lane_ids
fused-FromLanes num ann keyword k limit out h =
    let fuses = rrf_fuse_lem num _ k limit out (result_of num _ out h) in
    rw (← append-nil keyword) fuses.1

module _ (num : Num) {V : Type 0} (deps : PipelineDeps num.F V) (query : Text) (role : Role)
    (P : Run → Type 0) (x : Exits num deps query role P) where
  open num use {F}

  candidates_stage-exits :
      (l : Lanes) (ann : List AnnCandidate) (rows : List HydratedEntryRow)
      → FromLanes l
      → is_empty l.fused_ids ≡ false
      → P (candidates_stage num deps query role l ann rows)
  unfolding candidates_stage
  candidates_stage-exits l ann rows f n = await-cases P x.thrown _ _ (λ found.
      checked-cases P x.thrown _ _ (λ bs e. x.shown _ _ (
        rerank_stage-exits num deps query role P x l bs f
          (rw
            (boundaries_of-ids deps.representative found
              (ordered_rows rows (take top_n_synth l.fused_ids)) bs e)
            (Subset-trans _ _ _ (ordered_rows-Subset rows (take top_n_synth l.fused_ids))
              (Subset-take top_n_synth l.fused_ids)))
          n)))

  hydrate_stage-exits :
      (l : Lanes) (ann : List AnnCandidate)
      → FromLanes l
      → P (hydrate_stage num deps query role l ann)
  unfolding hydrate_stage
  hydrate_stage-exits l ann f = elim (Bool-cases (is_empty l.fused_ids)) [
    | inl e ↦ rw e (x.nothing l f e)
    | inr e ↦ rw e (await-cases P x.thrown _ _ (λ rows. candidates_stage-exits l ann rows f e))
  ]

  fuse_stage-exits :
      (tokens : ℕ) (ann : List AnnCandidate) (keyword : List Text)
      → P (fuse_stage num deps query role tokens ann keyword)
  unfolding fuse_stage
  fuse_stage-exits tokens ann keyword =
      let lanes =
        record { name = lit "ann"; ranked_entry_ids = ann_ids ann }
        ∷ record { name = lit "keyword"; ranked_entry_ids = keyword }
        ∷ [] in
      checked-cases P x.thrown (fused_of (rrf_fuse num lanes deps.rrf_k top_k_ann))
        (λ out.
          hydrate_stage num deps query role
            (record {
              embed_ok = true;
              embed_tokens = tokens;
              ann_ids = ann_ids ann;
              keyword_ids = keyword;
              fused_ids = entry_ids out;
            })
            ann)
        (λ out e.
          hydrate_stage-exits _ ann
            (fused-FromLanes num (ann_ids ann) keyword deps.rrf_k top_k_ann out e))

  keyword_stage-exits : P (keyword_stage num deps query role)
  unfolding keyword_stage
  keyword_stage-exits =
      await-cases P x.thrown _ _
        (λ keyword. hydrate_stage-exits _ [] (Subset-take top_k_ann keyword))

  lanes_stage-exits : (vector : V) (tokens : ℕ) → P (lanes_stage num deps query role vector tokens)
  unfolding lanes_stage
  lanes_stage-exits vector tokens =
      await-cases P x.thrown
        (deps.ann_fn vector (sensitivity_allowed_for_role role) deps.embedder_model
          deps.embedder_version top_k_ann top_k_ann_inner)
        _
        (λ ann.
          await-cases P x.thrown
            (deps.keyword_fn query (sensitivity_allowed_for_role role) top_k_keyword) _
            (fuse_stage-exits tokens ann))

  -- Whatever the vendors and the database answer, the run ends at one of the exits.
  pub retrieve_pipeline-exits : P (retrieve_pipeline num deps query role)
  unfolding retrieve_pipeline
  retrieve_pipeline-exits =
      attempt-cases P x.thrown (deps.embed query) _ _
        (λ e. lanes_stage-exits e.vector e.tokens_used) (λ m. keyword_stage-exits)
