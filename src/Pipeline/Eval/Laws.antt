-- ===== src/Pipeline/Eval/Laws.antt =====
-- An evaluation sees what a run with a synthesizer records.
use priority_kb.Base.{
  lit, subst, Text, ℕ, true, false, List, [], ◌∷◌, ◌≡◌, refl, Bool-cases, inl, inr, take,
}
use priority_kb.Auth.{Role, sensitivity_allowed_for_role}
use priority_kb.Fusion.{Num, rrf_fuse}
use priority_kb.Rerank.{RerankBoundaryEntry, join_reranked_to_synth_input}
use priority_kb.Pipeline.Types.{AnnCandidate, HydratedEntryRow, PipelineDeps, AuditOutcome, returns}
use priority_kb.Pipeline.Hydrate.{ordered_rows, fetch_bodies, boundaries_of}
use priority_kb.Pipeline.Synthesis.{Lanes, is_empty, build_base}
use priority_kb.Pipeline.Stages.{
  top_n_synth, top_k_ann, top_k_ann_inner, top_k_keyword, ann_ids, fused_of, bodies, chunks_of,
  rerank_stage, candidates_stage, nothing_found, hydrate_stage, fuse_stage, lanes_stage,
  keyword_stage, retrieve_pipeline,
}
use priority_kb.Pipeline.Eval.{
  project_to_eval_result, evaluated, without_synthesizer, eval_retrieve,
}
use priority_kb.Pipeline.Eval.Agreement.{
  Agree, attempt-Agree, await-Agree, checked-Agree, after_rerank-Agree,
}

module _ (num : Num) {V : Type 0} (deps : PipelineDeps num.F V) (query : Text) (role : Role) where
  rerank_stage-Agree :
      (l : Lanes) (bs : List RerankBoundaryEntry)
      → Agree
          (rerank_stage num deps query role l bs).finish
          (rerank_stage num (without_synthesizer num deps query role) query role l bs).finish
  unfolding rerank_stage
  rerank_stage-Agree l bs =
      attempt-Agree (deps.rerank query (bodies bs) top_n_synth) _ _ _ _
        (λ ranking.
          checked-Agree (chunks_of (join_reranked_to_synth_input num ranking bs top_n_synth)) _ _
            (after_rerank-Agree num deps query role l true))
        (λ m. after_rerank-Agree num deps query role l false _)

  candidates_stage-Agree :
      (l : Lanes) (ann : List AnnCandidate) (rows : List HydratedEntryRow)
      → Agree
          (candidates_stage num deps query role l ann rows).finish
          (candidates_stage num
            (without_synthesizer num deps query role)
            query
            role
            l
            ann
            rows).finish
  unfolding candidates_stage
  candidates_stage-Agree l ann rows =
      let ordered = ordered_rows rows (take top_n_synth l.fused_ids) in
      await-Agree (fetch_bodies deps.fetch_chunk_slices_fn l.embed_ok ann rows ordered) _ _
        (λ found.
          checked-Agree (boundaries_of deps.representative found ordered) _ _
            (rerank_stage-Agree l))

  hydrate_stage-Agree :
      (l : Lanes) (ann : List AnnCandidate)
      → Agree
          (hydrate_stage num deps query role l ann).finish
          (hydrate_stage num (without_synthesizer num deps query role) query role l ann).finish
  unfolding hydrate_stage nothing_found build_base project_to_eval_result
  hydrate_stage-Agree l ann = elim (Bool-cases (is_empty l.fused_ids)) [
    | inl e ↦ elim (Bool-cases l.embed_ok) [ inl k ↦ rw (e, k) refl | inr k ↦ rw (e, k) refl ]
    | inr e ↦ rw e (
        await-Agree (deps.fetch_entries_fn (take top_n_synth l.fused_ids)) _ _
          (candidates_stage-Agree l ann))
  ]

  fuse_stage-Agree :
      (tokens : ℕ) (ann : List AnnCandidate) (keyword : List Text)
      → Agree
          (fuse_stage num deps query role tokens ann keyword).finish
          (fuse_stage num
            (without_synthesizer num deps query role)
            query
            role
            tokens
            ann
            keyword).finish
  unfolding fuse_stage
  fuse_stage-Agree tokens ann keyword =
      let lanes =
        record { name = lit "ann"; ranked_entry_ids = ann_ids ann }
        ∷ record { name = lit "keyword"; ranked_entry_ids = keyword }
        ∷ [] in
      checked-Agree (fused_of (rrf_fuse num lanes deps.rrf_k top_k_ann)) _ _
        (λ out. hydrate_stage-Agree _ ann)

  lanes_stage-Agree :
      (vector : V) (tokens : ℕ)
      → Agree
          (lanes_stage num deps query role vector tokens).finish
          (lanes_stage num
            (without_synthesizer num deps query role)
            query
            role
            vector
            tokens).finish
  unfolding lanes_stage
  lanes_stage-Agree vector tokens =
      await-Agree
        (deps.ann_fn vector (sensitivity_allowed_for_role role) deps.embedder_model
          deps.embedder_version top_k_ann top_k_ann_inner)
        _ _
        (λ ann.
          await-Agree (deps.keyword_fn query (sensitivity_allowed_for_role role) top_k_keyword) _ _
            (fuse_stage-Agree tokens ann))

  keyword_stage-Agree :
      Agree
        (keyword_stage num deps query role).finish
        (keyword_stage num (without_synthesizer num deps query role) query role).finish
  unfolding keyword_stage
  keyword_stage-Agree =
      await-Agree (deps.keyword_fn query (sensitivity_allowed_for_role role) top_k_keyword) _ _
        (λ keyword. hydrate_stage-Agree _ [])

  retrieve_pipeline-Agree :
      Agree
        (retrieve_pipeline num deps query role).finish
        (retrieve_pipeline num (without_synthesizer num deps query role) query role).finish
  unfolding retrieve_pipeline
  retrieve_pipeline-Agree =
      attempt-Agree (deps.embed query) _ _ _ _ (λ e. lanes_stage-Agree e.vector e.tokens_used)
        (λ m. keyword_stage-Agree)

  -- When a run of the pipeline returns an audit row, an evaluation of the same question without the
  -- synthesizer returns that row's vector and keyword candidates, its fused ids and its reranked ids, each
  -- in the field of that name.
  pub eval_retrieve-eq-project :
      (out : AuditOutcome)
      → (retrieve_pipeline num deps query role).finish ≡ returns out
      → eval_retrieve num deps query role
        ≡ evaluated (record {
          ann_candidate_ids = out.ann_candidate_ids;
          keyword_candidate_ids = out.keyword_candidate_ids;
          fused_candidate_ids = out.fused_ids;
          reranked_ids = out.reranked_ids;
        })
  unfolding eval_retrieve project_to_eval_result
  eval_retrieve-eq-project out h =
      subst
        (λ f.
          Agree f
            (retrieve_pipeline num (without_synthesizer num deps query role) query role).finish)
        h retrieve_pipeline-Agree
