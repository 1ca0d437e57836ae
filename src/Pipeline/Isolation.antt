-- ===== src/Pipeline/Isolation.antt =====
-- What a user's run may depend on: the lanes at the sensitivities that the role allows.
use priority_kb.Base.{Text, ℕ, List, [], ◌≡◌, ◌≢◌, refl, ap, ◌∙◌}
use priority_kb.Auth.{user, Sensitivity, restricted, sensitivity_allowed_for_role}
use priority_kb.Fusion.{Num}
use priority_kb.Pipeline.Types.{
  Attempt, Call, succeeded, unavailable, threw, returned, failed, AnnCandidate, PipelineDeps, Run,
  attempt, await,
}
use priority_kb.Pipeline.Synthesis.{
  Lanes, build_base, retry_hash, reason_of, synth_down, not_cited, answered, if_cited, retry,
  first_attempt, synthesis,
}
use priority_kb.Pipeline.Stages.{
  top_k_keyword, top_k_ann, top_k_ann_inner, without_synth, after_rerank, rerank_stage,
  candidates_stage, nothing_found, hydrate_stage, fuse_stage, lanes_stage, keyword_stage,
  retrieve_pipeline,
}

attempt-ext :
    {A : Type 0} (a : Attempt A) (k l : A → Run) (d e : Text → Run)
    → ((x : A) → k x ≡ l x)
    → ((m : Text) → d m ≡ e m)
    → attempt a k d ≡ attempt a l e
attempt-ext (succeeded a) k l d e h j = h a
attempt-ext (unavailable m) k l d e h j = j m
attempt-ext (threw m) k l d e h j = refl

await-ext :
    {A : Type 0} (a b : Call A) (k l : A → Run)
    → a ≡ b
    → ((x : A) → k x ≡ l x)
    → await a k ≡ await b l
await-ext (returned a) b k l e h = h a ∙ ap (λ c. await c l) e
await-ext (failed m) b k l e h = ap (λ c. await c l) e

-- The allow-list names no restricted entry.
abbrev pub NoRestricted : List Sensitivity → Type 0
NoRestricted List.[] = Unit
NoRestricted (List.◌∷◌ s ss) = (s ≢ restricted) × NoRestricted ss

module _ (num : Num) {V : Type 0} (deps : PipelineDeps num.F V) (query : Text)
    (ann : V → List Sensitivity → Text → Text → ℕ → ℕ → Call (List AnnCandidate))
    (keyword : Text → List Sensitivity → ℕ → Call (List Text)) where
  -- The same dependencies over a database whose lanes answer differently.
  abbrev pub with_lanes : PipelineDeps num.F V
  with_lanes = record deps { ann_fn = ann; keyword_fn = keyword }

  hydrate_stage-same :
      (l : Lanes) (found : List AnnCandidate)
      → hydrate_stage num deps query user l found ≡ hydrate_stage num with_lanes query user l found
  unfolding hydrate_stage candidates_stage rerank_stage after_rerank without_synth synthesis
      first_attempt retry synth_down not_cited answered if_cited build_base reason_of retry_hash
      nothing_found
  hydrate_stage-same l found = refl

  module _
      (same_ann : (v : V) (ss : List Sensitivity) (m w : Text) (k j : ℕ)
        → NoRestricted ss
        → deps.ann_fn v ss m w k j ≡ ann v ss m w k j)
      (same_keyword : (q : Text) (ss : List Sensitivity) (k : ℕ)
        → NoRestricted ss
        → deps.keyword_fn q ss k ≡ keyword q ss k) where
    allowed : NoRestricted (sensitivity_allowed_for_role user)
    unfolding sensitivity_allowed_for_role
    allowed = ((λ e. cc), ((λ e. cc), tt))

    keyword_stage-same : keyword_stage num deps query user ≡ keyword_stage num with_lanes query user
    unfolding keyword_stage
    keyword_stage-same =
        await-ext (deps.keyword_fn query (sensitivity_allowed_for_role user) top_k_keyword)
          (keyword query (sensitivity_allowed_for_role user) top_k_keyword) _ _
          (same_keyword query _ top_k_keyword allowed) (λ ids. hydrate_stage-same _ [])

    fuse_stage-same :
        (tokens : ℕ) (found : List AnnCandidate) (ids : List Text)
        → fuse_stage num deps query user tokens found ids
          ≡ fuse_stage num with_lanes query user tokens found ids
    unfolding fuse_stage hydrate_stage candidates_stage rerank_stage after_rerank without_synth
        synthesis first_attempt retry synth_down not_cited answered if_cited build_base reason_of
        retry_hash nothing_found
    fuse_stage-same tokens found ids = refl

    lanes_stage-same :
        (v : V) (tokens : ℕ)
        → lanes_stage num deps query user v tokens ≡ lanes_stage num with_lanes query user v tokens
    unfolding lanes_stage
    lanes_stage-same v tokens =
        await-ext
          (deps.ann_fn v (sensitivity_allowed_for_role user) deps.embedder_model
            deps.embedder_version top_k_ann top_k_ann_inner)
          (ann v (sensitivity_allowed_for_role user) deps.embedder_model deps.embedder_version
            top_k_ann top_k_ann_inner)
          _ _ (same_ann v _ _ _ top_k_ann top_k_ann_inner allowed)
          (λ found.
            await-ext (deps.keyword_fn query (sensitivity_allowed_for_role user) top_k_keyword)
              (keyword query (sensitivity_allowed_for_role user) top_k_keyword) _ _
              (same_keyword query _ top_k_keyword allowed) (fuse_stage-same tokens found))

    -- A user's run is the same over two databases whose lanes differ only for allow-lists that name
    -- restricted entries.
    pub retrieve_pipeline-user_same :
        retrieve_pipeline num deps query user ≡ retrieve_pipeline num with_lanes query user
    unfolding retrieve_pipeline
    retrieve_pipeline-user_same =
        attempt-ext (deps.embed query) (λ e. lanes_stage num deps query user e.vector e.tokens_used)
          _ _ _ (λ e. lanes_stage-same e.vector e.tokens_used) (λ m. keyword_stage-same)
