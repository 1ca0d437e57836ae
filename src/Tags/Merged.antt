-- ===== src/Tags/Merged.antt =====
-- lib/tags.ts: `mergeTags`, all or nothing.
use priority_kb.Base.{Text, ℕ, false, List, [], none, some, ◌≡◌, sym, ap, ◌∙◌, subst}
use priority_kb.Store.Rows.{Tables, ids_where}
use priority_kb.Store.Sessions.{Outside, World, pure, ◌>>◌, transaction}
use priority_kb.Store.Outcomes.{Quiet, Ends, Ends-after, Ends-weaken, Any, Start, Ends-transaction}
use priority_kb.Ingest.Entries.{Tools}
use priority_kb.Tags.Names.{MergeInput, merge_input, merge_refused}
use priority_kb.Tags.Payloads.{build_tag_payload}
use priority_kb.Tags.Swept.{Swept, Settles, Swept-start}
use priority_kb.Tags.One.{Start-same}
use priority_kb.Tags.Sweeps.{merge_loop-Ends}
use priority_kb.Tags.Runs.{Opened, Kept, Logged, Turned, update_payload-Ends}
use priority_kb.Tags.MergeNames.{merged, OutsideOf, merge_transform-idle, merge_transform-Settles}
use priority_kb.Tags.Operations.{
  Outcome, invalid, completed, rolled_back, overlaps, merge_transform, merge_loop, merge_all,
  update_payload,
}

-- How a merge of checked names ends: without a failure and with every entry turned, or with the start
-- row only, if it is rolled back.
abbrev pub MergeReports : {V : Type 0} → MergeInput → Tables V → Outcome → Tables V → Type 0
MergeReports (merge_refused e) t0 o t = (o ≡ invalid e) × (t ≡ t0)
MergeReports (merge_input f to) t0 (invalid e) t = ⊥
MergeReports (merge_input f to) t0 (completed a p) t =
    (p.failure ≡ none) × Logged t0 a t × Turned (merged f to) t0 t
MergeReports (merge_input f to) t0 (rolled_back a c m) t = Opened t0 a t

module _ {V K : Type 0} (out : Outside V) (tools : Tools K) (quiet : Quiet out) (from : List Text)
    (to : Text) (apart : OutsideOf from to) (a : ℕ) where
  abbrev settles : Settles (merge_transform from to)
  settles = merge_transform-Settles from to apart

  -- The tables that the transaction of a merge leaves.
  abbrev Merged : Tables V → Tables V → Type 0
  Merged t1 t' = (t : Tables V) × Swept (merge_transform from to) t1 [] t × Kept t t'

  updated-Ends :
      (t1 : Tables V) (affected : List Text) (w : World V)
      → Swept (merge_transform from to) t1 [] w.tables
      → Ends
          ((update_payload out tools a
                (build_tag_payload from (some to) (record { affected = affected; failure = none }))
              >> pure affected)
            w)
          (λ _ t. Merged t1 t)
          Any
  updated-Ends t1 affected w s =
      let payload =
        build_tag_payload from (some to) (record { affected = affected; failure = none }) in
      Ends-after (update_payload out tools a payload w) (λ _. pure affected)
        (λ _ t. Kept w.tables t) _ Any
        (Ends-weaken (update_payload out tools a payload w) _ (λ _ t. Kept w.tables t)
          (λ t. t ≡ w.tables) Any (update_payload-Ends out tools quiet a payload w) (λ n t k. k)
          (λ t e. tt))
        (λ n v k. (w.tables, s, k))

  merge_all-Ends :
      (ids : List Text) (w : World V)
      → Swept (merge_transform from to) w.tables ids w.tables
      → Ends (merge_all out tools a from to ids w) (λ _ t. Merged w.tables t) Any
  unfolding merge_all
  merge_all-Ends ids w start =
      Ends-after (merge_loop out tools a (merge_transform from to) ids [] w) _
        (λ _ t. Swept (merge_transform from to) w.tables [] t) _ Any
        (merge_loop-Ends out tools quiet a (merge_transform from to) settles w.tables ids [] w
          start)
        (λ affected v s. updated-Ends w.tables affected v s)

  whole :
      (t0 : Tables V) (ids : List Text) (w : World V)
      → Opened t0 a w.tables
      → ids ≡ ids_where (overlaps from) t0.entries
      → Ends
          (transaction out false (merge_all out tools a from to ids) w)
          (λ _ t. Merged w.tables t)
          (λ t. t ≡ w.tables)
  whole t0 ids w o listed =
      Ends-weaken (transaction out false (merge_all out tools a from to ids) w)
        (λ _ t. (u : Tables V) × Start out w u × Merged u t) _ (Start out w) (λ t. t ≡ w.tables)
        (Ends-transaction out false (merge_all out tools a from to ids) w (λ u _ t. Merged u t)
          (λ v s. merge_all-Ends ids v (
            subst (λ l. Swept (merge_transform from to) v.tables l v.tables)
              (ap (λ t. ids_where (overlaps from) t.entries)
                  (Start-same out tools quiet w v.tables s)
                ∙ ap (ids_where (overlaps from)) o.entries
                ∙ sym listed)
              (Swept-start (merge_transform from to) settles v.tables (overlaps from)
                (merge_transform-idle from to)))))
        (λ x t (u, s, m). subst (λ b. Merged b t) (Start-same out tools quiet w u s) m)
        (Start-same out tools quiet w)
