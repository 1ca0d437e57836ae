-- ===== src/Tags/One.antt =====
-- lib/tags.ts: what `applyTagTransformToEntry` does, when no other session writes meanwhile.
use priority_kb.Base.{
  Text, text_eq→eq, ℕ, true, List, [], ◌∷◌, ◌+◌, Option, none, some, ◌≡◌, refl, sym, ap, ◌∙◌, subst,
  Bool-cases, inl, inr, arith,
}
use priority_kb.Store.Rows.{EntryRow, direct, Tables, entry_by_id, max_version}
use priority_kb.Store.Sessions.{Outside, World, pure, select}
use priority_kb.Store.Outcomes.{Quiet, Ends, Ends-after, Ends-select, Ends-weaken, Any, Start}
use priority_kb.Ingest.Entries.{Tools, audit_shape_for}
use priority_kb.Ingest.Writes.{update_entry}
use priority_kb.Ingest.Effects.{put_update}
use priority_kb.Ingest.Atomic.{update_entry-Ends}
use priority_kb.Tags.Steps.{or_same, Step, Step-none, Step-kept, Step-put}
use priority_kb.Tags.Operations.{
  Transform, arrays_equal, input_of, triggered_by, retag, retag_found, run_on,
}

arrays_equal→eq : (xs ys : List Text) → arrays_equal xs ys ≡ true → xs ≡ ys
unfolding arrays_equal
arrays_equal→eq [] [] h = refl
arrays_equal→eq [] (y ∷ ys) h = cc
arrays_equal→eq (x ∷ xs) [] h = cc
arrays_equal→eq (x ∷ xs) (y ∷ ys) h = ground (arith, arrays_equal→eq xs ys, text_eq→eq x y)

module _ {V K : Type 0} (out : Outside V) (tools : Tools K) (quiet : Quiet out) where
  pub Start-same : (w : World V) (t : Tables V) → Start out w t → t ≡ w.tables
  Start-same w t (inl e) = e
  Start-same w t (inr (n, e)) = e ∙ quiet n w.tables

  module _ (f : Transform) (audit_id : ℕ) (id : Text) where
    retag-Ends :
        (e : EntryRow) (o : Option (List Text)) (w : World V)
        → entry_by_id w.tables.entries id ≡ some e
        → f e.tags ≡ o
        → Ends (retag out tools audit_id id e o w) (λ _ t. Step f id w.tables t) Any
    unfolding retag
    retag-Ends e none w h k = Step-kept f id w.tables e h (ap (or_same e.tags) k)
    retag-Ends e (some new) w h k = elim (Bool-cases (arrays_equal new e.tags)) [
      | inl q ↦
          rw (q, retag)
            (Step-kept f id w.tables e h (ap (or_same e.tags) k ∙ arrays_equal→eq new e.tags q))
      | inr q ↦
          rw (q, retag)
            (Ends-after
              (update_entry out tools true id (input_of e new) direct (triggered_by audit_id) w)
              (λ _. pure true) (λ _ t. Step f id w.tables t) (λ _ t. Step f id w.tables t) Any
              (Ends-weaken
                (update_entry out tools true id (input_of e new) direct (triggered_by audit_id) w) _
                (λ _ t. Step f id w.tables t) (Start out w) Any
                (update_entry-Ends out tools true id (input_of e new) direct (triggered_by audit_id)
                  w)
                (λ a t (t0, s, (d, x, derived, found, made)).
                  subst (λ u. Step f id w.tables u)
                    (sym (
                      made ∙ (λ i.
                        put_update tools (audit_shape_for tools.prompt_hash direct true) id
                          (input_of e new) (triggered_by audit_id) d
                          (max_version ((Start-same w t0 s i).versions) id + 1)
                          (Start-same w t0 s i))))
                    (Step-put tools f id w.tables e new (triggered_by audit_id) d
                      (max_version w.tables.versions id + 1) h k))
                (λ t s. tt))
              (λ a v s. s))
    ]

    retag_found-Ends :
        (o : Option EntryRow) (w : World V)
        → entry_by_id w.tables.entries id ≡ o
        → Ends (retag_found out tools audit_id f id o w) (λ _ t. Step f id w.tables t) Any
    unfolding retag_found
    retag_found-Ends none w h = Step-none f id w.tables h
    retag_found-Ends (some e) w h = retag-Ends e (f e.tags) w h refl

    pub run_on-Ends :
        (w : World V) → Ends (run_on out tools audit_id f id w) (λ _ t. Step f id w.tables t) Any
    unfolding run_on
    run_on-Ends w =
        Ends-after (select out (λ t. entry_by_id t.entries id) w)
          (retag_found out tools audit_id f id)
          (λ o t. (o ≡ entry_by_id w.tables.entries id) × (t ≡ w.tables)) _ Any
          (Ends-select out (λ t. entry_by_id t.entries id) w _ Any (refl, refl) tt)
          (λ o v (p, q).
            subst (λ u. Ends (retag_found out tools audit_id f id o v) (λ _ t. Step f id u t) Any) q
              (retag_found-Ends o v (ap (λ u. entry_by_id u.entries id) q ∙ sym p)))
