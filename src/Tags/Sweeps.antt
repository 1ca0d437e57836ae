-- ===== src/Tags/Sweeps.antt =====
-- lib/tags.ts: what the loops over the entries do, when no other session writes meanwhile.
use priority_kb.Base.{
  Text, ℕ, Bool, false, List, [], ◌∷◌, ◌++◌, none, some, ◌≡◌, refl, subst, if◌then◌else◌,
}
use priority_kb.Store.Rows.{Tables}
use priority_kb.Store.Sessions.{Outside, World, Result, ok, err, Action, pure, transaction}
use priority_kb.Store.Outcomes.{Quiet, Ends, Ends-after, Ends-weaken, Any, Start, Ends-transaction}
use priority_kb.Ingest.Entries.{Tools}
use priority_kb.Tags.Payloads.{Progress, stringify_error}
use priority_kb.Tags.Steps.{Step}
use priority_kb.Tags.Swept.{Swept, Settles, Swept-Step}
use priority_kb.Tags.One.{Start-same, run_on-Ends}
use priority_kb.Tags.Operations.{
  Transform, caught, run_on, apply_tag_transform_to_entry, sweep, merge_loop,
}

module _ {V K : Type 0} (out : Outside V) (tools : Tools K) (quiet : Quiet out) (audit_id : ℕ)
    (f : Transform) (settles : Settles f) where
  apply-Ends :
      (id : Text) (w : World V)
      → Ends
          (apply_tag_transform_to_entry out tools false audit_id f id w)
          (λ _ t. Step f id w.tables t)
          (λ t. t ≡ w.tables)
  unfolding apply_tag_transform_to_entry
  apply-Ends id w =
      Ends-weaken (transaction out false (run_on out tools audit_id f id) w)
        (λ _ t. (t0 : Tables V) × Start out w t0 × Step f id t0 t) _ (Start out w)
        (λ t. t ≡ w.tables)
        (Ends-transaction out false (run_on out tools audit_id f id) w (λ t0 _ t. Step f id t0 t)
          (λ v s. run_on-Ends out tools quiet f audit_id id v))
        (λ a t (t0, s, r). subst (λ u. Step f id u t) (Start-same out tools quiet w t0 s) r)
        (Start-same out tools quiet w)

  -- How far a loop came: the entries that it did not reach are as they were.
  abbrev pub Reached : Tables V → Progress → Tables V → Type 0
  Reached t0 p t = (rest : List Text) × Swept f t0 rest t × ((p.failure ≡ none) → rest ≡ [])

  Reached-caught :
      (t0 : Tables V) (id : Text) (ids affected : List Text) (w : World V)
      (r : Result Bool × World V) (k : Bool → Action V Progress)
      → Swept f t0 (id ∷ ids) w.tables
      → Ends r (λ _ t. Step f id w.tables t) (λ t. t ≡ w.tables)
      → ((b : Bool) (v : World V) → Swept f t0 ids v.tables → Ends (k b v) (Reached t0) (λ _. ⊥))
      → Ends
          (caught r k
            (λ e. pure (record { affected = affected; failure = some (stringify_error e) })))
          (Reached t0)
          (λ _. ⊥)
  Reached-caught t0 id ids affected w (ok b, v) k h s next =
      next b v (Swept-Step f settles t0 w.tables v.tables id ids h s)
  Reached-caught t0 id ids affected w (err e, v) k h s next = (id ∷ ids, rw s h, λ q. cc)

  -- The loop never throws.
  pub sweep-Ends :
      (t0 : Tables V) (ids affected : List Text) (w : World V)
      → Swept f t0 ids w.tables
      → Ends (sweep out tools audit_id f ids affected w) (Reached t0) (λ _. ⊥)
  unfolding sweep
  sweep-Ends t0 [] affected w h = ([], h, λ q. refl)
  sweep-Ends t0 (id ∷ ids) affected w h =
      Reached-caught t0 id ids affected w
        (apply_tag_transform_to_entry out tools false audit_id f id w)
        (λ updated.
          sweep out tools audit_id f ids (if updated then affected ++ id ∷ [] else affected))
        h (apply-Ends id w)
        (λ b v s. sweep-Ends t0 ids (if b then affected ++ id ∷ [] else affected) v s)

  pub merge_loop-Ends :
      (t0 : Tables V) (ids affected : List Text) (w : World V)
      → Swept f t0 ids w.tables
      → Ends (merge_loop out tools audit_id f ids affected w) (λ _ t. Swept f t0 [] t) Any
  unfolding merge_loop apply_tag_transform_to_entry
  merge_loop-Ends t0 [] affected w h = h
  merge_loop-Ends t0 (id ∷ ids) affected w h =
      Ends-after (run_on out tools audit_id f id w)
        (λ updated.
          merge_loop out tools audit_id f ids (if updated then affected ++ id ∷ [] else affected))
        (λ _ t. Step f id w.tables t) _ Any (run_on-Ends out tools quiet f audit_id id w)
        (λ b v s.
          merge_loop-Ends t0 ids (if b then affected ++ id ∷ [] else affected) v
            (Swept-Step f settles t0 w.tables v.tables id ids h s))
