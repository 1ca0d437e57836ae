-- ===== src/Ingest/Atomic.antt =====
-- lib/ingest.ts: a create or an update happens as a whole or not at all.
use priority_kb.Base.{
  Text, ◌+◌, Bool, true, false, List, [], ◌∷◌, Option, none, some, length, ◌==◌, ==_iff, ◌≡◌, refl,
  sym, ap, ◌∙◌, Bool-cases, inl, inr,
}
use priority_kb.Chunk.Slices.{ChunkSlice, Chunked, sliced, encode_error, unfinished, chunk}
use priority_kb.Store.Rows.{EntryRow, SourceKind, AuditExtra, Tables, entry_by_id, max_version}
use priority_kb.Store.Sessions.{
  Outside, World, Action, Embedded, after, ◌>>=◌, select, embed, transaction,
}
use priority_kb.Store.Outcomes.{
  Ends, Ends-after, Ends-select, Ends-weaken, Ends-outside, Any, Start, Ends-transaction,
}
use priority_kb.Ingest.Entries.{Tools, IngestInput, AuditShape, audit_shape_for, Derived}
use priority_kb.Ingest.Writes.{
  default_opts, cut_result, slices_of, inputs_of, checked_vectors, derive_chunks_and_embeddings,
  insert_all, create_entry, entry_id_or_new, update_all, update_found, update_entry,
}
use priority_kb.Ingest.Effects.{IsDerived, put_new, put_update, update_all-Does, insert_all-Does}

module _ {V K : Type 0} (out : Outside V) (tools : Tools K) where
  checked_vectors-Ends :
      (canonical : Text) (slices : List ChunkSlice) (e : Embedded V) (input : IngestInput)
      (w : World V)
      → canonical ≡ tools.nfc (tools.scrub input.body)
      → chunk tools.encoder tools.nfc canonical default_opts ≡ sliced slices
      → Ends
          (checked_vectors out tools canonical slices e w)
          (λ d t. IsDerived tools input d × (t ≡ w.tables))
          (λ t. t ≡ w.tables)
  unfolding checked_vectors
  checked_vectors-Ends canonical slices e input w h c =
      elim (Bool-cases (length e.vectors == length slices)) [
        | inl q ↦
            rw (q, checked_vectors)
              (record { canonical = h; cut = c; vectors = (==_iff _ _).0 q }, refl)
        | inr q ↦ rw (q, checked_vectors) refl
      ]

  cut_result-Ends :
      (c : Chunked) (w : World V)
      → Ends
          (cut_result tools c w)
          (λ slices t. (c ≡ sliced slices) × (t ≡ w.tables))
          (λ t. t ≡ w.tables)
  unfolding cut_result
  cut_result-Ends (sliced slices) w = (refl, refl)
  cut_result-Ends encode_error w = refl
  cut_result-Ends unfinished w = refl

  slices_of-Ends :
      (canonical : Text) (w : World V)
      → Ends
          (slices_of tools canonical w)
          (λ slices t.
            (chunk tools.encoder tools.nfc canonical default_opts ≡ sliced slices) × (t ≡ w.tables))
          (λ t. t ≡ w.tables)
  unfolding slices_of
  slices_of-Ends canonical w =
      cut_result-Ends (chunk tools.encoder tools.nfc canonical default_opts) w

  embedded-Ends :
      (input : IngestInput) (slices : List ChunkSlice) (w : World V)
      → chunk tools.encoder tools.nfc (tools.nfc (tools.scrub input.body)) default_opts
        ≡ sliced slices
      → Ends
          (after
            (embed out
              (inputs_of tools input.title input.tags (tools.nfc (tools.scrub input.body)) slices)
              w)
            (checked_vectors out tools (tools.nfc (tools.scrub input.body)) slices))
          (λ d t. IsDerived tools input d × (t ≡ w.tables))
          (λ t. t ≡ w.tables)
  embedded-Ends input slices w c =
      let canonical = tools.nfc (tools.scrub input.body) in
      let inputs = inputs_of tools input.title input.tags canonical slices in
      Ends-after (embed out inputs w) (checked_vectors out tools canonical slices)
        (λ _ t. t ≡ w.tables) (λ d t. IsDerived tools input d × (t ≡ w.tables)) (λ t. t ≡ w.tables)
        (unfold embed in (Ends-outside (out.embed_batch w.clock inputs) _))
        (λ x v same.
          Ends-weaken (checked_vectors out tools canonical slices x v)
            (λ d t. IsDerived tools input d × (t ≡ v.tables))
            (λ d t. IsDerived tools input d × (t ≡ w.tables)) (λ t. t ≡ v.tables)
            (λ t. t ≡ w.tables) (checked_vectors-Ends canonical slices x input v refl c)
            (λ d t p. (p.0, p.1 ∙ same)) (λ t p. p ∙ same))

  derive-Ends :
      (input : IngestInput) (w : World V)
      → Ends
          (derive_chunks_and_embeddings out tools input w)
          (λ d t. IsDerived tools input d × (t ≡ w.tables))
          (λ t. t ≡ w.tables)
  unfolding derive_chunks_and_embeddings
  derive-Ends input w = elim (Bool-cases (length (tools.scrub input.body) == 0)) [
    | inl e ↦ rw (e, derive_chunks_and_embeddings) refl
    | inr e ↦
        let canonical = tools.nfc (tools.scrub input.body) in
        rw (e, derive_chunks_and_embeddings)
          (Ends-after (slices_of tools canonical w)
            (λ slices.
              embed out (inputs_of tools input.title input.tags canonical slices)
              >>= checked_vectors out tools canonical slices)
            (λ slices t.
              (chunk tools.encoder tools.nfc canonical default_opts ≡ sliced slices)
              × (t ≡ w.tables))
            (λ d t. IsDerived tools input d × (t ≡ w.tables)) (λ t. t ≡ w.tables)
            (slices_of-Ends canonical w)
            (λ slices v (c, same).
              Ends-weaken
                (after (embed out (inputs_of tools input.title input.tags canonical slices) v)
                  (checked_vectors out tools canonical slices))
                (λ d t. IsDerived tools input d × (t ≡ v.tables))
                (λ d t. IsDerived tools input d × (t ≡ w.tables)) (λ t. t ≡ v.tables)
                (λ t. t ≡ w.tables) (embedded-Ends input slices v c) (λ d t p. (p.0, p.1 ∙ same))
                (λ t p. p ∙ same)))
  ]

  -- The tables of an update: an entry with the id, and the rows of the input derived from it.
  abbrev pub UpdatedFrom :
      Tables V → SourceKind → Text → IngestInput → AuditExtra → Tables V → Type 0
  UpdatedFrom t0 source id input extra t =
      (d : Derived V) × (e : EntryRow) × IsDerived tools input d
      × (entry_by_id t0.entries id ≡ some e)
      × (t
          ≡ put_update tools (audit_shape_for tools.prompt_hash source true) id input extra d
              (max_version t0.versions id + 1) t0)

  update_found-Ends :
      (shape : AuditShape) (id : Text) (input : IngestInput) (extra : AuditExtra) (d : Derived V)
      (o : Option EntryRow) (v : World V)
      → Ends
          (update_found out tools shape id input extra d o v)
          (λ _ t.
            (e : EntryRow) × (o ≡ some e)
            × (t
                ≡ put_update tools shape id input extra d
                    (max_version v.tables.versions id + 1)
                    v.tables))
          Any
  unfolding update_found
  update_found-Ends shape id input extra d none v = tt
  update_found-Ends shape id input extra d (some e) v =
      Ends-after (select out (λ t. max_version t.versions id) v)
        (λ n. update_all out tools shape id input extra d (n + 1))
        (λ n t. (n ≡ max_version v.tables.versions id) × (t ≡ v.tables)) _ Any
        (Ends-select out (λ t. max_version t.versions id) v _ Any (refl, refl) tt)
        (λ n u (p, q).
          Ends-weaken (update_all out tools shape id input extra d (n + 1) u)
            (λ _ t. t ≡ put_update tools shape id input extra d (n + 1) u.tables) _ Any Any
            ((update_all-Does out tools shape id input extra d (n + 1)).ends u)
            (λ a t r. (e, refl, r ∙ (λ i. put_update tools shape id input extra d (p i + 1) (q i))))
            (λ t _. tt))

  locked-Ends :
      (source : SourceKind) (id : Text) (input : IngestInput) (extra : AuditExtra) (d : Derived V)
      (v : World V)
      → IsDerived tools input d
      → Ends
          (after (select out (λ t. entry_by_id t.entries id) v) (
            update_found out tools
              (audit_shape_for tools.prompt_hash source true)
              id
              input
              extra
              d))
          (λ _ t. UpdatedFrom v.tables source id input extra t)
          Any
  locked-Ends source id input extra d v h =
      let shape = audit_shape_for tools.prompt_hash source true in
      Ends-after (select out (λ t. entry_by_id t.entries id) v)
        (update_found out tools shape id input extra d)
        (λ o t. (o ≡ entry_by_id v.tables.entries id) × (t ≡ v.tables)) _ Any
        (Ends-select out (λ t. entry_by_id t.entries id) v _ Any (refl, refl) tt)
        (λ o u (p, q).
          Ends-weaken (update_found out tools shape id input extra d o u) _ _ Any Any
            (update_found-Ends shape id input extra d o u)
            (λ a t (e, r, s). (
              d,
              e,
              h,
              sym p ∙ r,
              s ∙ (λ i.
                  put_update tools shape id input extra d (max_version ((q i).versions) id + 1)
                    (q i)),
            ))
            (λ t _. tt))

  moved : (w v : World V) (t : Tables V) → v.tables ≡ w.tables → Start out v t → Start out w t
  moved w v t same (inl e) = inl (e ∙ same)
  moved w v t same (inr (n, e)) = inr (n, e ∙ ap (out.others n) same)

  derived-Ends :
      {A : Type 0} (input : IngestInput) (k : Derived V → Action V A) (nested : Bool) (w : World V)
      (P : Tables V → Tables V → Type 0)
      → ((d : Derived V) (v : World V)
          → IsDerived tools input d
          → Ends (k d v) (λ _ t. P v.tables t) Any)
      → Ends
          (after
            (derive_chunks_and_embeddings out tools input w)
            (λ d. transaction out nested (k d)))
          (λ _ t. (t0 : Tables V) × Start out w t0 × P t0 t)
          (Start out w)
  derived-Ends input k nested w P h =
      Ends-after (derive_chunks_and_embeddings out tools input w)
        (λ d. transaction out nested (k d)) (λ d t. IsDerived tools input d × (t ≡ w.tables)) _
        (Start out w)
        (Ends-weaken (derive_chunks_and_embeddings out tools input w) _
          (λ d t. IsDerived tools input d × (t ≡ w.tables)) (λ t. t ≡ w.tables) (Start out w)
          (derive-Ends input w) (λ d t p. p) (λ t e. inl e))
        (λ d v (p, q).
          Ends-weaken (transaction out nested (k d) v)
            (λ a t. (t0 : Tables V) × Start out v t0 × P t0 t) _ (Start out v) (Start out w)
            (Ends-transaction out nested (k d) v (λ t0 _ t. P t0 t) (λ u s. h d u p))
            (λ a t (t0, s, r). (t0, moved w v t0 q s, r)) (λ t s. moved w v t q s))

  -- An update that returns has done all its writes, on the tables that its transaction began with:
  -- a version with the next number, the chunks of the new body in place of the old ones, the entry's
  -- new row and an audit row. One that throws has done none of them, whichever step fails.
  pub update_entry-Ends :
      (nested : Bool) (id : Text) (input : IngestInput) (source : SourceKind) (extra : AuditExtra)
      (w : World V)
      → Ends
          (update_entry out tools nested id input source extra w)
          (λ _ t. (t0 : Tables V) × Start out w t0 × UpdatedFrom t0 source id input extra t)
          (Start out w)
  unfolding update_entry
  update_entry-Ends nested id input source extra w =
      derived-Ends input
        (λ d.
          select out (λ t. entry_by_id t.entries id)
          >>= update_found out tools (audit_shape_for tools.prompt_hash source true) id input extra
              d)
        nested w (λ t0 t. UpdatedFrom t0 source id input extra t)
        (λ d v h. locked-Ends source id input extra d v h)

  -- The tables of a create: the new entry's row, its first version, its chunks and an audit row.
  abbrev pub CreatedFrom : Tables V → SourceKind → IngestInput → Tables V → Type 0
  CreatedFrom t0 source input t =
      (d : Derived V) × (id : Text) × IsDerived tools input d
      × (t ≡ put_new tools (audit_shape_for tools.prompt_hash source false) input d id t0)

  inserted_as-Ends :
      (source : SourceKind) (input : IngestInput) (id : Text) (d : Derived V) (v : World V)
      → IsDerived tools input d
      → Ends
          (insert_all out tools (audit_shape_for tools.prompt_hash source false) input d id v)
          (λ _ t. CreatedFrom v.tables source input t)
          Any
  inserted_as-Ends source input id d v h =
      let shape = audit_shape_for tools.prompt_hash source false in
      Ends-weaken (insert_all out tools shape input d id v) _ _ Any Any
        ((insert_all-Does out tools shape input d id).ends v) (λ a t e. (d, id, h, e)) (λ t _. tt)

  inserted-Ends :
      (source : SourceKind) (input : IngestInput) (id : Option Text) (d : Derived V) (v : World V)
      → IsDerived tools input d
      → Ends
          ((entry_id_or_new tools id
              >>= insert_all out tools (audit_shape_for tools.prompt_hash source false) input d)
            v)
          (λ _ t. CreatedFrom v.tables source input t)
          Any
  unfolding entry_id_or_new
  inserted-Ends source input none d v h = inserted_as-Ends source input (tools.new_id v.clock) d v h
  inserted-Ends source input (some []) d v h =
      inserted_as-Ends source input (tools.new_id v.clock) d v h
  inserted-Ends source input (some (c ∷ id)) d v h = inserted_as-Ends source input (c ∷ id) d v h

  -- A create that returns has written the entry, its version, its chunks and its audit row; one that
  -- throws has written nothing, whichever step fails.
  pub create_entry-Ends :
      (nested : Bool) (input : IngestInput) (source : SourceKind) (id : Option Text) (w : World V)
      → Ends
          (create_entry out tools nested input source id w)
          (λ _ t. (t0 : Tables V) × Start out w t0 × CreatedFrom t0 source input t)
          (Start out w)
  unfolding create_entry
  create_entry-Ends nested input source id w =
      derived-Ends input
        (λ d.
          entry_id_or_new tools id
          >>= insert_all out tools (audit_shape_for tools.prompt_hash source false) input d)
        nested w (λ t0 t. CreatedFrom t0 source input t)
        (λ d v h. inserted-Ends source input id d v h)
