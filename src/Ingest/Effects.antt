-- ===== src/Ingest/Effects.antt =====
-- lib/ingest.ts: what the statements of a create and of an update do to the tables, one after the other.
use priority_kb.Base.{
  Text, ℕ, List, [], ◌∷◌, arith, none, some, length, ◌==◌, ==_iff, ◌≡◌, refl, sym, Bool-cases, inl,
  inr,
}
use priority_kb.Auth.{Sensitivity}
use priority_kb.Chunk.Slices.{ChunkSlice, sliced, chunk}
use priority_kb.Store.Rows.{AuditExtra, Tables}
use priority_kb.Store.Sessions.{Outside}
use priority_kb.Store.Outcomes.{Does, Does-pure, Does-write, Does-then}
use priority_kb.Ingest.Entries.{
  Tools, IngestInput, AuditShape, Derived, version_row, no_extra, entry_row, chunk_rows, rows_of,
  audit_payload, add_entry, replace_entry, add_version, add_chunks, delete_chunks, add_audit,
}
use priority_kb.Ingest.Writes.{default_opts, insert_chunks, insert_all, update_all}

chunk_rows-nil :
    {V : Type 0} (id : Text) (sens : Sensitivity) (model version : Text) (ss : List ChunkSlice)
    (vs : List V)
    → length ss ≡ 0
    → chunk_rows id sens model version ss vs ≡ []
unfolding chunk_rows
chunk_rows-nil id sens model version [] vs h = refl
chunk_rows-nil id sens model version (s ∷ ss) vs h = absurd (omega arith)

module _ {V K : Type 0} (tools : Tools K) where
  -- What a body gives: the canonical text, its slices, a vector for each.
  pub record IsDerived (input : IngestInput) (d : Derived V) : Type 0 where
    pub canonical : d.canonical_body ≡ tools.nfc (tools.scrub input.body)
    pub cut : chunk tools.encoder tools.nfc d.canonical_body default_opts ≡ sliced d.slices
    pub vectors : length d.embedded.vectors ≡ length d.slices

  -- The tables after a create, and after an update.
  unfoldable pub put_new : AuditShape → IngestInput → Derived V → Text → Tables V → Tables V
  unfolding add_audit add_chunks add_version add_entry rows_of
  put_new shape input d id t =
      add_audit shape.kind (some id) shape.prompt_hash (audit_payload shape none no_extra d) (
        add_chunks (rows_of id input d) (
          add_version (version_row id 1 input d.canonical_body)
            (add_entry (entry_row tools id input d.canonical_body) t)))

  unfoldable pub put_update :
      AuditShape → Text → IngestInput → AuditExtra → Derived V → ℕ → Tables V → Tables V
  unfolding add_audit add_chunks replace_entry delete_chunks add_version rows_of
  put_update shape id input extra d n t =
      add_audit shape.kind (some id) shape.prompt_hash (audit_payload shape (some n) extra d) (
        add_chunks (rows_of id input d) (
          replace_entry (entry_row tools id input d.canonical_body)
            (delete_chunks id (add_version (version_row id n input d.canonical_body) t))))

no_rows :
    {V : Type 0} (id : Text) (input : IngestInput) (d : Derived V)
    → length d.slices ≡ 0
    → rows_of id input d ≡ []
unfolding rows_of
no_rows id input d h = chunk_rows-nil id input.sensitivity _ _ d.slices d.embedded.vectors h

add_chunks-nil : {V : Type 0} (t : Tables V) → add_chunks [] t ≡ t
unfolding add_chunks
add_chunks-nil t = refl

insert_chunks-Does :
    {V : Type 0} (out : Outside V) (id : Text) (input : IngestInput) (d : Derived V)
    → Does (insert_chunks out id input d) (add_chunks (rows_of id input d))
unfolding insert_chunks
insert_chunks-Does out id input d = elim (Bool-cases (length d.slices == 0)) [
  | inl e ↦
      let none_left : rows_of id input d ≡ [] = no_rows id input d ((==_iff _ _).0 e) in
      rw (e, none_left, insert_chunks) (record { ends = λ w. sym (add_chunks-nil w.tables) })
  | inr e ↦ rw (e, insert_chunks) (Does-write out (add_chunks (rows_of id input d)))
]

module _ {V K : Type 0} (out : Outside V) (tools : Tools K) where
  pub update_all-Does :
      (shape : AuditShape) (id : Text) (input : IngestInput) (extra : AuditExtra) (d : Derived V)
      (n : ℕ)
      → Does
          (update_all out tools shape id input extra d n)
          (put_update tools shape id input extra d n)
  unfolding update_all put_update
  update_all-Does shape id input extra d n =
      Does-then
        (Does-then
          (Does-then
            (Does-then
              (Does-then (Does-write out (add_version (version_row id n input d.canonical_body)))
                (Does-write out (delete_chunks id)))
              (Does-write out (replace_entry (entry_row tools id input d.canonical_body))))
            (insert_chunks-Does out id input d))
          (Does-write out (
            add_audit shape.kind (some id) shape.prompt_hash
              (audit_payload shape (some n) extra d))))
        (Does-pure _)

  pub insert_all-Does :
      (shape : AuditShape) (input : IngestInput) (d : Derived V) (id : Text)
      → Does (insert_all out tools shape input d id) (put_new tools shape input d id)
  unfolding insert_all put_new
  insert_all-Does shape input d id =
      Does-then
        (Does-then
          (Does-then
            (Does-then (Does-write out (add_entry (entry_row tools id input d.canonical_body)))
              (Does-write out (add_version (version_row id 1 input d.canonical_body))))
            (insert_chunks-Does out id input d))
          (Does-write out (
            add_audit shape.kind (some id) shape.prompt_hash
              (audit_payload shape none no_extra d))))
        (Does-pure _)
