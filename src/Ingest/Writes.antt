-- ===== src/Ingest/Writes.antt =====
-- lib/ingest.ts: `deriveChunksAndEmbeddings`, `createEntry`, `updateEntry` and the agent's wrappers, as
-- sequences of statements.
use priority_kb.Base.{
  Text, lit, ℕ, ◌+◌, [], ◌∷◌, Bool, true, false, List, Option, none, some, length, map, ◌==◌,
  if◌then◌else◌,
}
use priority_kb.Chunk.Slices.{ChunkSlice, Opts, Chunked, sliced, encode_error, unfinished, chunk}
use priority_kb.Chunk.Embed.{build_embed_input}
use priority_kb.Store.Rows.{EntryRow, SourceKind, agent, AuditExtra, entry_by_id, max_version}
use priority_kb.Store.Sessions.{
  Exception, Embedded, Outside, Action, ok, err, pure, raise, ◌>>=◌, ◌>>◌, write, select, embed,
  transaction,
}
use priority_kb.Ingest.Entries.{
  Tools, IngestInput, IngestResult, AuditShape, audit_shape_for, empty_body_error,
  entry_not_found_error, vector_count_error, Derived, version_row, no_extra, entry_row, rows_of,
  audit_payload, add_entry, replace_entry, add_version, add_chunks, delete_chunks, add_audit,
}

abbrev pub default_opts : Opts
default_opts = record { size = none; overlap = none; min_trailing = none }

unfoldable pub unfinished_error : Exception
unfolding lit
unfinished_error = record { name = lit "Unfinished"; message = lit "the loop of chunk goes on" }

module _ {K : Type 0} (tools : Tools K) where
  -- `chunk(canonicalBody)` as a step: `unfinished_error` stands for a loop that does not end.
  unfoldable pub cut_result : {V : Type 0} → Chunked → Action V (List ChunkSlice)
  unfolding unfinished_error
  cut_result (sliced slices) w = (ok slices, w)
  cut_result encode_error w = (err tools.encoder_error, w)
  cut_result unfinished w = (err unfinished_error, w)

  unfoldable pub slices_of : {V : Type 0} → Text → Action V (List ChunkSlice)
  unfolding cut_result chunk
  slices_of canonical = cut_result (chunk tools.encoder tools.nfc canonical default_opts)

  unfoldable pub inputs_of :
      (title : Text) → (tags : List Text) → (canonical : Text) → List ChunkSlice → List Text
  unfolding build_embed_input
  inputs_of title tags canonical slices =
      map (λ s. build_embed_input title tags canonical s.content_start s.content_end) slices

-- `if (derived.slices.length > 0)`
unfoldable pub insert_chunks :
    {V : Type 0} → Outside V → Text → IngestInput → Derived V → Action V ℕ
unfolding rows_of add_chunks write
insert_chunks out id input d =
    if length d.slices == 0 then pure 0 else write out (add_chunks (rows_of id input d))

-- `...(id ? { id } : {})`: an empty id counts as none.
unfoldable pub entry_id_or_new : {V K : Type 0} → Tools K → Option Text → Action V Text
entry_id_or_new tools none w = (ok (tools.new_id w.clock), w)
entry_id_or_new tools (some []) w = (ok (tools.new_id w.clock), w)
entry_id_or_new tools (some (c ∷ id)) w = (ok (c ∷ id), w)

module _ {V K : Type 0} (out : Outside V) (tools : Tools K) where
  unfoldable pub checked_vectors : Text → List ChunkSlice → Embedded V → Action V (Derived V)
  unfolding vector_count_error
  checked_vectors canonical slices e =
      if length e.vectors == length slices
      then pure (record { canonical_body = canonical; slices = slices; embedded = e })
      else raise (vector_count_error (length e.vectors) (length slices))

  unfoldable pub derive_chunks_and_embeddings : IngestInput → Action V (Derived V)
  unfolding slices_of inputs_of checked_vectors empty_body_error embed
  derive_chunks_and_embeddings input =
      let canonical = tools.nfc (tools.scrub input.body) in
      if length (tools.scrub input.body) == 0
      then raise empty_body_error
      else slices_of tools canonical >>= λ slices.
          embed out (inputs_of tools input.title input.tags canonical slices)
          >>= checked_vectors canonical slices

  unfoldable pub insert_all : AuditShape → IngestInput → Derived V → Text → Action V IngestResult
  unfolding write add_entry add_version insert_chunks add_audit entry_row version_row audit_payload
  insert_all shape input d id =
      write out (add_entry (entry_row tools id input d.canonical_body))
      >> write out (add_version (version_row id 1 input d.canonical_body))
      >> insert_chunks out id input d
      >> write out
          (add_audit shape.kind (some id) shape.prompt_hash (audit_payload shape none no_extra d))
      >> pure (record { id = id; version_no = 1; chunk_count = length d.slices })

  -- `nested` tells whether `db` is already a transaction.
  unfoldable pub create_entry :
      (nested : Bool) → IngestInput → SourceKind → Option Text → Action V IngestResult
  unfolding derive_chunks_and_embeddings transaction insert_all audit_shape_for entry_id_or_new
  create_entry nested input source id = derive_chunks_and_embeddings input >>= λ d.
      transaction out nested (
        entry_id_or_new tools id
        >>= insert_all (audit_shape_for tools.prompt_hash source false) input d)

  -- Steps 2 to 7, once the row is locked.
  unfoldable pub update_all :
      AuditShape → Text → IngestInput → AuditExtra → Derived V → ℕ → Action V IngestResult
  unfolding write add_version delete_chunks replace_entry insert_chunks add_audit entry_row
      version_row audit_payload
  update_all shape id input extra d n =
      write out (add_version (version_row id n input d.canonical_body))
      >> write out (delete_chunks id)
      >> write out (replace_entry (entry_row tools id input d.canonical_body))
      >> insert_chunks out id input d
      >> write out
          (add_audit shape.kind (some id) shape.prompt_hash (audit_payload shape (some n) extra d))
      >> pure (record { id = id; version_no = n; chunk_count = length d.slices })

  unfoldable pub update_found :
      AuditShape
      → Text
      → IngestInput
      → AuditExtra
      → Derived V
      → Option EntryRow
      → Action V IngestResult
  unfolding select max_version update_all entry_not_found_error
  update_found shape id input extra d none = raise (entry_not_found_error id)
  update_found shape id input extra d (some e) =
      select out (λ t. max_version t.versions id) >>= λ n. update_all shape id input extra d (n + 1)

  unfoldable pub update_entry :
      (nested : Bool) → Text → IngestInput → SourceKind → AuditExtra → Action V IngestResult
  unfolding derive_chunks_and_embeddings transaction select entry_by_id update_found audit_shape_for
  update_entry nested id input source extra = derive_chunks_and_embeddings input >>= λ d.
      transaction out nested (
        select out (λ t. entry_by_id t.entries id)
        >>= update_found (audit_shape_for tools.prompt_hash source true) id input extra d)

  unfoldable pub submit_entry_from_agent : IngestInput → Option Text → Action V IngestResult
  unfolding create_entry
  submit_entry_from_agent input id = create_entry false input agent id

  unfoldable pub update_entry_from_agent : Text → IngestInput → AuditExtra → Action V IngestResult
  unfolding update_entry
  update_entry_from_agent id input extra = update_entry false id input agent extra
