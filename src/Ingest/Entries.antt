-- ===== src/Ingest/Entries.antt =====
-- lib/ingest.ts: `createEntry` and `updateEntry`. The scrubbing, the normalisation and the encoder are
-- parameters; the lines that are logged are left out.
use priority_kb.Base.{
  Text, lit, ℕ, Bool, not, List, [], ◌∷◌, ◌++◌, Option, none, some, length, keep, text_eq,
  if◌then◌else◌,
}
use priority_kb.Auth.{Sensitivity}
use priority_kb.SynthInput.{decimal}
use priority_kb.Chunk.Offsets.{Encoder}
use priority_kb.Chunk.Slices.{ChunkSlice, chunking_policy_version}
use priority_kb.Store.Rows.{
  EntryRow, VersionRow, ChunkRow, AuditKind, ingest, ingest_update, agent_ingest,
  agent_ingest_update, SourceKind, direct, agent, AuditExtra, Payload, of_ingest, Tables, set_entry,
  next_audit_id,
}
use priority_kb.Store.Sessions.{Exception, Embedded}
use priority_kb.Ingest.Caption.{derive_caption}

-- The pure parts that the writer is given: `scrubPii`, `normalize("NFC")`, the encoder, `\p{M}`, the
-- hash of the ingestion prompt, the id that the database gives to a new entry, and the error that the
-- encoder throws.
pub record Tools (K : Type 0) : Type 0 where
  pub scrub : Text → Text
  pub nfc : Text → Text
  pub encoder : Encoder K
  pub is_mark : ℕ → Bool
  pub prompt_hash : Text
  pub new_id : ℕ → Text
  pub encoder_error : Exception

pub record IngestInput : Type 0 where
  pub title : Text
  pub category : Text
  pub tags : List Text
  pub body : Text
  pub source_pointer : Text
  pub last_verified_at : Text
  pub sensitivity : Sensitivity

pub record IngestResult : Type 0 where
  pub id : Text
  pub version_no : ℕ
  pub chunk_count : ℕ

pub record AuditShape : Type 0 where
  pub kind : AuditKind
  pub prompt_hash : Option Text
  pub source_kind : SourceKind

-- `update` tells the base "ingest_update" from "ingest".
unfoldable pub audit_shape_for : Text → SourceKind → (update : Bool) → AuditShape
audit_shape_for hash agent update = record {
  kind = if update then agent_ingest_update else agent_ingest;
  prompt_hash = some hash;
  source_kind = agent;
}
audit_shape_for hash direct update = record {
  kind = if update then ingest_update else ingest;
  prompt_hash = none;
  source_kind = direct;
}

unfoldable pub empty_body_error : Exception
unfolding lit
empty_body_error = record {
  name = lit "EmptyBodyAfterScrubError";
  message = lit "body is empty after PII scrub — refusing to create entry";
}

unfoldable pub entry_not_found_error : Text → Exception
unfolding lit
entry_not_found_error id = record {
  name = lit "EntryNotFoundError";
  message = lit "entry not found: " ++ id;
}

unfoldable pub vector_count_error : ℕ → ℕ → Exception
unfolding lit decimal
vector_count_error got wanted = record {
  name = lit "Error";
  message =
      lit "embedder returned "
      ++ (decimal got ++ (lit " vectors for " ++ (decimal wanted ++ lit " slices")));
}

pub record Derived (V : Type 0) : Type 0 where
  pub canonical_body : Text
  pub slices : List ChunkSlice
  pub embedded : Embedded V

-- `slices.map((s, i) => ({ ..., embedding: vectors[i] }))`, with as many vectors as slices.
unfoldable pub chunk_rows :
    {V : Type 0}
    → Text
    → Sensitivity
    → (model version : Text) → List ChunkSlice
    → List V
    → List (ChunkRow V)
chunk_rows id sens model version [] vs = []
chunk_rows id sens model version (s ∷ ss) [] = []
chunk_rows id sens model version (s ∷ ss) (v ∷ vs) =
    record {
      entry_id = id;
      sensitivity = sens;
      chunk_index = s.chunk_index;
      chunk_total = s.chunk_total;
      content_start = s.content_start;
      content_end = s.content_end;
      token_count = s.token_count;
      policy_version = s.policy_version;
      embedding = v;
      embedding_model = model;
      embedding_version = version;
    }
    ∷ chunk_rows id sens model version ss vs

unfoldable pub version_row : Text → ℕ → IngestInput → (body : Text) → VersionRow
version_row id n input body = record {
  entry_id = id;
  version_no = n;
  title = input.title;
  category = input.category;
  tags = input.tags;
  body = body;
  sensitivity = input.sensitivity;
}

unfoldable pub no_extra : AuditExtra
no_extra = record { worker_id = none; job_id = none; triggered_by_audit_id = none }

unfoldable pub entry_row : {K : Type 0} → Tools K → Text → IngestInput → (body : Text) → EntryRow
unfolding derive_caption
entry_row tools id input body = record {
  id = id;
  title = input.title;
  category = input.category;
  tags = input.tags;
  body = body;
  caption = derive_caption tools.is_mark body;
  source_pointer = input.source_pointer;
  last_verified_at = input.last_verified_at;
  sensitivity = input.sensitivity;
}

unfoldable pub rows_of : {V : Type 0} → Text → IngestInput → Derived V → List (ChunkRow V)
unfolding chunk_rows
rows_of id input d =
    chunk_rows id input.sensitivity d.embedded.model d.embedded.version d.slices d.embedded.vectors

unfoldable pub audit_payload :
    {V : Type 0} → AuditShape → Option ℕ → AuditExtra → Derived V → Payload
audit_payload shape n extra d = of_ingest (record {
  source = shape.source_kind;
  version_no = n;
  chunk_count = length d.slices;
  embedding_model = d.embedded.model;
  embedding_version = d.embedded.version;
  policy_version = chunking_policy_version;
  extra = extra;
})

-- The inserts, and the update and the delete of an entry's rows.
module _ {V : Type 0} where
  unfoldable pub add_entry : EntryRow → Tables V → Tables V
  add_entry e t = record {
    entries = e ∷ t.entries;
    versions = t.versions;
    chunks = t.chunks;
    audit = t.audit;
  }

  unfoldable pub replace_entry : EntryRow → Tables V → Tables V
  unfolding set_entry
  replace_entry e t = record {
    entries = set_entry t.entries e.id (λ _. e);
    versions = t.versions;
    chunks = t.chunks;
    audit = t.audit;
  }

  unfoldable pub add_version : VersionRow → Tables V → Tables V
  add_version v t = record {
    entries = t.entries;
    versions = v ∷ t.versions;
    chunks = t.chunks;
    audit = t.audit;
  }

  unfoldable pub add_chunks : List (ChunkRow V) → Tables V → Tables V
  add_chunks rows t = record {
    entries = t.entries;
    versions = t.versions;
    chunks = rows ++ t.chunks;
    audit = t.audit;
  }

  unfoldable pub delete_chunks : Text → Tables V → Tables V
  delete_chunks id t = record {
    entries = t.entries;
    versions = t.versions;
    chunks = keep (λ (r : ChunkRow V). not (text_eq r.entry_id id)) t.chunks;
    audit = t.audit;
  }

  unfoldable pub add_audit :
      AuditKind → Option Text → (hash : Option Text) → Payload → Tables V → Tables V
  unfolding next_audit_id
  add_audit kind id hash payload t = record {
    entries = t.entries;
    versions = t.versions;
    chunks = t.chunks;
    audit =
        record {
          id = next_audit_id t.audit;
          kind = kind;
          entry_id = id;
          prompt_hash = hash;
          payload = payload;
        }
        ∷ t.audit;
  }
