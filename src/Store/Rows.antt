-- ===== src/Store/Rows.antt =====
-- drizzle/schema.ts: `entries`, `entries_versions`, `chunks` and `audit_log`, and the reads and writes
-- of them that lib/ingest.ts and lib/tags.ts make. Columns that the database fills in are left out.
use priority_kb.Base.{
  Text, text_eq, ℕ, suc, max, Bool, true, false, ◌&&◌, ◌||◌, List, [], ◌∷◌, Option, none, some, ltb,
  ◌==◌, if◌then◌else◌,
}
use priority_kb.Auth.{Sensitivity}

pub record EntryRow : Type 0 where
  pub id : Text
  pub title : Text
  pub category : Text
  pub tags : List Text
  pub body : Text
  pub caption : Option Text
  pub source_pointer : Text
  pub last_verified_at : Text
  pub sensitivity : Sensitivity

pub record VersionRow : Type 0 where
  pub entry_id : Text
  pub version_no : ℕ
  pub title : Text
  pub category : Text
  pub tags : List Text
  pub body : Text
  pub sensitivity : Sensitivity

pub record ChunkRow (V : Type 0) : Type 0 where
  pub entry_id : Text
  pub sensitivity : Sensitivity
  pub chunk_index : ℕ
  pub chunk_total : ℕ
  pub content_start : ℕ
  pub content_end : ℕ
  pub token_count : ℕ
  pub policy_version : Text
  pub embedding : V
  pub embedding_model : Text
  pub embedding_version : Text

pub data AuditKind : Type 0 where
  ingest ingest_update agent_ingest agent_ingest_update : AuditKind
  tag_rename tag_delete tag_merge : AuditKind

pub data SourceKind : Type 0 where
  direct agent : SourceKind

-- `audit_extra`
pub record AuditExtra : Type 0 where
  pub worker_id : Option Text
  pub job_id : Option Text
  pub triggered_by_audit_id : Option ℕ

pub record IngestPayload : Type 0 where
  pub source : SourceKind
  pub version_no : Option ℕ
  pub chunk_count : ℕ
  pub embedding_model : Text
  pub embedding_version : Text
  pub policy_version : Text
  pub extra : AuditExtra

-- The payload of a tag operation; `from` is one tag but for a merge, and `to` is absent for a delete.
pub record TagPayload : Type 0 where
  pub from : List Text
  pub to : Option Text
  pub affected_entry_ids : List Text
  pub affected_entry_count : ℕ
  pub truncated_count : Option ℕ
  pub partial_failure : Bool
  pub partial_failure_reason : Option Text

pub data Payload : Type 0 where
  of_ingest : IngestPayload → Payload
  of_tags : TagPayload → Payload

pub record AuditRow : Type 0 where
  pub id : ℕ
  pub kind : AuditKind
  pub entry_id : Option Text
  pub prompt_hash : Option Text
  pub payload : Payload

pub record Tables (V : Type 0) : Type 0 where
  pub entries : List EntryRow
  pub versions : List VersionRow
  pub chunks : List (ChunkRow V)
  pub audit : List AuditRow

-- `WHERE id = $1`
unfoldable pub entry_by_id : List EntryRow → Text → Option EntryRow
entry_by_id [] id = none
entry_by_id (e ∷ es) id = if text_eq e.id id then some e else entry_by_id es id

unfoldable pub set_entry : List EntryRow → Text → (EntryRow → EntryRow) → List EntryRow
set_entry [] id f = []
set_entry (e ∷ es) id f = (if text_eq e.id id then f e else e) ∷ set_entry es id f

-- `MAX(version_no)`, 0 for an entry with no version.
unfoldable pub max_version : List VersionRow → Text → ℕ
max_version [] id = 0
max_version (v ∷ vs) id =
    max (if text_eq v.entry_id id then v.version_no else 0) (max_version vs id)

unfoldable pub set_payload : List AuditRow → ℕ → Payload → List AuditRow
set_payload [] id p = []
set_payload (r ∷ rs) id p =
    (if r.id == id
      then record {
        id = r.id;
        kind = r.kind;
        entry_id = r.entry_id;
        prompt_hash = r.prompt_hash;
        payload = p;
      }
      else r)
    ∷ set_payload rs id p

-- An id that no row of the log has: the database makes one.
unfoldable pub next_audit_id : List AuditRow → ℕ
next_audit_id [] = 0
next_audit_id (r ∷ rs) = max (suc r.id) (next_audit_id rs)

-- The order of ids, and `ORDER BY id`.
unfoldable pub text_lt : Text → Text → Bool
text_lt [] [] = false
text_lt [] (d ∷ t) = true
text_lt (c ∷ s) [] = false
text_lt (c ∷ s) (d ∷ t) = ltb c d || ((c == d) && text_lt s t)

unfoldable pub insert_id : Text → List Text → List Text
insert_id x [] = x ∷ []
insert_id x (y ∷ ys) =
    let later = y ∷ insert_id x ys in let here = x ∷ y ∷ ys in if text_lt y x then later else here

-- The ids of the entries whose tags pass a test, in order.
unfoldable pub ids_where : (List Text → Bool) → List EntryRow → List Text
unfolding insert_id
ids_where p [] = []
ids_where p (e ∷ es) = if p e.tags then insert_id e.id (ids_where p es) else ids_where p es
