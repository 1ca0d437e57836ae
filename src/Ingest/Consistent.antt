-- ===== src/Ingest/Consistent.antt =====
-- lib/ingest.ts: what every create and update keeps true of the tables.
use priority_kb.Base.{
  Text, text_eq, text_eq_comm, ℕ, suc, ◌+◌, ◌≤◌, ◌<◌, Bool, true, false, not, List, [], ◌∷◌, Option,
  none, some, length, keep, All, All-append, ◌≡◌, ◌≢◌, refl, sym, ap, ◌∙◌, subst, Bool-cases, inl,
  inr, arith,
}
use priority_kb.Chunk.Slices.{ChunkSlice, Piece, sealed, numbered, sliced, chunk}
use priority_kb.Chunk.Decoding.{Documented, Readable}
use priority_kb.Chunk.Cover.{Covers, Tiles, chunk-Covers}
use priority_kb.Store.Rows.{
  EntryRow, VersionRow, ChunkRow, AuditKind, ingest, ingest_update, agent_ingest,
  agent_ingest_update, tag_rename, tag_delete, tag_merge, SourceKind, direct, agent, AuditExtra,
  AuditRow, Tables, entry_by_id, set_entry, max_version,
}
use priority_kb.Store.Lookups.{set_entry-same, set_entry-other}
use priority_kb.Store.Sessions.{Outside, World}
use priority_kb.Store.Outcomes.{Ends, Ends-weaken, Start}
use priority_kb.Ingest.Entries.{
  Tools, IngestInput, audit_shape_for, Derived, version_row, entry_row, chunk_rows, rows_of,
  replace_entry, add_version, add_chunks, delete_chunks, add_audit,
}
use priority_kb.Ingest.Writes.{default_opts, update_entry}
use priority_kb.Ingest.Effects.{IsDerived, put_update}
use priority_kb.Ingest.Atomic.{update_entry-Ends}

-- A chunk of a listed entry, of its sensitivity, and inside its body.
abbrev pub Belongs : {V : Type 0} → List EntryRow → ChunkRow V → Type 0
Belongs entries r =
    (e : EntryRow) × (entry_by_id entries r.entry_id ≡ some e)
    × (r.sensitivity ≡ e.sensitivity)
    × (r.content_end ≤ length e.body)

-- Each version has a higher number than the older ones of its entry, the newest being the first.
abbrev pub Ascending : List VersionRow → Type 0
Ascending [] = Unit
Ascending (v ∷ vs) = (max_version vs v.entry_id < v.version_no) × Ascending vs

-- An agent's row has the hash of the prompt.
abbrev pub Hashed : AuditKind → Option Text → Type 0
Hashed agent_ingest h = h ≢ none
Hashed agent_ingest_update h = h ≢ none
Hashed ingest h = Unit
Hashed ingest_update h = Unit
Hashed tag_rename h = Unit
Hashed tag_delete h = Unit
Hashed tag_merge h = Unit

pub record Consistent {V : Type 0} (t : Tables V) : Type 0 where
  pub chunk_rows : All (Belongs t.entries) t.chunks
  pub versions : Ascending t.versions
  pub agent_rows : All (λ (r : AuditRow). Hashed r.kind r.prompt_hash) t.audit

-- What is asked of the packages: the encoder and the decoder are as documented, and normalising twice
-- is normalising once.
pub record Reliable {K : Type 0} (tools : Tools K) : Type 1 where
  pub documented : Documented tools.encoder
  pub nfc_twice : (t : Text) → tools.nfc (tools.nfc t) ≡ tools.nfc t

Covers-ends :
    (len start i total : ℕ) (ps : List Piece)
    → Covers len start ps
    → All (λ (s : ChunkSlice). s.content_end ≤ len) (numbered i total ps)
unfolding numbered
Covers-ends len start i total [] c = tt
Covers-ends len start i total (p ∷ ps) (a, s, (next, b, c, d)) =
    (s.1, Covers-ends len next (suc i) total ps d)

chunk-ends :
    {K : Type 0} (tools : Tools K) (canonical : Text) (slices : List ChunkSlice)
    → Reliable tools
    → Readable canonical
    → tools.nfc canonical ≡ canonical
    → chunk tools.encoder tools.nfc canonical default_opts ≡ sliced slices
    → All (λ (s : ChunkSlice). s.content_end ≤ length canonical) slices
unfolding sealed
chunk-ends tools canonical slices r readable same e =
    let tiles : Tiles tools.encoder (tools.nfc canonical) (sliced slices) =
      subst (λ o. Tiles tools.encoder (tools.nfc canonical) o) e
        (chunk-Covers tools.encoder tools.nfc canonical default_opts r.documented
          (subst (λ t. Readable t) (sym same) readable)) in
    let (ps, cut, c) = tiles in
    subst (λ ss. All (λ (s : ChunkSlice). s.content_end ≤ length canonical) ss) (sym cut)
      (subst (λ t. All (λ (s : ChunkSlice). s.content_end ≤ length t) (sealed ps)) same
        (Covers-ends (length (tools.nfc canonical)) 0 0 (length ps) ps c))

chunk_rows-Belongs :
    {V : Type 0} (entries : List EntryRow) (e : EntryRow) (model version : Text)
    (ss : List ChunkSlice) (vs : List V)
    → entry_by_id entries e.id ≡ some e
    → All (λ (s : ChunkSlice). s.content_end ≤ length e.body) ss
    → All (Belongs entries) (chunk_rows e.id e.sensitivity model version ss vs)
unfolding chunk_rows
chunk_rows-Belongs entries e model version [] vs h k = tt
chunk_rows-Belongs entries e model version (s ∷ ss) [] h k = tt
chunk_rows-Belongs entries e model version (s ∷ ss) (v ∷ vs) h k =
    ((e, h, refl, k.0), chunk_rows-Belongs entries e model version ss vs h k.1)

keep-Belongs :
    {V : Type 0} (entries : List EntryRow) (row : EntryRow) (rs : List (ChunkRow V))
    → All (Belongs entries) rs
    → All
        (Belongs (set_entry entries row.id (λ _. row)))
        (keep (λ (r : ChunkRow V). not (text_eq r.entry_id row.id)) rs)
keep-Belongs entries row [] h = tt
keep-Belongs {V} entries row (r ∷ rs) h = elim (Bool-cases (text_eq r.entry_id row.id)) [
  | inl e ↦ rw e (keep-Belongs entries row rs h.1)
  | inr e ↦
      let (x, found, same, inside) = h.0 in
      let apart : text_eq row.id r.entry_id ≡ false = text_eq_comm row.id r.entry_id ∙ e in
      rw e (
        (x, set_entry-other entries row r.entry_id apart ∙ found, same, inside),
        keep-Belongs entries row rs h.1,
      )
]

update_hash :
    (hash : Text) (source : SourceKind)
    → Hashed (audit_shape_for hash source true).kind (audit_shape_for hash source true).prompt_hash
unfolding audit_shape_for
update_hash hash direct = tt
update_hash hash agent = λ e. cc

module _ {V K : Type 0} (tools : Tools K) (reliable : Reliable tools) where
  derived-ends :
      (input : IngestInput) (d : Derived V)
      → IsDerived tools input d
      → Readable (tools.nfc (tools.scrub input.body))
      → All (λ (s : ChunkSlice). s.content_end ≤ length d.canonical_body) d.slices
  derived-ends input d h readable =
      let twice : tools.nfc d.canonical_body ≡ d.canonical_body =
        ap tools.nfc h.canonical ∙ reliable.nfc_twice (tools.scrub input.body) ∙ sym h.canonical in
      chunk-ends tools d.canonical_body d.slices reliable
        (subst (λ t. Readable t) (sym h.canonical) readable) twice h.cut

  put_update-Consistent :
      (source : SourceKind) (id : Text) (input : IngestInput) (extra : AuditExtra) (d : Derived V)
      (e : EntryRow) (t : Tables V)
      → IsDerived tools input d
      → Readable (tools.nfc (tools.scrub input.body))
      → entry_by_id t.entries id ≡ some e
      → Consistent t
      → Consistent (
          put_update tools
            (audit_shape_for tools.prompt_hash source true)
            id
            input
            extra
            d
            (max_version t.versions id + 1)
            t)
  unfolding put_update add_audit add_chunks replace_entry delete_chunks add_version version_row
      entry_row rows_of
  put_update-Consistent source id input extra d e t h readable found c =
      let row = entry_row tools id input d.canonical_body in
      record {
        chunk_rows =
            All-append (Belongs (set_entry t.entries id (λ _. row))) (rows_of id input d) _
              (chunk_rows-Belongs (set_entry t.entries id (λ _. row)) row d.embedded.model
                d.embedded.version d.slices d.embedded.vectors
                (set_entry-same t.entries row e found) (derived-ends input d h readable))
              (keep-Belongs t.entries row t.chunks c.chunk_rows);
        versions = (omega arith, c.versions);
        agent_rows = (update_hash tools.prompt_hash source, c.agent_rows);
      }

-- An update keeps the tables consistent when it returns and when it throws, if other sessions do, the
-- encoder, the decoder and the normalisation are as documented, and the normalised body has no byte
-- order mark in front and is no longer than a string can be.
pub update_entry-Consistent :
    {V K : Type 0} (out : Outside V) (tools : Tools K) (nested : Bool) (id : Text)
    (input : IngestInput) (source : SourceKind) (extra : AuditExtra) (w : World V)
    → Reliable tools
    → Readable (tools.nfc (tools.scrub input.body))
    → ((n : ℕ) (t : Tables V) → Consistent t → Consistent (out.others n t))
    → Consistent w.tables
    → Ends
        (update_entry out tools nested id input source extra w)
        (λ _ t. Consistent t)
        (λ t. Consistent t)
update_entry-Consistent {V} out tools nested id input source extra w reliable readable others c =
    Ends-weaken (update_entry out tools nested id input source extra w) _ (λ _ t. Consistent t)
      (Start out w) (λ t. Consistent t) (update_entry-Ends out tools nested id input source extra w)
      (λ a t (t0, s, (d, e, h, found, made)).
        subst (λ x. Consistent x) (sym made)
          (put_update-Consistent tools reliable source id input extra d e t0 h readable found
            (started t0 s)))
      started
  where
    started : (t : Tables V) → Start out w t → Consistent t
    started t (inl e) = subst (λ x. Consistent x) (sym e) c
    started t (inr (n, e)) = subst (λ x. Consistent x) (sym e) (others n w.tables c)
