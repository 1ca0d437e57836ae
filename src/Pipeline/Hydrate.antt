-- ===== src/Pipeline/Hydrate.antt =====
-- Entry rows, the bodies of their best chunks, and the boundary entries of the reranker.
use priority_kb.Base.{
  Text, text_eq, includes, ℕ, ◌-◌, Bool, true, false, ◌&&◌, not, List, [], ◌∷◌, Option, none, some,
  if◌then◌else◌, take, drop,
}
use priority_kb.QueryChat.{QueryCandidate, QueryChunkSnippet}
use priority_kb.Rerank.{RerankBoundaryEntry}
use priority_kb.Snippet.{project_candidate_snippet}
use priority_kb.SynthInput.{SynthInputChunk}
use priority_kb.Pipeline.Types.{
  AnnCandidate, HydratedEntryRow, HydratedChunkSlice, Call, returned, failed,
}

-- `new Map(entryRows.map((r) => [r.id, r])).get(id)`: the last row with the id.
unfoldable pub row_by_id : List HydratedEntryRow → Text → Option HydratedEntryRow
row_by_id [] id = none
row_by_id (r ∷ rs) id = elim (row_by_id rs id) [
  | some later ↦ some later
  | none ↦ if text_eq r.id id then some r else none
]

abbrev pub add_row : Option HydratedEntryRow → List HydratedEntryRow → List HydratedEntryRow
add_row none rs = rs
add_row (some r) rs = r ∷ rs

unfoldable pub ordered_rows : List HydratedEntryRow → List Text → List HydratedEntryRow
ordered_rows rows [] = []
ordered_rows rows (id ∷ ids) = add_row (row_by_id rows id) (ordered_rows rows ids)

abbrev pub row_ids : List HydratedEntryRow → List Text
row_ids [] = []
row_ids (r ∷ rs) = r.id ∷ row_ids rs

unfoldable pub relevant_chunk_ids : List Text → List AnnCandidate → List Text
relevant_chunk_ids ids [] = []
relevant_chunk_ids ids (a ∷ as') =
    if includes ids a.entry_id
    then a.best_chunk_id ∷ relevant_chunk_ids ids as'
    else relevant_chunk_ids ids as'

unfoldable pub slice : Text → ℕ → ℕ → Text
slice body from to = take (to - from) (drop from body)

-- `annBestChunkBodyByEntry`, the newest key first: a later chunk of an entry overrides.
unfoldable pub chunk_bodies :
    List HydratedEntryRow → List HydratedChunkSlice → List (Text × Text) → List (Text × Text)
chunk_bodies rows [] m = m
chunk_bodies rows (ch ∷ chs) m = chunk_bodies rows chs (elim (row_by_id rows ch.entry_id) [
  | none ↦ m
  | some entry ↦ (ch.entry_id, slice entry.body ch.content_start ch.content_end) ∷ m
])

unfoldable pub body_for : List (Text × Text) → Text → Option Text
body_for [] id = none
body_for ((k, body) ∷ m) id = if text_eq k id then some body else body_for m id

abbrev pub boundary_with : HydratedEntryRow → Text → RerankBoundaryEntry
boundary_with r body = record {
  entry_id = r.id;
  title = r.title;
  body = body;
  category = r.category;
  tags = r.tags;
  source_pointer = some r.source_pointer;
  last_verified_at = r.last_verified_at;
  sensitivity = r.sensitivity;
}

-- The body of a row's boundary entry; `none` is the exception of the representative.
unfoldable pub boundary_body :
    (Text → Text → Option Text) → List (Text × Text) → HydratedEntryRow → Option Text
boundary_body representative bodies r = elim (body_for bodies r.id) [
  | some body ↦ some body
  | none ↦ representative r.title r.body
]

unfoldable pub boundaries_of :
    (Text → Text → Option Text)
    → List (Text × Text)
    → List HydratedEntryRow
    → Option (List RerankBoundaryEntry)
boundaries_of representative bodies [] = some []
boundaries_of representative bodies (r ∷ rs) = elim (boundary_body representative bodies r) [
  | none ↦ none
  | some body ↦ elim (boundaries_of representative bodies rs) [
    | none ↦ none
    | some bs ↦ some (boundary_with r body ∷ bs)
  ]
]

-- A candidate shows the fields of its row, and a preview of the boundary's body. Boundary and row
-- stand at the same place, so the boundary's own fields are the row's.
unfoldable pub candidate_of : (ℕ → Bool) → RerankBoundaryEntry → QueryCandidate
candidate_of is_mark b = record {
  entry_id = b.entry_id;
  title = b.title;
  category = b.category;
  sensitivity = b.sensitivity;
  last_verified_at = b.last_verified_at;
  body_snippet = project_candidate_snippet is_mark b.body b.title;
  tags = b.tags;
  source_pointer = elim b.source_pointer [ none ↦ [] | some s ↦ s ];
}

unfoldable pub snippet_of : {F : Type 0} → SynthInputChunk F → QueryChunkSnippet
snippet_of c = record {
  entry_id = c.entry_id;
  title = c.title;
  category = c.category;
  sensitivity = c.sensitivity;
  last_verified_at = c.last_verified_at;
  snippet = c.body;
}

abbrev is_empty {ℓ} : {A : Type ℓ} → List A → Bool
is_empty [] = true
is_empty (x ∷ xs) = false

-- The chunk fetch and the bodies it gives, where the embedder worked and a lane's entry is shown.
unfoldable pub fetch_bodies :
    (List Text → Call (List HydratedChunkSlice))
    → Bool
    → List AnnCandidate
    → List HydratedEntryRow
    → List HydratedEntryRow
    → Call (List (Text × Text))
fetch_bodies fetch embed_ok ann_results rows ordered =
    let wanted = relevant_chunk_ids (row_ids ordered) ann_results in
    if embed_ok && (not (is_empty ann_results) && (not (is_empty ordered) && not (is_empty wanted)))
    then elim (fetch wanted) [
      | failed m ↦ failed m
      | returned chunks ↦ returned (chunk_bodies rows chunks [])
    ]
    else returned []
