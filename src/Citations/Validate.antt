-- ===== src/Citations/Validate.antt =====
-- `parseSourcesBlock`, `extractInlineCitations` and `validateCitations`.
use priority_kb.Base.{
  Text, trim, trim_end, split_on, includes, unique, ℕ, zero, ◌+◌, ltb, Bool, true, false, not, ◌||◌,
  List, [], ◌∷◌, ◌++◌, map, keep, if◌then◌else◌, length, take, drop, Option, none, some,
}
use priority_kb.Citations.Blocks.{
  normalize, Found, all_blocks, strip_blocks, is_uuid_v4, find_inline,
}

pub data CitationValidationResult : Type 0 where
  valid : (ids : List Text) (body : Text) → CitationValidationResult
  sources_block_missing : CitationValidationResult
  multiple_sources_blocks : (count : ℕ) → CitationValidationResult
  trailing_prose_after_sources : (trailing : Text) → CitationValidationResult
  sources_block_empty : CitationValidationResult
  invalid_uuid : (offending_ids : List Text) → CitationValidationResult
  duplicate_id : (offending_ids : List Text) → CitationValidationResult
  hallucinated_id : (offending_ids : List Text) → CitationValidationResult
  inline_sources_mismatch :
      (inline_only : List Text) (sources_only : List Text) → CitationValidationResult

pub record SourcesBlock : Type 0 where
  pub ids : List Text
  pub raw_match : Text
  pub match_start : ℕ
  pub match_end : ℕ

abbrev pub is_empty {ℓ} : {A : Type ℓ} → List A → Bool
is_empty [] = true
is_empty (x ∷ xs) = false

unfoldable pub ids_of : Text → List Text
ids_of inner = if is_empty (trim inner) then [] else map trim (split_on b',' inner)

unfoldable pub first_block : List Found → Option SourcesBlock
unfolding ids_of
first_block [] = none
first_block (m ∷ ms) = some (record {
  ids = ids_of m.block.inner;
  raw_match = m.block.raw;
  match_start = m.start;
  match_end = m.start + length m.block.raw;
})

unfoldable pub parse_sources_block : Text → Option SourcesBlock
unfolding first_block
parse_sources_block answer = first_block (all_blocks (normalize answer))

unfoldable pub extract_inline_citations : Text → List Text
extract_inline_citations answer = find_inline zero (strip_blocks (normalize answer))

-- Step 6: the ids that the block has already listed.
unfoldable pub repeated : List Text → List Text → List Text
repeated seen [] = []
repeated seen (id ∷ ids) =
    let again = id ∷ repeated seen ids in
    let first = repeated (id ∷ seen) ids in if includes seen id then again else first

-- The early returns of steps 5 to 8.
unfoldable pub verdict :
    (bad_uuids dups hallucinated inline_only sources_only ids : List Text) (body : Text)
    → CitationValidationResult
verdict bad_uuids dups hallucinated inline_only sources_only ids body =
    if not (is_empty bad_uuids)
    then invalid_uuid bad_uuids
    else if not (is_empty dups)
    then duplicate_id dups
    else if not (is_empty hallucinated)
    then hallucinated_id hallucinated
    else if not (is_empty inline_only) || not (is_empty sources_only)
    then inline_sources_mismatch inline_only sources_only
    else valid ids body

unfoldable pub check_ids :
    (ids inline_raw reranked_ids : List Text) (body : Text) → CitationValidationResult
check_ids ids inline_raw reranked_ids body =
    verdict (keep (λ id. not (is_uuid_v4 id)) (unique (ids ++ inline_raw))) (repeated [] ids)
      (keep (λ id. not (includes reranked_ids id)) ids)
      (keep (λ id. not (includes ids id)) (unique inline_raw))
      (keep (λ id. not (includes inline_raw id)) (unique ids)) ids body

-- Steps 2 to 4 on the block that was found in `normalized`.
unfoldable pub check_block : Text → List Text → SourcesBlock → CitationValidationResult
check_block normalized reranked_ids parsed =
    let trailing = drop parsed.match_end normalized in
    if ltb 1 (length (all_blocks normalized))
    then multiple_sources_blocks (length (all_blocks normalized))
    else if not (is_empty (trim trailing))
    then trailing_prose_after_sources trailing
    else if is_empty parsed.ids
    then sources_block_empty
    else check_ids parsed.ids (extract_inline_citations normalized) reranked_ids
        (trim_end (take parsed.match_start normalized))

unfoldable pub validate_citations : Text → List Text → CitationValidationResult
validate_citations answer reranked_ids =
    let normalized = normalize answer in
    elim (parse_sources_block normalized) [
      | none ↦ sources_block_missing
      | some parsed ↦ check_block normalized reranked_ids parsed
    ]
