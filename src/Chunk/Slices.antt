-- ===== src/Chunk/Slices.antt =====
-- lib/chunk.ts: `chunk`. `normalize("NFC")` and the encoder are parameters.
use priority_kb.Base.{
  Text, lit, ℕ, zero, suc, ◌+◌, ◌-◌, min, true, false, List, [], ◌∷◌, Option, none, some,
  option_map, length, ltb, leb, ◌==◌, if◌then◌else◌,
}
use priority_kb.Chunk.Offsets.{Encoder, char_offsets, offset_at, token_index}
use priority_kb.Chunk.Ranges.{Range, compute_forbidden_ranges}
use priority_kb.Chunk.Boundary.{find_boundary}

abbrev pub default_chunk_tokens : ℕ
default_chunk_tokens = 500

abbrev pub default_overlap_tokens : ℕ
default_overlap_tokens = 60

abbrev pub min_trailing_tokens : ℕ
min_trailing_tokens = 60

unfoldable pub chunking_policy_version : Text
unfolding lit
chunking_policy_version = lit "v1-2026-05-17"

pub record ChunkSlice : Type 0 where
  pub chunk_index : ℕ
  pub chunk_total : ℕ
  pub content_start : ℕ
  pub content_end : ℕ
  pub token_count : ℕ
  pub policy_version : Text

-- A slice before its index and the total are known; its `chunking_policy_version` is the constant.
pub record Piece : Type 0 where
  pub content_start : ℕ
  pub content_end : ℕ
  pub token_count : ℕ

-- `opts`, as far as its numbers are natural; a field that is left out gets its default.
pub record Opts : Type 0 where
  pub size : Option ℕ
  pub overlap : Option ℕ
  pub min_trailing : Option ℕ

unfoldable pub given : Option ℕ → ℕ → ℕ
given none d = d
given (some n) d = n

-- What the loop reads: the normalised body, `charOffsetAtToken`, `totalTokens`, the options.
pub record Job : Type 0 where
  pub body : Text
  pub offsets : List ℕ
  pub total : ℕ
  pub size : ℕ
  pub overlap : ℕ
  pub forbidden : List Range

-- One pass through the loop's body: a slice, and a `break` or the next `startCharOffset`.
pub data Pass : Type 0 where
  finished : Piece → Pass
  continued : Piece → (next_start : ℕ) → Pass

-- `endTokenIdx`, after the guard against slices of no token.
unfoldable pub end_token : Job → ℕ → ℕ → ℕ
unfolding token_index find_boundary offset_at
end_token j start_char start_token =
    let target_char = offset_at j.offsets (start_token + j.size) in
    let found = token_index j.offsets (find_boundary j.body start_char target_char j.forbidden) in
    if leb found start_token then min (start_token + 1) j.total else found

-- `effectiveBoundary`
unfoldable pub effective_boundary : Job → ℕ → ℕ
unfolding offset_at
effective_boundary j end_tok =
    if end_tok == j.total then length j.body else offset_at j.offsets end_tok

-- `nextTokenIdx`; a difference below 0 is replaced as 0 is.
unfoldable pub next_token : Job → ℕ → ℕ → ℕ
next_token j start_token end_tok =
    if leb (end_tok - j.overlap) start_token then start_token + 1 else end_tok - j.overlap

unfoldable pub pass_from : Job → ℕ → ℕ → ℕ → Pass
unfolding effective_boundary next_token offset_at
pass_from j start_char start_token end_tok =
    let piece : Piece = record {
      content_start = start_char;
      content_end = effective_boundary j end_tok;
      token_count = end_tok - start_token;
    } in
    let next = next_token j start_token end_tok in
    if leb j.total next then finished piece else continued piece (offset_at j.offsets next)

unfoldable pub pass : Job → ℕ → Pass
unfolding token_index end_token pass_from
pass j start_char =
    let start_token = token_index j.offsets start_char in
    let last : Piece = record {
      content_start = start_char;
      content_end = length j.body;
      token_count = j.total - start_token;
    } in
    if leb j.total (start_token + j.size)
    then finished last
    else pass_from j start_char start_token (end_token j start_char start_token)

-- `while (startCharOffset < normalized.length)`, on fuel; `none` where the fuel runs out.
unfoldable pub pieces_from : Job → ℕ → ℕ → Option (List Piece)
unfolding pass
pieces_from j zero start_char = none
pieces_from j (suc fuel) start_char = elim (ltb start_char (length j.body)) [
  | false ↦ some []
  | true ↦ elim (pass j start_char) [
    | finished p ↦ some (p ∷ [])
    | continued p next ↦ option_map (λ ps. p ∷ ps) (pieces_from j fuel next)
  ]
]

-- The trailing merge: `prev` and `last` are the last two slices.
unfoldable pub merge_last : List ℕ → ℕ → Piece → Piece → List Piece
unfolding token_index
merge_last offsets min_trailing prev last =
    let grown : Piece = record {
      content_start = prev.content_start;
      content_end = last.content_end;
      token_count = token_index offsets last.content_end - token_index offsets prev.content_start;
    } in
    if leb min_trailing last.token_count
    then prev ∷ last ∷ []
    else if leb last.content_end prev.content_end
    then prev ∷ []
    else grown ∷ []

unfoldable pub trailing_merge : List ℕ → ℕ → List Piece → List Piece
unfolding merge_last
trailing_merge offsets n [] = []
trailing_merge offsets n (p ∷ []) = p ∷ []
trailing_merge offsets n (p ∷ q ∷ []) = merge_last offsets n p q
trailing_merge offsets n (p ∷ q ∷ r ∷ ps) = p ∷ trailing_merge offsets n (q ∷ r ∷ ps)

-- `out.map((c, i) => ...)`
unfoldable pub numbered : ℕ → ℕ → List Piece → List ChunkSlice
unfolding chunking_policy_version
numbered i total [] = []
numbered i total (p ∷ ps) =
    record {
      chunk_index = i;
      chunk_total = total;
      content_start = p.content_start;
      content_end = p.content_end;
      token_count = p.token_count;
      policy_version = chunking_policy_version;
    }
    ∷ numbered (suc i) total ps

unfoldable pub sealed : List Piece → List ChunkSlice
unfolding numbered
sealed ps = numbered 0 (length ps) ps

unfoldable pub job : {K : Type 0} → Encoder K → (tokens : List K) → Text → Opts → Job
unfolding char_offsets compute_forbidden_ranges given
job enc tokens normalized opts = record {
  body = normalized;
  offsets = char_offsets enc tokens normalized;
  total = length tokens;
  size = given opts.size default_chunk_tokens;
  overlap = given opts.overlap default_overlap_tokens;
  forbidden = compute_forbidden_ranges normalized;
}

-- All in one slice.
unfoldable pub whole : Job → Piece
whole j = record { content_start = 0; content_end = length j.body; token_count = j.total }

-- The slices of a text that is not empty.
unfoldable pub pieces : Job → ℕ → Option (List Piece)
unfolding whole pieces_from trailing_merge
pieces j min_trailing =
    if leb j.total j.size
    then some (whole j ∷ [])
    else option_map (trailing_merge j.offsets min_trailing) (pieces_from j (suc j.total) 0)

-- The slices, or the error that the encoder throws. `unfinished` stands for a loop that does not end.
pub data Chunked : Type 0 where
  sliced : List ChunkSlice → Chunked
  encode_error unfinished : Chunked

unfoldable pub slices_of_pieces : Option (List Piece) → Chunked
unfolding sealed
slices_of_pieces none = unfinished
slices_of_pieces (some ps) = sliced (sealed ps)

-- The slices of an encoded text that is not empty.
unfoldable pub chunk_tokens : {K : Type 0} → Encoder K → Text → Opts → Option (List K) → Chunked
unfolding job pieces slices_of_pieces given
chunk_tokens enc text opts none = encode_error
chunk_tokens enc text opts (some tokens) =
    slices_of_pieces
      (pieces (job enc tokens text opts) (given opts.min_trailing min_trailing_tokens))

unfoldable pub chunk : {K : Type 0} → Encoder K → (nfc : Text → Text) → Text → Opts → Chunked
unfolding chunk_tokens
chunk enc nfc body opts =
    if length (nfc body) == 0
    then sliced []
    else chunk_tokens enc (nfc body) opts (enc.encode (nfc body))
