-- ===== src/Tests/Chunks.antt =====
-- Texts cut with the encoder of Tests/Coding.
use priority_kb.Base.{
  Text, lit, text_eq, ℕ, map, List, [], ◌∷◌, Option, none, some, ◌≡◌, refl, arith, is_space,
  is_line_end,
}
use priority_kb.Chunk.Offsets.{token_index, char_offsets, fast_total, slow_offsets, prefix_lengths}
use priority_kb.Chunk.Decoding.{read, Readable}
use priority_kb.Tests.Coding.{utf8, byte_encoder, byte_encoder-Documented}
use priority_kb.Chunk.Ranges.{within, compute_forbidden_ranges, found_ranges, ranges_contain}
use priority_kb.Chunk.Boundary.{find_boundary}
use priority_kb.Chunk.Slices.{Opts, Piece, Chunked, chunk, chunk_tokens, pieces, job}
use priority_kb.Chunk.Search.{OffsetMap, Floor, token_index-Floor}
use priority_kb.Chunk.Lengths.{char_offsets-OffsetMap}
use priority_kb.Chunk.Merge.{Apart, compute_forbidden_ranges-Apart}
use priority_kb.Chunk.Cut.{IsCut, find_boundary-IsCut}
use priority_kb.Chunk.Cover.{Tiles, chunk-Covers}

same_text : Text → Text
same_text t = t

sample : Text
unfolding lit
sample = lit "Hi. ok `a b` x\n| t |\nend"

abbrev small_opts : Opts
small_opts = record { size = some 8; overlap = some 2; min_trailing = some 4 }

abbrev sample_tokens : List ℕ
sample_tokens = utf8 sample

sample-Readable : Readable (same_text sample)
unfolding sample lit same_text
sample-Readable = record { unmarked = λ rest h. ground arith; fits = omega arith }

-- One unit of two bytes, and one of one: the tokens' own lengths do not add up.
abbrev accented : Text
accented = 233 ∷ 105 ∷ []

accented-Readable : Readable accented
accented-Readable = record { unmarked = λ rest h. ground arith; fits = omega arith }

slow_path : char_offsets byte_encoder (200 ∷ 233 ∷ 105 ∷ []) accented ≡ 0 ∷ 1 ∷ 1 ∷ 2 ∷ []
unfolding char_offsets fast_total slow_offsets prefix_lengths read
slow_path = refl

refused_text : chunk byte_encoder same_text (lit "<|endoftext|>") small_opts ≡ Chunked.encode_error
unfolding chunk chunk_tokens lit same_text text_eq
refused_text = refl

sample_ranges : compute_forbidden_ranges sample ≡ (7, 12) ∷ (15, 21) ∷ []
unfolding compute_forbidden_ranges sample lit is_line_end within
sample_ranges = refl

abbrev ends : Option (List Piece) → List (ℕ × ℕ)
ends none = []
ends (some ps) = map (λ p. (p.content_start, p.content_end)) ps

sample_cut :
    ends (pieces (job byte_encoder sample_tokens sample small_opts) 4)
    ≡ (0, 12) ∷ (10, 21) ∷ (19, 24) ∷ []
unfolding pieces job utf8 read sample lit is_line_end is_space within
sample_cut = refl

chunk-Covers_example :
    Tiles byte_encoder (same_text sample) (chunk byte_encoder same_text sample small_opts)
chunk-Covers_example =
    chunk-Covers byte_encoder same_text sample small_opts byte_encoder-Documented sample-Readable

char_offsets-OffsetMap_example :
    OffsetMap (char_offsets byte_encoder (200 ∷ 233 ∷ 105 ∷ []) accented) 3 2
unfolding utf8 text_eq lit
char_offsets-OffsetMap_example =
    char_offsets-OffsetMap byte_encoder (200 ∷ 233 ∷ 105 ∷ []) accented byte_encoder-Documented refl
      accented-Readable (omega arith)

few-OffsetMap : OffsetMap (char_offsets byte_encoder (200 ∷ 233 ∷ 105 ∷ []) accented) 3 2
unfolding utf8 text_eq lit
few-OffsetMap =
    char_offsets-OffsetMap byte_encoder (200 ∷ 233 ∷ 105 ∷ []) accented byte_encoder-Documented refl
      accented-Readable (omega arith)

token_index-Floor_example :
    Floor
      (char_offsets byte_encoder (200 ∷ 233 ∷ 105 ∷ []) accented)
      1
      (token_index (char_offsets byte_encoder (200 ∷ 233 ∷ 105 ∷ []) accented) 1)
token_index-Floor_example =
    token_index-Floor (char_offsets byte_encoder (200 ∷ 233 ∷ 105 ∷ []) accented) 3 2 few-OffsetMap
      1

compute_forbidden_ranges-Apart_example :
    Apart (compute_forbidden_ranges sample)
    × ((o : ℕ)
        → ranges_contain (compute_forbidden_ranges sample) o
          ≡ ranges_contain (found_ranges sample) o)
compute_forbidden_ranges-Apart_example = compute_forbidden_ranges-Apart sample

find_boundary-IsCut_example :
    IsCut sample 0 ((7, 12) ∷ (15, 21) ∷ []) (find_boundary sample 0 9 ((7, 12) ∷ (15, 21) ∷ []))
unfolding sample lit
find_boundary-IsCut_example =
    find_boundary-IsCut sample 0 9 ((7, 12) ∷ (15, 21) ∷ []) (omega arith) (omega arith)
      ((omega arith, tt), (tt, tt))
