-- ===== src/Chunk/Embed.antt =====
-- lib/chunk.ts: `buildEmbedInput`, `getRawSlice` and `embedInputTokenCount`.
use priority_kb.Base.{
  Text, lit, ℕ, ◌-◌, List, ◌++◌, none, some, take, drop, length, leb, if◌then◌else◌,
}
use priority_kb.SynthInput.{join}
use priority_kb.Chunk.Offsets.{Encoder}

abbrev pub title_clip_chars : ℕ
title_clip_chars = 256

abbrev pub voyage_max_input_tokens : ℕ
voyage_max_input_tokens = 32000

-- `body.slice(content_start, content_end)`
unfoldable pub get_raw_slice : Text → ℕ → ℕ → Text
get_raw_slice body content_start content_end =
    take (content_end - content_start) (drop content_start body)

unfoldable pub build_embed_input : Text → List Text → Text → ℕ → ℕ → Text
unfolding lit get_raw_slice join
build_embed_input title tags body content_start content_end =
    lit "Title: "
    ++ (take title_clip_chars title
        ++ (lit "\nTags: "
            ++ (join (lit ", ") tags
                ++ (lit "\n\n" ++ get_raw_slice body content_start content_end))))

-- A number of tokens, the RangeError, or the error that the encoder throws.
pub data TokenCount : Type 0 where
  counted : ℕ → TokenCount
  over_limit encoder_threw : TokenCount

unfoldable pub embed_input_token_count : {K : Type 0} → Encoder K → Text → TokenCount
embed_input_token_count enc input = elim (enc.encode input) [
  | none ↦ encoder_threw
  | some tokens ↦
      if leb (length tokens) voyage_max_input_tokens then counted (length tokens) else over_limit
]
