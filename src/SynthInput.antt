-- ===== src/SynthInput.antt =====
-- lib/retrieval-synth-input.ts: the blocks that describe reranked chunks to the synthesizer.
-- `sensitivity` is one of the three values by its type, so the test of it is not in the model.
pub mod Escape
pub mod Laws
use priority_kb.Base.{
  Text, lit, ℕ, zero, suc, ◌+◌, ◌/◌, ◌%◌, ◌==◌, ltb, Bool, true, false, not, List, [], ◌∷◌, ◌++◌,
  Option, none, some, if◌then◌else◌,
}
use priority_kb.Auth.{Sensitivity, public, internal, restricted}
use priority_kb.Fusion.{Num}
use Escape.{escape_xml_text, escape_attribute}

pub record SynthInputChunk (F : Type 0) : Type 0 where
  pub entry_id : Text
  pub title : Text
  pub body : Text
  pub category : Text
  pub tags : List Text
  pub source_pointer : Option Text
  pub last_verified_at : Text
  pub sensitivity : Sensitivity
  pub score : F

-- `String(n)`: decimal digits; the fuel is `n`, and a number has fewer digits than that plus one.
decimal_from : ℕ → ℕ → Text → Text
decimal_from zero n acc = (b'0' + n % 10) ∷ acc
decimal_from (suc fuel) n acc =
    let more = decimal_from fuel (n / 10) ((b'0' + n % 10) ∷ acc) in
    if ltb n 10 then (b'0' + n) ∷ acc else more

unfoldable pub decimal : ℕ → Text
unfolding decimal_from
decimal n = decimal_from n n []

unfoldable pub join : Text → List Text → Text
join sep [] = []
join sep (t ∷ []) = t
join sep (t ∷ u ∷ ts) = t ++ (sep ++ join sep (u ∷ ts))

unfoldable pub sensitivity_text : Sensitivity → Text
sensitivity_text public = lit "public"
sensitivity_text internal = lit "internal"
sensitivity_text restricted = lit "restricted"

pub data Rendered (A : Type 0) : Type 0 where
  rendered : A → Rendered A
  bad_entry_id bad_score : Rendered A

or_empty : Option Text → Text
or_empty none = []
or_empty (some t) = t

module _ (num : Num) where
  open num use {F, is_finite, to_fixed}

  -- One element on a line of its own, with its text escaped.
  unfoldable pub element : Text → Text → Text
  element tag t =
      lit "  <" ++ (tag ++ (lit ">" ++ (escape_xml_text t ++ (lit "</" ++ (tag ++ lit ">")))))

  unfoldable pub render_lines : SynthInputChunk F → ℕ → List Text
  unfolding or_empty element
  render_lines c index =
      (lit "<entry index=\""
        ++ (escape_attribute (decimal index)
            ++ (lit "\" entry_id=\""
                ++ (escape_attribute c.entry_id
                    ++ (lit "\" score=\""
                        ++ (escape_attribute (to_fixed c.score 4) ++ lit "\">"))))))
      ∷ element (lit "title") c.title
      ∷ element (lit "category") c.category
      ∷ element (lit "tags") (join (lit ", ") c.tags)
      ∷ element (lit "source") (or_empty c.source_pointer)
      ∷ element (lit "last_verified_at") c.last_verified_at
      ∷ element (lit "sensitivity") (sensitivity_text c.sensitivity)
      ∷ element (lit "body") c.body
      ∷ lit "</entry>"
      ∷ []

  unfoldable pub render_chunk : SynthInputChunk F → ℕ → Rendered Text
  render_chunk c index = elim c.entry_id [
    | [] ↦ bad_entry_id
    | x ∷ xs ↦
        if not (is_finite c.score)
        then bad_score
        else rendered (join (10 ∷ []) (render_lines c index))
  ]

  unfoldable pub render_from : ℕ → List (SynthInputChunk F) → Rendered (List Text)
  render_from i [] = rendered []
  render_from i (c ∷ cs) = elim (render_chunk c (i + 1)) [
    | rendered t ↦ elim (render_from (i + 1) cs) [
      | rendered ts ↦ rendered (t ∷ ts)
      | bad_entry_id ↦ bad_entry_id
      | bad_score ↦ bad_score
    ]
    | bad_entry_id ↦ bad_entry_id
    | bad_score ↦ bad_score
  ]

  unfoldable pub build_synth_context : List (SynthInputChunk F) → Rendered (List Text)
  build_synth_context chunks = render_from 0 chunks
