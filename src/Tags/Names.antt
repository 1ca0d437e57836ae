-- ===== src/Tags/Names.antt =====
-- lib/tags.ts: `normalizeTag` and the validations, and the Hebrew marks of lib/keyword-tsquery.ts.
use priority_kb.Base.{
  Text, ℕ, Bool, false, ◌&&◌, ◌||◌, List, [], ◌∷◌, Option, none, some, length, ltb, leb, ◌==◌,
  if◌then◌else◌, is_space, trim, code_points, includes,
}

-- The `field` and the `reason` of a TagValidationError; its message is made of them.
pub data Field : Type 0 where
  from_field to_field tag_field : Field

pub data Reason : Type 0 where
  empty too_long control_char niqqud comma_or_semicolon to_in_from empty_array : Reason
  duplicate_in_from : Reason

pub record TagValidationError : Type 0 where
  pub field : Field
  pub reason : Reason

abbrev pub max_tag_length : ℕ
max_tag_length = 64

-- `replace(/\s+/g, " ")`; `spaced` tells whether the last unit read was white space.
unfoldable pub collapse : (spaced : Bool) → Text → Text
unfolding is_space
collapse spaced [] = []
collapse spaced (c ∷ s) =
    let rest = collapse (is_space c) s in
    if is_space c then (if spaced then rest else 32 ∷ rest) else c ∷ rest

unfoldable pub normalize_tag : (nfc : Text → Text) → Text → Text
unfolding trim collapse
normalize_tag nfc raw = collapse false (trim (nfc raw))

unfoldable pub some_unit : (ℕ → Bool) → Text → Bool
some_unit p [] = false
some_unit p (c ∷ s) = p c || some_unit p s

unfoldable pub is_control : ℕ → Bool
is_control c = leb c 31 || (c == 127)

-- HEBREW_COMBINING_MARKS_PATTERN
unfoldable pub is_niqqud : ℕ → Bool
is_niqqud c =
    (leb 0x591 c && leb c 0x5bd)
    || (c == 0x5bf)
    || (leb 0x5c1 c && leb c 0x5c2)
    || (leb 0x5c4 c && leb c 0x5c5)
    || (c == 0x5c7)

unfoldable pub is_separator : ℕ → Bool
is_separator c = (c == 44) || (c == 59)

-- `none` where the tag passes.
unfoldable pub validate_tag_strict : Text → Field → Option TagValidationError
unfolding some_unit is_control is_niqqud is_separator code_points
validate_tag_strict normalized field =
    if length normalized == 0
    then some (record { field = field; reason = empty })
    else if ltb max_tag_length (length (code_points normalized))
    then some (record { field = field; reason = too_long })
    else if some_unit is_control normalized
    then some (record { field = field; reason = control_char })
    else if some_unit is_niqqud normalized
    then some (record { field = field; reason = niqqud })
    else if some_unit is_separator normalized
    then some (record { field = field; reason = comma_or_semicolon })
    else none

unfoldable pub validate_tag_from_loose_length : Text → Option TagValidationError
unfolding some_unit code_points
validate_tag_from_loose_length normalized =
    if length normalized == 0
    then some (record { field = from_field; reason = empty })
    else if some_unit (λ c. c == 0) normalized
    then some (record { field = from_field; reason = control_char })
    else if ltb max_tag_length (length (code_points normalized))
    then some (record { field = from_field; reason = too_long })
    else none

-- The sources of a merge, normalised, or the first error; `seen` are those already read.
pub data Sources : Type 0 where
  sources : List Text → Sources
  refused : TagValidationError → Sources

abbrev pub add_source : Text → Sources → Sources
add_source n (sources ns) = sources (n ∷ ns)
add_source n (refused e) = refused e

unfoldable pub read_sources : (nfc : Text → Text) → (seen : List Text) → List Text → Sources
unfolding normalize_tag validate_tag_from_loose_length includes
read_sources nfc seen [] = sources []
read_sources nfc seen (raw ∷ raws) =
    let n = normalize_tag nfc raw in
    let rest = read_sources nfc (n ∷ seen) raws in
    elim (validate_tag_from_loose_length n) [
      | some e ↦ refused e
      | none ↦
          if includes seen n
          then refused (record { field = from_field; reason = duplicate_in_from })
          else add_source n rest
    ]

-- What `mergeTags` checks before it reads the database.
pub data MergeInput : Type 0 where
  merge_input : (from : List Text) (to : Text) → MergeInput
  merge_refused : TagValidationError → MergeInput

abbrev pub with_target : Text → Sources → MergeInput
with_target to (refused e) = merge_refused e
with_target to (sources from) =
    if includes from to
    then merge_refused (record { field = to_field; reason = to_in_from })
    else merge_input from to

abbrev pub from_given : (nfc : Text → Text) → Text → List Text → MergeInput
from_given nfc to [] = merge_refused (record { field = from_field; reason = empty_array })
from_given nfc to (raw ∷ raws) = with_target to (read_sources nfc [] (raw ∷ raws))

unfoldable pub check_merge : (nfc : Text → Text) → (from : List Text) → (to : Text) → MergeInput
unfolding read_sources validate_tag_strict normalize_tag includes
check_merge nfc from to = elim (validate_tag_strict (normalize_tag nfc to) to_field) [
  | some e ↦ merge_refused e
  | none ↦ from_given nfc (normalize_tag nfc to) from
]
