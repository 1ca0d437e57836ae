-- ===== src/Citations/Blocks.antt =====
-- The regular expressions of lib/retrieval-citations.ts, as deterministic scans: no branch of
-- theirs can take another way through the text, so backtracking finds nothing more.
use priority_kb.Base.{
  Text, lit, is_line_end, ℕ, zero, suc, ◌+◌, ◌-◌, ◌==◌, leb, Bool, true, false, ◌&&◌, ◌||◌, Option,
  none, some, List, [], ◌∷◌, if◌then◌else◌, length, take,
}

crlf_to_lf : Text → Text
crlf_to_lf [] = []
crlf_to_lf (c ∷ []) = c ∷ []
crlf_to_lf (c ∷ d ∷ s) =
    let pair = 10 ∷ crlf_to_lf s in
    let single = c ∷ crlf_to_lf (d ∷ s) in if (c == 13) && (d == 10) then pair else single

cr_to_lf : Text → Text
cr_to_lf [] = []
cr_to_lf (c ∷ s) = (if c == 13 then 10 else c) ∷ cr_to_lf s

unfoldable pub normalize : Text → Text
unfolding crlf_to_lf cr_to_lf
normalize answer = cr_to_lf (crlf_to_lf answer)

drop_prefix : Text → Text → Option Text
drop_prefix [] s = some s
drop_prefix (c ∷ p) [] = none
drop_prefix (c ∷ p) (d ∷ s) = if c == d then drop_prefix p s else none

skip_blanks : Text → Text
skip_blanks [] = []
skip_blanks (c ∷ s) = if (c == 32) || (c == 9) then skip_blanks s else c ∷ s

-- `([^\]]*)\]`: the text up to the first bracket, and what follows it.
to_bracket : Text → Option (Text × Text)
to_bracket [] = none
to_bracket (c ∷ s) =
    let rest = to_bracket s in
    if c == b']'
    then some ([], s)
    else elim rest [ none ↦ none | some (inner, after) ↦ some (c ∷ inner, after) ]

at_line_end : Text → Bool
at_line_end [] = true
at_line_end (c ∷ s) = is_line_end c

infixl 5 ◌>>=◌
abbrev ◌>>=◌ {ℓ κ} : {A : Type ℓ} {B : Type κ} → Option A → (A → Option B) → Option B
none >>= k = none
some a >>= k = k a

pub record Block : Type 0 where
  pub inner : Text
  pub raw : Text

-- The block with the text behind it.
close_block : Text → Text × Text → Option Block
close_block s (inner, after) =
    let rest = skip_blanks after in
    if at_line_end rest
    then some (record { inner = inner; raw = take (length s - length rest) s })
    else none

open_bracket : Text → Option Text
open_bracket [] = none
open_bracket (c ∷ s) = if c == b'[' then some s else none

-- The regular expression of a Sources block behind `^`, at the beginning of `s`.
unfoldable pub sources_at : Text → Option Block
unfolding drop_prefix skip_blanks to_bracket at_line_end close_block open_bracket
sources_at s = do
  after_label ← drop_prefix (lit "Sources:") s
  in_bracket ← open_bracket (skip_blanks after_label)
  parts ← to_bracket in_bracket
  close_block s parts

block_here : Bool → Text → Option Block
block_here true s = sources_at s
block_here false s = none

pub record Found : Type 0 where
  pub block : Block
  pub start : ℕ

-- All matches with their places. `skip` counts the code units that the last match still covers;
-- `bol` says that `^` holds here.
unfoldable pub find_blocks : ℕ → Bool → ℕ → Text → List Found
unfolding block_here
find_blocks skip bol i [] = []
find_blocks (suc skip) bol i (c ∷ s) = find_blocks skip false (i + 1) s
find_blocks zero bol i (c ∷ s) = elim (block_here bol (c ∷ s)) [
  | none ↦ find_blocks zero (is_line_end c) (i + 1) s
  | some b ↦ record { block = b; start = i } ∷ find_blocks (length b.raw - 1) false (i + 1) s
]

unfoldable pub all_blocks : Text → List Found
all_blocks s = find_blocks zero true 0 s

-- `replace(SOURCES_BLOCK_REGEX_G, "")`.
unfoldable pub strip_blocks_from : ℕ → Bool → Text → Text
unfolding block_here
strip_blocks_from skip bol [] = []
strip_blocks_from (suc skip) bol (c ∷ s) = strip_blocks_from skip false s
strip_blocks_from zero bol (c ∷ s) = elim (block_here bol (c ∷ s)) [
  | none ↦ c ∷ strip_blocks_from zero (is_line_end c) s
  | some b ↦ strip_blocks_from (length b.raw - 1) false s
]

unfoldable pub strip_blocks : Text → Text
strip_blocks s = strip_blocks_from zero true s

abbrev Class : Type 0
Class = ℕ → Bool

is_hex : Class
is_hex c = (leb b'0' c && leb c b'9') || (leb b'a' c && leb c b'f') || (leb b'A' c && leb c b'F')

is_dash : Class
is_dash c = c == b'-'

is_variant : Class
is_variant c =
    (c == b'8') || (c == b'9') || (c == b'a') || (c == b'b') || (c == b'A') || (c == b'B')

times : ℕ → Class → List Class → List Class
times zero p ps = ps
times (suc n) p ps = p ∷ times n p ps

-- The first code units of a text, if they are of these classes, and the rest.
match_classes : List Class → Text → Option (Text × Text)
match_classes [] s = some ([], s)
match_classes (p ∷ ps) [] = none
match_classes (p ∷ ps) (c ∷ s) =
    if p c
    then elim (match_classes ps s) [ none ↦ none | some (m, rest) ↦ some (c ∷ m, rest) ]
    else none

uuid_shape : List Class
unfolding times
uuid_shape = times 8 is_hex (
    is_dash
    ∷ times 4 is_hex
        (is_dash ∷ times 4 is_hex (is_dash ∷ times 4 is_hex (is_dash ∷ times 12 is_hex []))))

uuid_v4_shape : List Class
unfolding times
uuid_v4_shape = times 8 is_hex (
    is_dash
    ∷ times 4 is_hex (
        is_dash
        ∷ (λ c. c == b'4')
        ∷ times 3 is_hex (is_dash ∷ is_variant ∷ times 3 is_hex (is_dash ∷ times 12 is_hex []))))

-- `UUID_V4_REGEX.test`.
unfoldable pub is_uuid_v4 : Text → Bool
unfolding match_classes uuid_v4_shape is_hex is_dash is_variant
is_uuid_v4 s = elim (match_classes uuid_v4_shape s) [ some (m, []) ↦ true | _ ↦ false ]

-- `INLINE_CITATION_REGEX` at the beginning of the text.
unfoldable pub inline_at : Text → Option Text
unfolding match_classes uuid_shape is_hex is_dash open_bracket
inline_at s = do
  inside ← open_bracket s
  found ← match_classes uuid_shape inside
  elim found.1 [ [] ↦ none | c ∷ rest ↦ if c == b']' then some found.0 else none ]

unfoldable pub find_inline : ℕ → Text → List Text
find_inline skip [] = []
find_inline (suc skip) (c ∷ s) = find_inline skip s
find_inline zero (c ∷ s) = elim (inline_at (c ∷ s)) [
  | none ↦ find_inline zero s
  | some id ↦ id ∷ find_inline (length id + 1) s
]
