-- ===== src/Tests/Coding.antt =====
-- A small coding: a unit below 128 is one byte, any other a lead byte and the unit. Each byte is a token, and
-- the text of the special token is not encoded.
use priority_kb.Base.{
  Text, lit, text_eq, ℕ, suc, ◌+◌, ◌*◌, ◌≤◌, ◌==◌, ltb, Bool, true, false, List, [], ◌∷◌, none,
  some, length, take, if◌then◌else◌, ◌≡◌, refl, sym, ap, ◌∙◌, some_inj, Bool-cases, inl, inr, arith,
}
use priority_kb.Chunk.Offsets.{Encoder}
use priority_kb.Chunk.Decoding.{Decoder, read, spelled, Documented, mark_bytes}

-- The state is whether a lead byte was read.
abbrev pub pair_decoder : Decoder
pair_decoder = record {
  State = Bool;
  start = false;
  step = λ s b. if s then false else b == 200;
  emits = λ s b. if s then b ∷ [] else if b == 200 then [] else b ∷ [];
  flush = λ s. if s then 65533 ∷ [] else [];
}

unfoldable pub utf8 : Text → List ℕ
utf8 [] = []
utf8 (c ∷ s) = let rest = utf8 s in if ltb c 128 then c ∷ rest else 200 ∷ c ∷ rest

abbrev special : Text
special = lit "<|endoftext|>"

abbrev pub byte_encoder : Encoder ℕ
byte_encoder = record {
  encode = λ s. if text_eq s special then none else some (utf8 s);
  decode = λ ts. read pair_decoder false ts;
}

spelled_bytes : (ts : List ℕ) → spelled (λ b. b ∷ []) ts ≡ ts
unfolding spelled
spelled_bytes [] = refl
spelled_bytes (t ∷ ts) = ap (◌∷◌ t) (spelled_bytes ts)

length-read : (s : Text) → length (read pair_decoder false (utf8 s)) ≡ length s
unfolding read utf8
length-read [] = refl
length-read (c ∷ s) = elim (Bool-cases (ltb c 128)) [
  | inl e ↦
      let plain : (c == 200) ≡ false = ground arith in rw (e, plain, utf8) (ap suc (length-read s))
  | inr e ↦ rw (e, utf8) (ap suc (length-read s))
]

length-utf8 : (s : Text) → length (utf8 s) ≤ 3 * length s
unfolding utf8
length-utf8 [] = omega arith
length-utf8 (c ∷ s) = ground (arith, length-utf8 s)

unmarked : (s : Text) → take 3 (utf8 s) ≡ mark_bytes → (rest : Text) × (s ≡ 65279 ∷ rest)
unfolding utf8
unmarked [] h = absurd (omega (arith, ap length h))
unmarked (c ∷ s) h = elim (Bool-cases (ltb c 128)) [
  | inl e ↦ absurd (first c (utf8 s) (rw (e, utf8) at h) (ground arith))
  | inr e ↦ absurd (first 200 (c ∷ utf8 s) (rw (e, utf8) at h) (omega arith))
]
  where
    first : (b : ℕ) (bs : List ℕ) → take 3 (b ∷ bs) ≡ mark_bytes → (b ≡ 239 → ⊥) → ⊥
    first b bs k l = ground arith

encoded : (s : Text) (ts : List ℕ) → byte_encoder.encode s ≡ some ts → ts ≡ utf8 s
encoded s ts h = elim (Bool-cases (text_eq s special)) [
  | inl e ↦ cc (rw e at h)
  | inr e ↦ sym (some_inj.0 (rw e at h))
]

held :
    (s : Bool) (b : ℕ)
    → length (pair_decoder.flush s)
      ≤ length (pair_decoder.emits s b) + length (pair_decoder.flush (pair_decoder.step s b))
held true b = omega arith
held false b = omega arith

pub byte_encoder-Documented : Documented byte_encoder
byte_encoder-Documented = record {
  utf8 = utf8;
  bytes = λ b. b ∷ [];
  decoder = pair_decoder;
  not_empty = λ t. omega arith;
  lossless = λ s ts h. spelled_bytes ts ∙ encoded s ts h;
  wide = length-utf8;
  marked = unmarked;
  decodes = λ ts h. ap (read pair_decoder false) (sym (spelled_bytes ts));
  returns = λ s h. length-read s;
  idle = refl;
  pending = held;
}
