-- ===== src/Chunk/Decoding.antt =====
-- lib/chunk.ts: what it relies on in js-tiktoken and in the platform's UTF-8 coders, and that lengths of
-- decoded prefixes follow from it.
use priority_kb.Base.{
  Text, ℕ, zero, suc, ◌+◌, ◌*◌, ◌≤◌, ◌<◌, List, [], ◌∷◌, ◌++◌, length, length-append, take,
  take_all, some, append_assoc, ◌≡◌, refl, sym, ap, ◌∙◌, arith,
}
use priority_kb.Chunk.Offsets.{Encoder}

-- The units that a decoder gives for bytes read one at a time from a state on, with those for an
-- unfinished sequence at the end.
pub record Decoder : Type 1 where
  pub State : Type 0
  pub start : State
  pub step : State → ℕ → State
  pub emits : State → ℕ → Text
  pub flush : State → Text

module _ (d : Decoder) where
  open d use {State, start, step, emits, flush}

  unfoldable pub read : State → List ℕ → Text
  read s [] = flush s
  read s (b ∷ bs) = emits s b ++ read (step s b) bs

-- The bytes of the byte order mark.
abbrev pub mark_bytes : List ℕ
mark_bytes = 239 ∷ 187 ∷ 191 ∷ []

module _ {K : Type 0} (bytes : K → List ℕ) where
  unfoldable pub spelled : List K → List ℕ
  spelled [] = []
  spelled (t ∷ ts) = bytes t ++ spelled ts

-- A token is a string of bytes; the tokens of a text together are its UTF-8 form, unless `encode`
-- throws, as it does on the text of a special token. `decode` gives the bytes of the tokens to a
-- `TextDecoder`: it reads them one at a time, and drops a byte order mark in front. A sequence that is
-- not finished gives one replacement unit at the end; a byte read next goes on with it, completes it,
-- or makes the decoder give the replacement first. A text comes back from its UTF-8 form with its
-- length, a lone surrogate as the replacement unit, and a unit takes at most three bytes.
pub record Documented {K : Type 0} (enc : Encoder K) : Type 1 where
  pub utf8 : Text → List ℕ
  pub bytes : K → List ℕ
  pub decoder : Decoder
  pub not_empty : (t : K) → 0 < length (bytes t)
  pub lossless : (s : Text) (ts : List K) → enc.encode s ≡ some ts → spelled bytes ts ≡ utf8 s
  pub wide : (s : Text) → length (utf8 s) ≤ 3 * length s
  pub marked : (s : Text) → take 3 (utf8 s) ≡ mark_bytes → (rest : Text) × (s ≡ 65279 ∷ rest)
  pub decodes :
      (ts : List K)
      → ¬ (take 3 (spelled bytes ts) ≡ mark_bytes)
      → enc.decode ts ≡ read decoder decoder.start (spelled bytes ts)
  pub returns :
      (s : Text)
      → ¬ (take 3 (utf8 s) ≡ mark_bytes)
      → length (read decoder decoder.start (utf8 s)) ≡ length s
  pub idle : decoder.flush decoder.start ≡ []
  pub pending :
      (s : decoder.State) (b : ℕ)
      → length (decoder.flush s)
        ≤ length (decoder.emits s b) + length (decoder.flush (decoder.step s b))

-- A text with no byte order mark in front, and not longer than strings get in V8.
pub record Readable (s : Text) : Type 0 where
  pub unmarked : (rest : Text) → ¬ (s ≡ 65279 ∷ rest)
  pub fits : length s ≤ 536870888

-- What the map of offsets needs of the tokens of a text.
pub record Decodes {K : Type 0} (enc : Encoder K) (tokens : List K) (body : Text) : Type 0 where
  pub empty : length (enc.decode []) ≡ 0
  pub whole : length (enc.decode tokens) ≡ length body
  pub prefixes :
      (i j : ℕ) → i ≤ j → length (enc.decode (take i tokens)) ≤ length (enc.decode (take j tokens))
  pub small : length tokens < 2147483648

spelled-take :
    {K : Type 0} (bytes : K → List ℕ) (ts : List K) (i j : ℕ)
    → i ≤ j
    → (q : List ℕ) × (spelled bytes (take j ts) ≡ spelled bytes (take i ts) ++ q)
unfolding spelled
spelled-take bytes ts zero j h = (spelled bytes (take j ts), refl)
spelled-take bytes ts (suc i) zero h = absurd (omega arith)
spelled-take bytes [] (suc i) (suc j) h = ([], refl)
spelled-take bytes (t ∷ ts) (suc i) (suc j) h =
    let (q, e) = spelled-take bytes ts i j (omega arith) in
    (q, ap (λ r. bytes t ++ r) e ∙ sym (append_assoc (bytes t) (spelled bytes (take i ts)) q))

length-spelled :
    {K : Type 0} (bytes : K → List ℕ)
    → ((t : K) → 0 < length (bytes t))
    → (ts : List K) → length ts ≤ length (spelled bytes ts)
unfolding spelled
length-spelled bytes h [] = omega arith
length-spelled bytes h (t ∷ ts) =
    omega (arith, h t, length-spelled bytes h ts, length-append (bytes t) (spelled bytes ts))

marked-prefix : (p q : List ℕ) → take 3 p ≡ mark_bytes → take 3 (p ++ q) ≡ mark_bytes
marked-prefix [] q h = absurd (omega (arith, ap length h))
marked-prefix (a ∷ []) q h = absurd (omega (arith, ap length h))
marked-prefix (a ∷ b ∷ []) q h = absurd (omega (arith, ap length h))
marked-prefix (a ∷ b ∷ c ∷ p) q h = h

module _ {K : Type 0} (enc : Encoder K) (doc : Documented enc) where
  open doc use {bytes, decoder, utf8}

  flush-read :
      (s : decoder.State) (bs : List ℕ) → length (decoder.flush s) ≤ length (read decoder s bs)
  unfolding read
  flush-read s [] = omega arith
  flush-read s (b ∷ bs) = omega (
    arith,
    doc.pending s b,
    flush-read (decoder.step s b) bs,
    length-append (decoder.emits s b) (read decoder (decoder.step s b) bs),
  )

  -- Of more bytes come no fewer units.
  read-prefix :
      (s : decoder.State) (p q : List ℕ)
      → length (read decoder s p) ≤ length (read decoder s (p ++ q))
  unfolding read
  read-prefix s [] q = flush-read s q
  read-prefix s (b ∷ p) q = omega (
    arith,
    read-prefix (decoder.step s b) p q,
    length-append (decoder.emits s b) (read decoder (decoder.step s b) p),
    length-append (decoder.emits s b) (read decoder (decoder.step s b) (p ++ q)),
  )

  module _ (tokens : List K) (body : Text) (e : enc.encode body ≡ some tokens)
      (r : Readable body) where
    unmarked : ¬ (take 3 (utf8 body) ≡ mark_bytes)
    unmarked h = let (rest, same) = doc.marked body h in r.unmarked rest same

    unmarked-prefix : (p q : List ℕ) → utf8 body ≡ p ++ q → ¬ (take 3 p ≡ mark_bytes)
    unmarked-prefix p q same h = unmarked (ap (take 3) same ∙ marked-prefix p q h)

    spelled-split : (i : ℕ) → (q : List ℕ) × (utf8 body ≡ spelled bytes (take i tokens) ++ q)
    spelled-split i =
        let (q, same) = spelled-take bytes tokens i (i + length tokens) (omega arith) in
        (
          q,
          sym (doc.lossless body tokens e)
              ∙ ap (spelled bytes) (sym (take_all (i + length tokens) tokens (omega arith)))
              ∙ same,
        )

    decoded-prefix :
        (i : ℕ)
        → enc.decode (take i tokens) ≡ read decoder decoder.start (spelled bytes (take i tokens))
    decoded-prefix i =
        let (q, same) = spelled-split i in
        doc.decodes (take i tokens) (unmarked-prefix (spelled bytes (take i tokens)) q same)

    prefixes :
        (i j : ℕ)
        → i ≤ j
        → length (enc.decode (take i tokens)) ≤ length (enc.decode (take j tokens))
    prefixes i j h =
        let (q, same) = spelled-take bytes tokens i j h in
        let less = read-prefix decoder.start (spelled bytes (take i tokens)) q in
        let left = ap length (decoded-prefix i) in
        let right =
          ap length (decoded-prefix j) ∙ ap (λ bs. length (read decoder decoder.start bs)) same in
        omega (arith, less, left, right)

    whole : length (enc.decode tokens) ≡ length body
    whole =
        ap (λ ts. length (enc.decode ts)) (sym (take_all (length tokens) tokens (omega arith)))
        ∙ ap length (decoded-prefix (length tokens))
        ∙ ap (λ ts. length (read decoder decoder.start (spelled bytes ts)))
            (take_all (length tokens) tokens (omega arith))
        ∙ ap (λ bs. length (read decoder decoder.start bs)) (doc.lossless body tokens e)
        ∙ doc.returns body unmarked

    -- The tokens of a readable text decode as the map needs it.
    pub readable-Decodes : Decodes enc tokens body
    unfolding read spelled
    readable-Decodes = record {
      empty = ap length (decoded-prefix 0) ∙ ap length doc.idle;
      whole = whole;
      prefixes = prefixes;
      small = omega (
        arith,
        length-spelled bytes doc.not_empty tokens,
        ap length (doc.lossless body tokens e),
        doc.wide body,
        r.fits,
      );
    }
