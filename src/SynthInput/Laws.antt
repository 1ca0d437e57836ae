-- ===== src/SynthInput/Laws.antt =====
-- What the escaping of lib/retrieval-synth-input.ts leaves.
use priority_kb.Base.{
  Text, lit, ℕ, ◌==◌, ==_iff, [], ◌∷◌, ◌++◌, append_assoc, if◌then◌else◌, ◌≡◌, refl, sym, ap, ◌∙◌,
  Bool-cases, inl, inr,
}
use priority_kb.SynthInput.Escape.{replace_all, escape_xml_text, escape_attribute}

replace_all-append :
    (c : ℕ) (by s t : Text) → replace_all c by (s ++ t) ≡ replace_all c by s ++ replace_all c by t
unfolding replace_all
replace_all-append c by [] t = refl
replace_all-append c by (d ∷ s) t =
    ap (λ r. (if d == c then by else d ∷ []) ++ r) (replace_all-append c by s t)
    ∙ sym (append_assoc (if d == c then by else d ∷ []) (replace_all c by s) (replace_all c by t))

-- The entity of one code unit, or the unit itself.
unfoldable pub entity : ℕ → Text
entity c =
    if c == b'&'
    then lit "&amp;"
    else if c == b'<'
    then lit "&lt;"
    else if c == b'>'
    then lit "&gt;"
    else if c == b'"'
    then lit "&quot;"
    else if c == b'\''
    then lit "&apos;"
    else c ∷ []

unfoldable pub entities : Text → Text
unfolding entity
entities [] = []
entities (c ∷ s) = entity c ++ entities s

escape_attribute-append :
    (s t : Text) → escape_attribute (s ++ t) ≡ escape_attribute s ++ escape_attribute t
unfolding escape_attribute escape_xml_text
escape_attribute-append s t =
    rw
      (
        replace_all-append, replace_all-append, replace_all-append, replace_all-append,
        replace_all-append,
      )
      refl

escape_attribute-one : (c : ℕ) → escape_attribute (c ∷ []) ≡ entity c
unfolding escape_attribute escape_xml_text entity replace_all lit
escape_attribute-one c = elim (Bool-cases (c == b'&')) [
  | inl e ↦ rw ((==_iff c b'&').0 e) refl
  | inr e1 ↦ elim (Bool-cases (c == b'<')) [
    | inl e ↦ rw ((==_iff c b'<').0 e) refl
    | inr e2 ↦ elim (Bool-cases (c == b'>')) [
      | inl e ↦ rw ((==_iff c b'>').0 e) refl
      | inr e3 ↦ elim (Bool-cases (c == b'"')) [
        | inl e ↦ rw ((==_iff c b'"').0 e) refl
        | inr e4 ↦ elim (Bool-cases (c == b'\'')) [
          | inl e ↦ rw ((==_iff c b'\'').0 e) refl
          | inr e5 ↦ simp (e1, e2, e3, e4, e5)
        ]
      ]
    ]
  ]
]

-- The five replacements in a row are one pass that replaces each code unit by its entity.
pub escape_attribute-eq-entities : (s : Text) → escape_attribute s ≡ entities s
unfolding entities escape_attribute escape_xml_text replace_all
escape_attribute-eq-entities [] = refl
escape_attribute-eq-entities (c ∷ s) =
    escape_attribute-append (c ∷ []) s
    ∙ ap (λ r. r ++ escape_attribute s) (escape_attribute-one c)
    ∙ ap (◌++◌ (entity c)) (escape_attribute-eq-entities s)
