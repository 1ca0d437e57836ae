-- ===== src/Jobs/Scan.antt =====
-- lib/jobs.ts: the scan finds a key exactly when there is one.
use priority_kb.Base.{
  Text, lit, ℕ, suc, ◌+◌, true, false, List, [], ◌∷◌, ◌++◌, Option, none, some, All, All-append,
  All-map, ◌≡◌, ◌↔◌, ◌⊎◌, refl, ap, Bool-cases, &&-eq-true, inl, inr, arith, leb, ◌&&◌, ◌==◌,
}
use priority_kb.SynthInput.{decimal}
use priority_kb.Jobs.Payload.{
  Json, leaf, array, object, Items, no_items, item, Fields, no_fields, field, lower,
  starts_with_word, has_word, is_sensitivity_key, or_next, find_sensitivity_key, find_in_items,
  find_in_fields,
}

-- The keys of the objects of a value, at every depth.
mutual
  pub keys : Json → List Text
  keys leaf = []
  keys (array xs) = keys_of_items xs
  keys (object fs) = keys_of_fields fs

  pub keys_of_items : Items → List Text
  keys_of_items no_items = []
  keys_of_items (item v xs) = keys v ++ keys_of_items xs

  pub keys_of_fields : Fields → List Text
  keys_of_fields no_fields = []
  keys_of_fields (field k v fs) = k ∷ keys v ++ keys_of_fields fs

-- A unit of a key is the letter, or its capital.
abbrev pub Letter : ℕ → ℕ → Type 0
Letter c d = (d ≡ c) ⊎ (d + 32 ≡ c)

-- A text spells a word, in any case of its letters.
abbrev pub Spells : Text → Text → Type 0
Spells [] [] = Unit
Spells [] (d ∷ s) = ⊥
Spells (c ∷ cs) [] = ⊥
Spells (c ∷ cs) (d ∷ s) = Letter c d × Spells cs s

-- A text has the word somewhere.
abbrev pub Mentions : Text → Text → Type 0
Mentions word k =
    (before : Text) × (middle : Text) × (behind : Text) × (k ≡ before ++ (middle ++ behind))
    × Spells word middle

-- A word of small letters.
abbrev IsSmall : Text → Type 0
IsSmall word = All (λ c. (leb 97 c && leb c 122) ≡ true) word

lower-Letter : (c d : ℕ) → (leb 97 c && leb c 122) ≡ true → ((lower d == c) ≡ true) ↔ Letter c d
unfolding lower
lower-Letter c d h = ground arith

starts_with_word-Spells :
    (cs s : Text)
    → IsSmall cs
    → starts_with_word cs s ≡ true
    → (middle : Text) × (behind : Text) × (s ≡ middle ++ behind) × Spells cs middle
unfolding starts_with_word
starts_with_word-Spells [] s h k = ([], s, refl, tt)
starts_with_word-Spells (c ∷ cs) [] h k = absurd (cc)
starts_with_word-Spells (c ∷ cs) (d ∷ s) h k =
    let both = &&-eq-true (lower d == c) (starts_with_word cs s) k in
    let (middle, behind, e, r) = starts_with_word-Spells cs s h.1 both.1 in
    (d ∷ middle, behind, ap (◌∷◌ d) e, ((lower-Letter c d h.0).0 both.0, r))

Spells-starts_with_word :
    (cs middle behind : Text)
    → IsSmall cs
    → Spells cs middle
    → starts_with_word cs (middle ++ behind) ≡ true
unfolding starts_with_word
Spells-starts_with_word [] middle behind h k = refl
Spells-starts_with_word (c ∷ cs) [] behind h k = absurd k
Spells-starts_with_word (c ∷ cs) (d ∷ middle) behind h k =
    rw ((lower-Letter c d h.0).1 k.0, Spells-starts_with_word cs middle behind h.1 k.1) refl

has_word-Mentions : (cs k : Text) → IsSmall cs → has_word cs k ≡ true → Mentions cs k
unfolding has_word
has_word-Mentions cs [] h e =
    let (middle, behind, same, spelt) = starts_with_word-Spells cs [] h e in
    ([], middle, behind, same, spelt)
has_word-Mentions cs (d ∷ s) h e = elim (Bool-cases (starts_with_word cs (d ∷ s))) [
  | inl t ↦
      let (middle, behind, same, spelt) = starts_with_word-Spells cs (d ∷ s) h t in
      ([], middle, behind, same, spelt)
  | inr f ↦
      let (before, middle, behind, same, spelt) =
        has_word-Mentions cs s h (rw (f, has_word) at e) in
      (d ∷ before, middle, behind, ap (◌∷◌ d) same, spelt)
]

Mentions-has_word :
    (cs before middle behind : Text)
    → IsSmall cs
    → Spells cs middle
    → has_word cs (before ++ (middle ++ behind)) ≡ true
unfolding has_word
Mentions-has_word cs [] middle behind h k =
    at_start (middle ++ behind) (Spells-starts_with_word cs middle behind h k)
  where
    at_start : (s : Text) → starts_with_word cs s ≡ true → has_word cs s ≡ true
    at_start [] e = e
    at_start (d ∷ s) e = rw (e, has_word) refl
Mentions-has_word cs (d ∷ before) middle behind h k =
    let rest = Mentions-has_word cs before middle behind h k in ground (arith, rest)

word-IsSmall : IsSmall (lit "sensitivity")
unfolding lit
word-IsSmall =
    (refl, (refl, (refl, (refl, (refl, (refl, (refl, (refl, (refl, (refl, (refl, tt)))))))))))

-- The test of a key against an independent description of it.
is_sensitivity_key-Mentions :
    (k : Text) → (is_sensitivity_key k ≡ false) ↔ (¬ (Mentions (lit "sensitivity") k))
unfolding is_sensitivity_key
is_sensitivity_key-Mentions k = (
  λ e (before, middle, behind, same, spelt).
      let found = Mentions-has_word (lit "sensitivity") before middle behind word-IsSmall spelt in
      absurd (cc (e, found, same)),
  λ unnamed. elim (Bool-cases (has_word (lit "sensitivity") k)) [
    | inl e ↦ absurd (unnamed (has_word-Mentions (lit "sensitivity") k word-IsSmall e))
    | inr e ↦ e
  ],
)

or_next-none : (a b : Option Text) → or_next a b ≡ none → (a ≡ none) × (b ≡ none)
or_next-none none b h = (refl, h)
or_next-none (some p) b h = absurd (cc)

All-left : (P : Text → Type 0) (xs ys : List Text) → All P (xs ++ ys) → All P xs
All-left P [] ys h = tt
All-left P (x ∷ xs) ys h = (h.0, All-left P xs ys h.1)

All-right : (P : Text → Type 0) (xs ys : List Text) → All P (xs ++ ys) → All P ys
All-right P [] ys h = h
All-right P (x ∷ xs) ys h = All-right P xs ys h.1

abbrev Free : Text → Type 0
Free k = is_sensitivity_key k ≡ false

-- The two directions, for values, items and fields.
mutual
  unfolding find_sensitivity_key find_in_items find_in_fields keys keys_of_items keys_of_fields

  Clean-none : (v : Json) (path : Text) → All Free (keys v) → find_sensitivity_key v path ≡ none
  Clean-none leaf path h = refl
  Clean-none (array xs) path h = CleanItems-none xs path 0 h
  Clean-none (object fs) path h = CleanFields-none fs path h

  CleanItems-none :
      (xs : Items) (path : Text) (i : ℕ)
      → All Free (keys_of_items xs)
      → find_in_items xs path i ≡ none
  CleanItems-none no_items path i h = refl
  CleanItems-none (item v xs) path i h =
      rw
        (Clean-none v (path ++ (lit "[" ++ (decimal i ++ lit "]")))
          (All-left Free (keys v) (keys_of_items xs) h))
        (CleanItems-none xs path (suc i) (All-right Free (keys v) (keys_of_items xs) h))

  CleanFields-none :
      (fs : Fields) (path : Text) → All Free (keys_of_fields fs) → find_in_fields fs path ≡ none
  CleanFields-none no_fields path h = refl
  CleanFields-none (field k v fs) path (h, hs) =
      rw (h, Clean-none v (path ++ (lit "." ++ k)) (All-left Free (keys v) (keys_of_fields fs) hs))
        (CleanFields-none fs path (All-right Free (keys v) (keys_of_fields fs) hs))

mutual
  unfolding find_sensitivity_key find_in_items find_in_fields keys keys_of_items keys_of_fields

  none-Clean : (v : Json) (path : Text) → find_sensitivity_key v path ≡ none → All Free (keys v)
  none-Clean leaf path h = tt
  none-Clean (array xs) path h = none-CleanItems xs path 0 h
  none-Clean (object fs) path h = none-CleanFields fs path h

  none-CleanItems :
      (xs : Items) (path : Text) (i : ℕ)
      → find_in_items xs path i ≡ none
      → All Free (keys_of_items xs)
  none-CleanItems no_items path i h = tt
  none-CleanItems (item v xs) path i h =
      let (a, b) = or_next-none _ _ h in
      All-append Free (keys v) (keys_of_items xs)
        (none-Clean v (path ++ (lit "[" ++ (decimal i ++ lit "]"))) a)
        (none-CleanItems xs path (suc i) b)

  none-CleanFields :
      (fs : Fields) (path : Text) → find_in_fields fs path ≡ none → All Free (keys_of_fields fs)
  none-CleanFields no_fields path h = tt
  none-CleanFields (field k v fs) path h = elim (Bool-cases (is_sensitivity_key k)) [
    | inl e ↦ absurd (cc (rw (e, find_in_fields) at h))
    | inr e ↦
        let (a, b) = or_next-none _ _ (rw (e, find_in_fields) at h) in
        (
          e,
          All-append Free (keys v) (keys_of_fields fs) (none-Clean v (path ++ (lit "." ++ k)) a)
              (none-CleanFields fs path b),
        )
  ]

-- No key of an object at any depth has the word in it.
abbrev pub Clean : Json → Type 0
Clean v = All (λ k. ¬ (Mentions (lit "sensitivity") k)) (keys v)

-- The scan of a payload finds no key exactly when no key of an object at any depth has the word in
-- it, with each letter small or capital.
pub find_sensitivity_key-none_iff :
    (v : Json) (path : Text) → (find_sensitivity_key v path ≡ none) ↔ Clean v
find_sensitivity_key-none_iff v path = (
  λ h.
      All-map Free (λ k. ¬ (Mentions (lit "sensitivity") k))
        (λ k. (is_sensitivity_key-Mentions k).0) (keys v) (none-Clean v path h),
  λ h. Clean-none v path (
      All-map (λ k. ¬ (Mentions (lit "sensitivity") k)) Free
        (λ k. (is_sensitivity_key-Mentions k).1) (keys v) h),
)
