-- ===== src/Jobs/Payload.antt =====
-- lib/jobs.ts: `findSensitivityKey`. A payload is a tree: an object that is met again was scanned
-- without a find, so that the guard against cycles changes no answer on it.
use priority_kb.Base.{
  Text, lit, ℕ, suc, ◌+◌, Bool, true, false, ◌&&◌, ◌||◌, [], ◌∷◌, ◌++◌, Option, none, some, leb,
  ◌==◌, if◌then◌else◌,
}
use priority_kb.SynthInput.{decimal}

-- A JSON value: what is no object is a leaf.
mutual
  pub data Json : Type 0 where
    leaf : Json
    array : Items → Json
    object : Fields → Json

  pub data Items : Type 0 where
    no_items : Items
    item : Json → Items → Items

  pub data Fields : Type 0 where
    no_fields : Fields
    field : (key : Text) → Json → Fields → Fields

-- A unit as `/i` compares it: the letters of ASCII without case.
unfoldable pub lower : ℕ → ℕ
lower c = if leb 65 c && leb c 90 then c + 32 else c

unfoldable pub starts_with_word : Text → Text → Bool
unfolding lower
starts_with_word [] s = true
starts_with_word (c ∷ cs) [] = false
starts_with_word (c ∷ cs) (d ∷ s) = (lower d == c) && starts_with_word cs s

unfoldable pub has_word : Text → Text → Bool
unfolding starts_with_word
has_word word [] = starts_with_word word []
has_word word (c ∷ s) = starts_with_word word (c ∷ s) || has_word word s

-- `/sensitivity/i.test(k)`
unfoldable pub is_sensitivity_key : Text → Bool
unfolding has_word lit
is_sensitivity_key k = has_word (lit "sensitivity") k

-- The find in the rest, if the first part has none.
abbrev pub or_next : Option Text → Option Text → Option Text
or_next none next = next
or_next (some p) next = some p

unfoldable mutual
  unfolding is_sensitivity_key decimal lit

  pub find_sensitivity_key : Json → (path : Text) → Option Text
  find_sensitivity_key leaf path = none
  find_sensitivity_key (array xs) path = find_in_items xs path 0
  find_sensitivity_key (object fs) path = find_in_fields fs path

  pub find_in_items : Items → (path : Text) → (i : ℕ) → Option Text
  find_in_items no_items path i = none
  find_in_items (item v xs) path i =
      or_next (find_sensitivity_key v (path ++ (lit "[" ++ (decimal i ++ lit "]"))))
        (find_in_items xs path (suc i))

  pub find_in_fields : Fields → (path : Text) → Option Text
  find_in_fields no_fields path = none
  find_in_fields (field k v fs) path =
      let here = path ++ (lit "." ++ k) in
      if is_sensitivity_key k
      then some here
      else or_next (find_sensitivity_key v here) (find_in_fields fs path)
