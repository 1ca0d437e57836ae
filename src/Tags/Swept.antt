-- ===== src/Tags/Swept.antt =====
-- lib/tags.ts: the tables in the middle of a loop over the entries.
use priority_kb.Base.{
  Text, text_eq, text_eq→eq, eq→text_eq, Bool, false, List, ◌∷◌, Option, none, some, option_map,
  ◌≡◌, ◌⊎◌, refl, sym, ap, ◌∙◌, subst, Bool-cases, Option-cases, inl, inr, arith, In, In-cons_inv,
}
use priority_kb.Store.Rows.{EntryRow, Tables, entry_by_id, ids_where}
use priority_kb.Store.Lookups.{ids_where-In}
use priority_kb.Tags.Steps.{applied, tags_at, Same, Same-refl, Same-trans, Step}
use priority_kb.Tags.Operations.{Transform}

-- The entries still to come are as they were; all others are transformed.
pub record Swept {V : Type 0} (f : Transform) (t0 : Tables V) (ids : List Text) (t : Tables V)
    : Type 0 where
  pub each :
      (i : Text)
      → (tags_at t i ≡ option_map (applied f) (tags_at t0 i))
        ⊎ ((tags_at t i ≡ tags_at t0 i) × In ids i)
  pub same : Same t0 t

-- Twice is once.
abbrev pub Settles : Transform → Type 0
Settles f = (tags : List Text) → applied f (applied f tags) ≡ applied f tags

twice :
    (f : Transform)
    → Settles f
    → (o : Option (List Text))
    → option_map (applied f) (option_map (applied f) o) ≡ option_map (applied f) o
twice f settles none = refl
twice f settles (some tags) = ap some (settles tags)

module _ {V : Type 0} (f : Transform) (settles : Settles f) where
  pub Swept-Step :
      (t0 t t' : Tables V) (id : Text) (ids : List Text)
      → Swept f t0 (id ∷ ids) t
      → Step f id t t'
      → Swept f t0 ids t'
  Swept-Step t0 t t' id ids h s = record {
    each = λ i. elim (Bool-cases (text_eq id i)) [
      | inl a ↦
          subst
            (λ j.
              (tags_at t' j ≡ option_map (applied f) (tags_at t0 j))
              ⊎ ((tags_at t' j ≡ tags_at t0 j) × In ids j))
            (text_eq→eq id i a) (inl (settled (h.each id)))
      | inr a ↦ passed i a (h.each i)
    ];
    same = Same-trans t0 t t' h.same s.same;
  }
    where
      settled :
          (tags_at t id ≡ option_map (applied f) (tags_at t0 id))
            ⊎ ((tags_at t id ≡ tags_at t0 id) × In (id ∷ ids) id)
          → tags_at t' id ≡ option_map (applied f) (tags_at t0 id)
      settled (inl e) = s.here ∙ ap (option_map (applied f)) e ∙ twice f settles (tags_at t0 id)
      settled (inr (e, m)) = s.here ∙ ap (option_map (applied f)) e

      later : (i : Text) → text_eq id i ≡ false → (id ≡ i) ⊎ In ids i → In ids i
      later i a (inl e) = let b = eq→text_eq id i e in ground arith
      later i a (inr m) = m

      passed :
          (i : Text)
          → text_eq id i ≡ false
          → (tags_at t i ≡ option_map (applied f) (tags_at t0 i))
            ⊎ ((tags_at t i ≡ tags_at t0 i) × In (id ∷ ids) i)
          → (tags_at t' i ≡ option_map (applied f) (tags_at t0 i))
            ⊎ ((tags_at t' i ≡ tags_at t0 i) × In ids i)
      passed i a (inl e) = inl (s.there i a ∙ e)
      passed i a (inr (e, m)) = inr (s.there i a ∙ e, later i a (In-cons_inv id ids i m))

  -- At the start, the listed entries are all that the transform can change.
  pub Swept-start :
      (t : Tables V) (p : List Text → Bool)
      → ((tags : List Text) → p tags ≡ false → applied f tags ≡ tags)
      → Swept f t (ids_where p t.entries) t
  Swept-start t p idle = record {
    each = λ i. listed i (Option-cases (entry_by_id t.entries i));
    same = Same-refl t;
  }
    where
      listed :
          (i : Text)
          → (entry_by_id t.entries i ≡ none) ⊎ ((e : EntryRow) × (entry_by_id t.entries i ≡ some e))
          → (tags_at t i ≡ option_map (applied f) (tags_at t i))
            ⊎ ((tags_at t i ≡ tags_at t i) × In (ids_where p t.entries) i)
      listed i (inl h) = inl (rw h refl)
      listed i (inr (e, h)) = elim (Bool-cases (p e.tags)) [
        | inl q ↦ inr (refl, ids_where-In p t.entries i e h q)
        | inr q ↦ inl (rw h (ap some (sym (idle e.tags q))))
      ]
