-- ===== src/Store/Lookups.antt =====
-- The rows that a lookup finds after a write.
use priority_kb.Base.{
  Text, text_eq, text_eq→eq, text_eq_refl, true, false, ◌||◌, List, [], ◌∷◌, some, some_inj, ◌≡◌,
  refl, ◌∙◌, Bool-cases, inl, inr, arith, includes, In, Bool, ap,
}
use priority_kb.Store.Rows.{EntryRow, entry_by_id, set_entry, insert_id, ids_where}

pub set_entry-same :
    (entries : List EntryRow) (row e : EntryRow)
    → entry_by_id entries row.id ≡ some e
    → entry_by_id (set_entry entries row.id (λ _. row)) row.id ≡ some row
unfolding set_entry entry_by_id
set_entry-same [] row e h = absurd (cc)
set_entry-same (x ∷ entries) row e h =
    ground (arith, set_entry-same entries row e, text_eq_refl row.id)

pub set_entry-other :
    (entries : List EntryRow) (row : EntryRow) (id : Text)
    → text_eq row.id id ≡ false
    → entry_by_id (set_entry entries row.id (λ _. row)) id ≡ entry_by_id entries id
unfolding set_entry entry_by_id
set_entry-other [] row id h = refl
set_entry-other (x ∷ entries) row id h =
    ground (arith, text_eq→eq x.id row.id, set_entry-other entries row id h)

includes-insert_id :
    (x : Text) (ys : List Text) (t : Text)
    → includes (insert_id x ys) t ≡ (text_eq x t || includes ys t)
unfolding insert_id includes
includes-insert_id x [] t = refl
includes-insert_id x (y ∷ ys) t = ground (arith, includes-insert_id x ys t)

-- An entry that is found and passes the test is listed.
pub ids_where-In :
    (p : List Text → Bool) (es : List EntryRow) (id : Text) (e : EntryRow)
    → entry_by_id es id ≡ some e
    → p e.tags ≡ true
    → In (ids_where p es) id
unfolding entry_by_id ids_where
ids_where-In p [] id e h k = absurd (cc)
ids_where-In p (x ∷ es) id e h k = elim (Bool-cases (text_eq x.id id)) [
  | inl a ↦
      let same : some x ≡ some e = rw (a, entry_by_id) at h in
      let passes : p x.tags ≡ true = ap (λ y. p y.tags) (some_inj.0 same) ∙ k in
      rw (passes, ids_where)
        (includes-insert_id x.id (ids_where p es) id
          ∙ ap (λ b. b || includes (ids_where p es) id) a)
  | inr a ↦
      let rest = ids_where-In p es id e (rw (a, entry_by_id) at h) k in
      elim (Bool-cases (p x.tags)) [
        | inl q ↦
            rw (q, ids_where)
              (includes-insert_id x.id (ids_where p es) id
                ∙ ap (λ b. b || includes (ids_where p es) id) a
                ∙ rest)
        | inr q ↦ rw (q, ids_where) rest
      ]
]
