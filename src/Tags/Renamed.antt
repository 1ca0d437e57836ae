-- ===== src/Tags/Renamed.antt =====
-- lib/tags.ts: `renameTag` and `deleteTag` against what they are to do to the tags.
use priority_kb.Base.{
  Text, text_eq, text_eq→eq, text_eq_comm, text_eq_refl, true, false, not, ◌||◌, List, [], ◌∷◌,
  none, some, some_inj, ◌&&◌, map, keep, ◌≡◌, refl, sym, ap, ◌∙◌, subst, Bool-cases, Option-cases,
  inl, inr, if◌then◌else◌, arith, includes, unique, includes-unique, In,
}
use mathlib.Core.Path.{fun_ext}
use priority_kb.Store.Rows.{tag_rename, tag_delete}
use priority_kb.Store.Sessions.{Outside, World}
use priority_kb.Store.Outcomes.{Quiet, Ends}
use priority_kb.Ingest.Entries.{Tools}
use priority_kb.Tags.Names.{
  to_field, tag_field, normalize_tag, validate_tag_strict, validate_tag_from_loose_length,
}
use priority_kb.Tags.Steps.{applied}
use priority_kb.Tags.Swept.{Settles}
use priority_kb.Tags.Runs.{Reports}
use priority_kb.Tags.Whole.{run_operation-Ends, noop-Ends}
use priority_kb.Tags.Operations.{
  rename_transform, delete_transform, rename_tag, delete_tag, run_operation,
}

-- Each `from` is `to`, listed once; the tags of an entry without `from`, or all where the two are the
-- same, stay.
unfoldable pub renamed : (from to : Text) → List Text → List Text
renamed from to tags =
    if text_eq to from
    then tags
    else if includes tags from
    then unique (map (λ t. if text_eq t from then to else t) tags)
    else tags

unfoldable pub deleted : (tag : Text) → List Text → List Text
deleted tag tags = keep (λ t. not (text_eq t tag)) tags

replaced-clean :
    (from to : Text) (tags : List Text)
    → text_eq to from ≡ false
    → includes (map (λ t. if text_eq t from then to else t) tags) from ≡ false
unfolding includes
replaced-clean from to [] h = refl
replaced-clean from to (t ∷ tags) h = ground (arith, replaced-clean from to tags h)

rename_transform-gone :
    (from to : Text) (tags : List Text)
    → text_eq to from ≡ false
    → includes (applied (rename_transform from to) tags) from ≡ false
unfolding rename_transform
rename_transform-gone from to tags h = elim (Bool-cases (includes tags from)) [
  | inl e ↦ rw (e, rename_transform) (includes-unique _ from ∙ replaced-clean from to tags h)
  | inr e ↦ rw (e, rename_transform) e
]

rename_transform-idle :
    (from to : Text) (tags : List Text)
    → includes tags from ≡ false
    → applied (rename_transform from to) tags ≡ tags
unfolding rename_transform
rename_transform-idle from to tags h = rw (h, rename_transform) refl

rename_transform-Settles :
    (from to : Text) → text_eq to from ≡ false → Settles (rename_transform from to)
rename_transform-Settles from to h tags =
    rename_transform-idle from to (applied (rename_transform from to) tags)
      (rename_transform-gone from to tags h)

renamed-applied :
    (from to : Text) (tags : List Text)
    → text_eq to from ≡ false
    → renamed from to tags ≡ applied (rename_transform from to) tags
unfolding renamed rename_transform
renamed-applied from to tags h = elim (Bool-cases (includes tags from)) [
  | inl e ↦ rw (h, e, renamed, rename_transform) refl
  | inr e ↦ rw (h, e, renamed, rename_transform) refl
]

renamed-gone :
    (from to : Text) (tags : List Text)
    → text_eq to from ≡ false
    → includes (renamed from to tags) from ≡ false
renamed-gone from to tags h =
    ap (λ l. includes l from) (renamed-applied from to tags h)
    ∙ rename_transform-gone from to tags h

replaced-there :
    (from to : Text) (tags : List Text)
    → In tags from
    → In (map (λ t. if text_eq t from then to else t) tags) to
unfolding includes
replaced-there from to [] h = cc
replaced-there from to (t ∷ tags) h = ground (arith, replaced-there from to tags, text_eq_refl to)

replaced-others :
    (from to : Text) (tags : List Text) (t : Text)
    → text_eq from t ≡ false
    → includes (map (λ x. if text_eq x from then to else x) tags) t
      ≡ (includes tags t || (includes tags from && text_eq to t))
unfolding includes
replaced-others from to [] t h = refl
replaced-others from to (x ∷ tags) t h =
    let rest = replaced-others from to tags t h in
    ground (arith, rest, text_eq→eq x from, text_eq→eq x t, text_eq_comm from t)

-- New tags that the transform of a rename to another tag gives do not list the old one, list the new
-- one, and of all other tags list those that were listed.
pub rename_transform-replaces :
    (from to : Text) (tags new : List Text)
    → text_eq to from ≡ false
    → rename_transform from to tags ≡ some new
    → (includes new from ≡ false)
      × In new to
      × ((t : Text) → text_eq from t ≡ false → includes new t ≡ (includes tags t || text_eq to t))
unfolding rename_transform
rename_transform-replaces from to tags new h e = elim (Bool-cases (includes tags from)) [
  | inr m ↦ absurd (cc (rw (m, rename_transform) at e))
  | inl m ↦
      let listed = map (λ x. if text_eq x from then to else x) tags in
      let made : some (unique listed) ≡ some new = rw (m, rename_transform) at e in
      let same : unique listed ≡ new = some_inj.0 made in
      let all : (t : Text) → includes new t ≡ includes listed t =
        λ t. ap (λ l. includes l t) (sym same) ∙ includes-unique listed t in
      (
        all from ∙ replaced-clean from to tags h,
        all to ∙ replaced-there from to tags m,
        λ t a. all t ∙ replaced-others from to tags t a ∙ rw m refl,
      )
]

kept-clean : (tag : Text) (tags : List Text) → includes (deleted tag tags) tag ≡ false
unfolding includes deleted
kept-clean tag [] = refl
kept-clean tag (t ∷ tags) = ground (arith, kept-clean tag tags)

kept-idle : (tag : Text) (tags : List Text) → includes tags tag ≡ false → deleted tag tags ≡ tags
unfolding includes deleted
kept-idle tag [] h = refl
kept-idle tag (t ∷ tags) h = ground (arith, kept-idle tag tags)

deleted-applied :
    (tag : Text) (tags : List Text) → deleted tag tags ≡ applied (delete_transform tag) tags
unfolding delete_transform deleted
deleted-applied tag tags = elim (Bool-cases (includes tags tag)) [
  | inl e ↦ rw (e, delete_transform) refl
  | inr e ↦ rw (e, delete_transform) (unfold deleted in (kept-idle tag tags e))
]

delete_transform-idle :
    (tag : Text) (tags : List Text)
    → includes tags tag ≡ false
    → applied (delete_transform tag) tags ≡ tags
unfolding delete_transform
delete_transform-idle tag tags h = rw (h, delete_transform) refl

delete_transform-Settles : (tag : Text) → Settles (delete_transform tag)
delete_transform-Settles tag tags =
    delete_transform-idle tag (applied (delete_transform tag) tags)
      (ap (λ l. includes l tag) (sym (deleted-applied tag tags)) ∙ kept-clean tag tags)

renamed-same :
    (from to : Text) (tags : List Text) → text_eq to from ≡ true → tags ≡ renamed from to tags
unfolding renamed
renamed-same from to tags e = rw (e, renamed) refl

module _ {V K : Type 0} (out : Outside V) (tools : Tools K) (quiet : Quiet out) where
  rename_run :
      (f t : Text) (w : World V)
      → Ends
          (run_operation out tools tag_rename
            (f ∷ [])
            (some t)
            (text_eq t f)
            (λ tags. includes tags f)
            (rename_transform f t)
            w)
          (Reports (renamed f t) w.tables)
          (λ s. s ≡ w.tables)
  rename_run f t w = elim (Bool-cases (text_eq t f)) [
    | inl e ↦
        subst
          (λ g.
            Ends
              (run_operation out tools tag_rename (f ∷ []) (some t) (text_eq t f)
                (λ tags. includes tags f) (rename_transform f t) w)
              (Reports g w.tables) (λ s. s ≡ w.tables))
          (fun_ext (λ tags. renamed-same f t tags e))
          (rw e (
            noop-Ends out tools tag_rename (f ∷ []) (some t) (λ tags. includes tags f)
              (rename_transform f t) w quiet refl))
    | inr e ↦
        run_operation-Ends out tools quiet (renamed f t) (λ tags. includes tags f)
          (rename_transform f t) (rename_transform-Settles f t e) (rename_transform-idle f t)
          tag_rename (f ∷ []) (some t) (text_eq t f) w refl (λ d tags. cc)
          (λ d tags. renamed-applied f t tags e)
  ]

  -- While no other session writes, a rename that returns has logged one operation and changed no
  -- sensitivity and, unless it reports a failure, replaced the tag in the tags of every entry; a
  -- refused one, and one that throws, changes nothing.
  pub rename_tag-Ends :
      (from to : Text) (w : World V)
      → Ends
          (rename_tag out tools from to w)
          (Reports (renamed (normalize_tag tools.nfc from) (normalize_tag tools.nfc to)) w.tables)
          (λ t. t ≡ w.tables)
  unfolding rename_tag
  rename_tag-Ends from to w =
      let f = normalize_tag tools.nfc from in
      let t = normalize_tag tools.nfc to in
      elim (Option-cases (validate_tag_from_loose_length f)) [
        | inr (x, e) ↦ rw (e, rename_tag) refl
        | inl e ↦ elim (Option-cases (validate_tag_strict t to_field)) [
          | inr (x, d) ↦ rw (e, d, rename_tag) refl
          | inl d ↦ rw (e, d, rename_tag) (rename_run f t w)
        ]
      ]

  -- While no other session writes, a delete that returns has logged one operation and changed no
  -- sensitivity and, unless it reports a failure, taken the tag from the tags of every entry; a
  -- refused one, and one that throws, changes nothing.
  pub delete_tag-Ends :
      (tag : Text) (w : World V)
      → Ends
          (delete_tag out tools tag w)
          (Reports (deleted (normalize_tag tools.nfc tag)) w.tables)
          (λ t. t ≡ w.tables)
  unfolding delete_tag
  delete_tag-Ends tag w =
      let n = normalize_tag tools.nfc tag in
      elim (Option-cases (validate_tag_strict n tag_field)) [
        | inr (x, e) ↦ rw (e, delete_tag) refl
        | inl e ↦
            rw (e, delete_tag)
              (run_operation-Ends out tools quiet (deleted n) (λ tags. includes tags n)
                (delete_transform n) (delete_transform-Settles n) (delete_transform-idle n)
                tag_delete (n ∷ []) none false w refl (λ d tags. cc)
                (λ d tags. deleted-applied n tags))
      ]
