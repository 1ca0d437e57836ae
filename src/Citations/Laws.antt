-- ===== src/Citations/Laws.antt =====
-- What `validateCitations` accepts.
use priority_kb.Base.{
  Text, trim, trim_end, includes, Subset, Distinct, All, All-map, keep-nil_iff, keep-unique-nil_iff,
  Bool, true, false, not, List, [], ◌∷◌, ◌++◌, length, take, drop, some, ◌≡◌, ◌≢◌, ◌≤◌, refl, sym,
  ◌∙◌, ◌↔◌, inl, inr, arith, Bool-cases, Option-cases, text_eq_comm, Subset-refl,
}
use priority_kb.Citations.Blocks.{normalize, all_blocks, is_uuid_v4}
use priority_kb.Citations.Validate.{
  valid, SourcesBlock, parse_sources_block, extract_inline_citations, repeated, verdict, check_ids,
  check_block, validate_citations,
}

-- Ids that are neither `x` nor in `seen`.
All-new_iff :
    (x : Text) (seen ids : List Text)
    → All (λ y. includes (x ∷ seen) y ≡ false) ids
      ↔ ((includes ids x ≡ false) × All (λ y. includes seen y ≡ false) ids)
unfolding includes
All-new_iff x seen [] = (λ h. (refl, tt), λ h. tt)
All-new_iff x seen (y ∷ ids) = (
  λ h. let rest = (All-new_iff x seen ids).0 h.1 in ground (arith, rest, h.0, text_eq_comm x y),
  λ h. (ground (arith, text_eq_comm x y), (All-new_iff x seen ids).1 (ground arith, h.1.1)),
)

repeated-nil_iff :
    (seen ids : List Text)
    → (repeated seen ids ≡ []) ↔ (Distinct ids × All (λ x. includes seen x ≡ false) ids)
unfolding repeated
repeated-nil_iff seen [] = (λ h. (tt, tt), λ h. refl)
repeated-nil_iff seen (x ∷ ids) =
    let later = repeated-nil_iff (x ∷ seen) ids in
    let new = All-new_iff x seen ids in
    elim (Bool-cases (includes seen x)) [
      | inl e ↦ (λ h. cc (rw (e, repeated) at h), λ h. cc (h.1.0))
      | inr e ↦ (
        λ h.
            let (d, n) = later.0 (rw (e, repeated) at h) in
            let (f, m) = new.0 n in ((f, d), (e, m)),
        λ h. rw (e, repeated) (later.1 (h.0.1, new.1 (h.0.0, h.1.1))),
      )
    ]

-- The ids of a block and the inline citations are as the prompt demands.
pub record AreCited (reranked_ids ids inline : List Text) : Type 0 where
  pub well_formed : All (λ id. is_uuid_v4 id ≡ true) (ids ++ inline)
  pub distinct : Distinct ids
  pub known : Subset ids reranked_ids
  pub inline_listed : Subset inline ids
  pub listed_inline : Subset ids inline

not-eq-false : {b : Bool} → not b ≡ false → b ≡ true
not-eq-false {b} h = ground arith

not-eq-true : {b : Bool} → b ≡ true → not b ≡ false
not-eq-true {b} h = ground arith

verdict-valid :
    {bad dups strange inline_only sources_only ids : List Text} {body : Text}
    → (verdict bad dups strange inline_only sources_only ids body ≡ valid ids body)
      ↔ ((bad ≡ []) × (dups ≡ []) × (strange ≡ []) × (inline_only ≡ []) × (sources_only ≡ []))
unfolding verdict
verdict-valid {bad} {dups} {strange} {inline_only} {sources_only} =
    (λ h. ground arith, λ h. ground arith)

check_ids-valid :
    (ids inline reranked_ids : List Text) (body : Text)
    → (check_ids ids inline reranked_ids body ≡ valid ids body) ↔ AreCited reranked_ids ids inline
unfolding check_ids includes
check_ids-valid ids inline reranked_ids body = (
  λ h.
      let (bad, dups, strange, inline_only, sources_only) = verdict-valid.0 h in
      record {
        well_formed =
            All-map _ _ (λ x. not-eq-false) _
              ((keep-unique-nil_iff (λ id. not (is_uuid_v4 id)) (ids ++ inline)).0 bad);
        distinct = ((repeated-nil_iff [] ids).0 dups).0;
        known =
            All-map _ _ (λ x. not-eq-false) _
              ((keep-nil_iff (λ id. not (includes reranked_ids id)) ids).0 strange);
        inline_listed =
            All-map _ _ (λ x. not-eq-false) _
              ((keep-unique-nil_iff (λ id. not (includes ids id)) inline).0 inline_only);
        listed_inline =
            All-map _ _ (λ x. not-eq-false) _
              ((keep-unique-nil_iff (λ id. not (includes inline id)) ids).0 sources_only);
      },
  λ c. verdict-valid.1 (
    (keep-unique-nil_iff _ (ids ++ inline)).1 (All-map _ _ (λ x. not-eq-true) _ c.well_formed),
    (repeated-nil_iff [] ids).1 (c.distinct, All-map _ _ (λ x u. refl) _ (Subset-refl ids)),
    (keep-nil_iff _ ids).1 (All-map _ _ (λ x. not-eq-true) _ c.known),
    (keep-unique-nil_iff _ inline).1 (All-map _ _ (λ x. not-eq-true) _ c.inline_listed),
    (keep-unique-nil_iff _ ids).1 (All-map _ _ (λ x. not-eq-true) _ c.listed_inline),
  ),
)

check_ids-ids :
    (xs inline reranked_ids ids : List Text) (before body : Text)
    → check_ids xs inline reranked_ids before ≡ valid ids body
    → (xs ≡ ids) × (before ≡ body)
unfolding check_ids verdict
check_ids-ids xs inline reranked_ids ids before body h = ground arith

-- The early returns of steps 2 to 4.
check_block-inv :
    (normalized : Text) (reranked_ids : List Text) (b : SourcesBlock) (ids : List Text)
    (body : Text)
    → check_block normalized reranked_ids b ≡ valid ids body
    → (length (all_blocks normalized) ≤ 1)
      × (trim (drop b.match_end normalized) ≡ [])
      × (b.ids ≢ [])
      × (check_ids b.ids
            (extract_inline_citations normalized)
            reranked_ids
            (trim_end (take b.match_start normalized))
          ≡ valid ids body)
unfolding check_block
check_block-inv normalized reranked_ids b ids body h = ground arith

check_block-step :
    (normalized : Text) (reranked_ids : List Text) (b : SourcesBlock)
    → length (all_blocks normalized) ≤ 1
    → trim (drop b.match_end normalized) ≡ []
    → b.ids ≢ []
    → check_block normalized reranked_ids b
      ≡ check_ids b.ids
          (extract_inline_citations normalized)
          reranked_ids
          (trim_end (take b.match_start normalized))
unfolding check_block
check_block-step normalized reranked_ids b h k n = ground arith

-- What the prompt asks of an answer: one Sources block at its end, with ids that are distinct
-- version 4 UUIDs, were handed to the synthesizer, and are the ids that the text cites.
pub record IsCited (answer : Text) (reranked_ids ids : List Text) (body : Text) : Type 0 where
  pub block : SourcesBlock
  pub parsed : parse_sources_block (normalize answer) ≡ some block
  pub single : length (all_blocks (normalize answer)) ≤ 1
  pub at_end : trim (drop block.match_end (normalize answer)) ≡ []
  pub listed : block.ids ≡ ids
  pub some_source : ids ≢ []
  pub cited : AreCited reranked_ids ids (extract_inline_citations (normalize answer))
  pub body_before : trim_end (take block.match_start (normalize answer)) ≡ body

-- An answer is accepted, with these ids and this body, exactly when it has one Sources block, with
-- only white space behind it, that lists these ids, at least one, distinct, all of them handed to
-- the synthesizer and the same as the inline citations as sets, all listed and cited ids being
-- version 4 UUIDs, and the body is the text before the block without white space at its end.
pub validate_citations-valid_iff :
    (answer : Text) (reranked_ids ids : List Text) (body : Text)
    → (validate_citations answer reranked_ids ≡ valid ids body)
      ↔ IsCited answer reranked_ids ids body
unfolding validate_citations
validate_citations-valid_iff answer reranked_ids ids body = (accepted, complete)
  where
    text : Text
    text = normalize answer

    accepted_block :
        (b : SourcesBlock)
        → parse_sources_block text ≡ some b
        → check_block text reranked_ids b ≡ valid ids body
        → IsCited answer reranked_ids ids body
    accepted_block b e h =
        let (single, at_end, some_source, checked) =
          check_block-inv text reranked_ids b ids body h in
        let (listed, before) = check_ids-ids _ _ reranked_ids ids _ body checked in
        record {
          block = b;
          parsed = e;
          single = single;
          at_end = at_end;
          listed = listed;
          some_source = λ n. some_source (listed ∙ n);
          cited = (check_ids-valid ids _ reranked_ids body).0 (rw before at (rw listed at checked));
          body_before = before;
        }

    accepted :
        validate_citations answer reranked_ids ≡ valid ids body
        → IsCited answer reranked_ids ids body
    accepted h = elim (Option-cases (parse_sources_block text)) [
      | inl e ↦ cc (rw (e, validate_citations) at h)
      | inr (b, e) ↦ accepted_block b e (rw (e, validate_citations) at h)
    ]

    complete :
        IsCited answer reranked_ids ids body
        → validate_citations answer reranked_ids ≡ valid ids body
    complete c =
        rw (c.parsed, validate_citations)
          (check_block-step text reranked_ids c.block c.single c.at_end
              (λ n. c.some_source (sym c.listed ∙ n))
            ∙ rw (c.listed, c.body_before) ((check_ids-valid ids _ reranked_ids body).1 c.cited))
