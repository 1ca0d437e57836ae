-- ===== src/Tags/Whole.antt =====
-- lib/tags.ts: what a rename or a delete does as a whole, when no other session writes meanwhile.
use priority_kb.Base.{
  Text, ℕ, Bool, true, false, ◌||◌, List, [], ◌∷◌, Option, none, some, option_map, length, ◌==◌,
  ==_iff, ◌≡◌, ◌⊎◌, refl, sym, ap, ◌∙◌, subst, Bool-cases, inl, inr, if◌then◌else◌, arith, In,
  not-In-nil,
}
use priority_kb.Store.Rows.{EntryRow, AuditKind, Tables, ids_where, entry_by_id}
use priority_kb.Store.Sessions.{Outside, World, Action, after, pure, ◌>>=◌, ◌>>◌, elsewhere}
use priority_kb.Store.Outcomes.{Quiet, Ends, Ends-after, Ends-weaken}
use priority_kb.Ingest.Entries.{Tools}
use priority_kb.Tags.Payloads.{Progress, start_payload}
use priority_kb.Tags.Steps.{applied, is_tag_kind, tags_at}
use priority_kb.Tags.Swept.{Swept, Settles, Swept-start}
use priority_kb.Tags.Sweeps.{Reached, sweep-Ends}
use priority_kb.Tags.Runs.{
  Turned, Reports, Kept, Final, Opened, select_ids-Ends, insert_first-Ends, finalize-Ends,
}
use priority_kb.Tags.Operations.{
  Transform, Outcome, completed, sweep, select_ids, insert_row, finalize, nothing_done,
  run_operation,
}

pub length-nil : (xs : List Text) → length xs ≡ 0 → xs ≡ []
length-nil [] h = refl
length-nil (x ∷ xs) h = absurd (omega arith)

-- After the first row, an operation with nothing to do or the loop over the entries.
unfoldable pub rest_of :
    {V K : Type 0}
    → Outside V
    → Tools K
    → Transform
    → (from : List Text) → (to : Option Text) → Bool
    → List Text
    → ℕ
    → Action V Outcome
unfolding sweep finalize
rest_of out tools f from to is_noop ids a =
    if is_noop || (length ids == 0)
    then pure (nothing_done a)
    else sweep out tools a f ids [] >>= finalize out tools a from to

unturned :
    (g : List Text → List Text)
    → ((tags : List Text) → g tags ≡ tags)
    → (o : Option (List Text)) → o ≡ option_map g o
unturned g h none = refl
unturned g h (some tags) = ap some (sym (h tags))

pub idle_report :
    {V : Type 0} (g : List Text → List Text) (t0 : Tables V) (a : ℕ) (t : Tables V)
    → Opened t0 a t
    → Turned g t0 t
    → Reports g t0 (nothing_done a) t
idle_report g t0 a t o h = (
  record {
    sensitivity = λ i n. option_map (λ (e : EntryRow). e.sensitivity) (entry_by_id (o.entries n) i);
    operations = o.operations;
  },
  λ _. h,
)

noop_rest :
    {V K : Type 0} (out : Outside V) (tools : Tools K) (f : Transform) (from : List Text)
    (to : Option Text) (ids : List Text) (a : ℕ) (t0 : Tables V) (w : World V)
    → Opened t0 a w.tables
    → Ends (rest_of out tools f from to true ids a w) (Reports (λ tags. tags) t0) (λ t. t ≡ t0)
unfolding rest_of
noop_rest out tools f from to ids a t0 w o =
    idle_report (λ tags. tags) t0 a w.tables o
      (λ i.
        (λ n. option_map (λ (e : EntryRow). e.tags) (entry_by_id (o.entries n) i))
        ∙ unturned (λ tags. tags) (λ tags. refl) (tags_at t0 i))

module _ {V K : Type 0} (out : Outside V) (tools : Tools K) (quiet : Quiet out)
    (g : List Text → List Text) (p : List Text → Bool) (f : Transform) (settles : Settles f)
    (idle : (tags : List Text) → p tags ≡ false → applied f tags ≡ tags) where
  Swept-nil :
      (t0 t : Tables V)
      → ((tags : List Text) → g tags ≡ applied f tags)
      → Swept f t0 [] t
      → Turned g t0 t
  Swept-nil t0 t same h i = turned (h.each i)
    where
      by_g : (o : Option (List Text)) → option_map (applied f) o ≡ option_map g o
      by_g none = refl
      by_g (some tags) = ap some (sym (same tags))

      turned :
          (tags_at t i ≡ option_map (applied f) (tags_at t0 i))
            ⊎ ((tags_at t i ≡ tags_at t0 i) × In [] i)
          → tags_at t i ≡ option_map g (tags_at t0 i)
      turned (inl e) = e ∙ by_g (tags_at t0 i)
      turned (inr (e, m)) = absurd (not-In-nil i m)

  -- From the first row on, the loop and the last write.
  pub reported :
      (t0 t1 t t' : Tables V) (a : ℕ) (q q' : Progress)
      → ((tags : List Text) → g tags ≡ applied f tags)
      → Opened t0 a t1
      → Reached out tools quiet a f settles t1 q t
      → Kept t t'
      → ((q'.failure ≡ none) → q.failure ≡ none)
      → Reports g t0 (completed a q') t'
  reported t0 t1 t t' a q q' same o (rest, s, all) k h =
      let sens = λ (es : List EntryRow).
        λ (i : Text). option_map (λ (e : EntryRow). e.sensitivity) (entry_by_id es i) in
      let tags = λ (es : List EntryRow).
        λ (i : Text). option_map (λ (e : EntryRow). e.tags) (entry_by_id es i) in
      (
        record {
          sensitivity =
              λ i. (λ n. sens (k.0 n) i) ∙ s.same.sensitivity i ∙ (λ n. sens (o.entries n) i);
          operations = k.1 ∙ s.same.operations ∙ o.operations;
        },
        λ none_failed i.
            (λ n. tags (k.0 n) i)
            ∙ Swept-nil t1 t same (subst (λ ids. Swept f t1 ids t) (all (h none_failed)) s) i
            ∙ (λ n. option_map g (tags (o.entries n) i)),
      )

  loop_report :
      (from : List Text) (to : Option Text) (t0 : Tables V) (ids : List Text) (a : ℕ) (w : World V)
      → ((tags : List Text) → g tags ≡ applied f tags)
      → Opened t0 a w.tables
      → Swept f w.tables ids w.tables
      → Ends
          (after (sweep out tools a f ids [] w) (finalize out tools a from to))
          (Reports g t0)
          (λ t. t ≡ t0)
  loop_report from to t0 ids a w same o begun =
      Ends-after (sweep out tools a f ids [] w) (finalize out tools a from to)
        (Reached out tools quiet a f settles w.tables) (Reports g t0) (λ t. t ≡ t0)
        (Ends-weaken (sweep out tools a f ids [] w) _ (Reached out tools quiet a f settles w.tables)
          (λ _. ⊥) (λ t. t ≡ t0) (sweep-Ends out tools quiet a f settles w.tables ids [] w begun)
          (λ q t r. r) (λ t b. absurd b))
        (λ q v r.
          Ends-weaken (finalize out tools a from to q v) (Final a q v.tables) (Reports g t0)
            (λ _. ⊥) (λ t. t ≡ t0) (finalize-Ends out tools quiet a from to q v)
            (λ result t (q', e, h, k).
              subst (λ x. Reports g t0 x t) (sym e)
                (reported t0 w.tables v.tables t a q q' same o r k h))
            (λ t b. absurd b))

  -- With no entry listed, all is as the transform leaves it.
  pub none_listed_report :
      (t0 t : Tables V) (ids : List Text) (a : ℕ)
      → ((tags : List Text) → g tags ≡ applied f tags)
      → Opened t0 a t
      → ids ≡ ids_where p t0.entries
      → ids ≡ []
      → Reports g t0 (nothing_done a) t
  none_listed_report t0 t ids a same o listed z =
      let start = Swept-start f settles t p idle in
      let tags = λ (es : List EntryRow).
        λ (i : Text). option_map (λ (e : EntryRow). e.tags) (entry_by_id es i) in
      let none_listed : ids_where p t.entries ≡ [] = ap (ids_where p) o.entries ∙ sym listed ∙ z in
      let all = subst (λ l. Swept f t l t) none_listed start in
      idle_report g t0 a t o
        (λ i. Swept-nil t t same all i ∙ (λ n. option_map g (tags (o.entries n) i)))

  rest_of-Ends :
      (from : List Text) (to : Option Text) (is_noop : Bool) (t0 : Tables V) (ids : List Text)
      (a : ℕ) (w : World V)
      → ((is_noop ≡ true) → (tags : List Text) → g tags ≡ tags)
      → ((is_noop ≡ false) → (tags : List Text) → g tags ≡ applied f tags)
      → Opened t0 a w.tables
      → ids ≡ ids_where p t0.entries
      → Ends (rest_of out tools f from to is_noop ids a w) (Reports g t0) (λ t. t ≡ t0)
  unfolding rest_of
  rest_of-Ends from to is_noop t0 ids a w noop same o listed =
      let tags = λ (es : List EntryRow).
        λ (i : Text). option_map (λ (e : EntryRow). e.tags) (entry_by_id es i) in
      let start = Swept-start f settles w.tables p idle in
      elim (Bool-cases is_noop) [
        | inl e ↦
            rw (e, rest_of)
              (idle_report g t0 a w.tables o
                (λ i. (λ n. tags (o.entries n) i) ∙ unturned g (noop e) (tags_at t0 i)))
        | inr e ↦ elim (Bool-cases (length ids == 0)) [
          | inl z ↦
              rw (e, z, rest_of)
                (none_listed_report t0 w.tables ids a (same e) o listed
                  (length-nil ids ((==_iff _ _).0 z)))
          | inr z ↦
              let begun =
                subst (λ l. Swept f w.tables l w.tables) (ap (ids_where p) o.entries ∙ sym listed)
                  start in
              rw (e, z, rest_of) (loop_report from to t0 ids a w (same e) o begun)
        ]
      ]

  -- A whole operation.
  pub run_operation-Ends :
      (kind : AuditKind) (from : List Text) (to : Option Text) (is_noop : Bool) (w : World V)
      → is_tag_kind kind ≡ true
      → ((is_noop ≡ true) → (tags : List Text) → g tags ≡ tags)
      → ((is_noop ≡ false) → (tags : List Text) → g tags ≡ applied f tags)
      → Ends
          (run_operation out tools kind from to is_noop p f w)
          (Reports g w.tables)
          (λ t. t ≡ w.tables)
  unfolding run_operation rest_of
  run_operation-Ends kind from to is_noop w tag noop same =
      Ends-after (select_ids out tools p w)
        (λ ids.
          elsewhere out
          >> insert_row out tools kind (start_payload from to)
          >>= rest_of out tools f from to is_noop ids)
        (λ ids t. (t ≡ w.tables) × (ids ≡ ids_where p w.tables.entries)) (Reports g w.tables)
        (λ t. t ≡ w.tables) (select_ids-Ends out tools quiet p w)
        (λ ids v (e, l).
          Ends-after ((elsewhere out >> insert_row out tools kind (start_payload from to)) v)
            (rest_of out tools f from to is_noop ids) (λ a t. Opened w.tables a t)
            (Reports g w.tables) (λ t. t ≡ w.tables)
            (insert_first-Ends out tools quiet kind (start_payload from to) w.tables v tag e)
            (λ a u o. rest_of-Ends from to is_noop w.tables ids a u noop same o l))

-- A rename to the same tag.
pub noop-Ends :
    {V K : Type 0} (out : Outside V) (tools : Tools K) (kind : AuditKind) (from : List Text)
    (to : Option Text) (p : List Text → Bool) (f : Transform) (w : World V)
    → Quiet out
    → is_tag_kind kind ≡ true
    → Ends
        (run_operation out tools kind from to true p f w)
        (Reports (λ tags. tags) w.tables)
        (λ t. t ≡ w.tables)
unfolding run_operation rest_of
noop-Ends out tools kind from to p f w quiet tag =
    Ends-after (select_ids out tools p w)
      (λ ids.
        elsewhere out
        >> insert_row out tools kind (start_payload from to)
        >>= rest_of out tools f from to true ids)
      (λ ids t. (t ≡ w.tables) × (ids ≡ ids_where p w.tables.entries))
      (Reports (λ tags. tags) w.tables) (λ t. t ≡ w.tables) (select_ids-Ends out tools quiet p w)
      (λ ids v (e, l).
        Ends-after ((elsewhere out >> insert_row out tools kind (start_payload from to)) v)
          (rest_of out tools f from to true ids) (λ a t. Opened w.tables a t)
          (Reports (λ tags. tags) w.tables) (λ t. t ≡ w.tables)
          (insert_first-Ends out tools quiet kind (start_payload from to) w.tables v tag e)
          (λ a u o. noop_rest out tools f from to ids a w.tables u o))
