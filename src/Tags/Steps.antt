-- ===== src/Tags/Steps.antt =====
-- lib/tags.ts: what one entry's update does to the tags, the sensitivities and the operations' rows.
use priority_kb.Base.{
  Text, text_eq, text_eq→eq, ℕ, Bool, true, false, List, [], ◌∷◌, Option, none, some, option_map,
  ◌≡◌, refl, sym, ap, ◌∙◌, subst, Bool-cases, inl, inr, if◌then◌else◌, text_eq→eq,
}
use priority_kb.Auth.{Sensitivity}
use priority_kb.Store.Rows.{
  EntryRow, AuditKind, ingest, ingest_update, agent_ingest, agent_ingest_update, tag_rename,
  tag_delete, tag_merge, direct, AuditRow, AuditExtra, Tables, entry_by_id, set_entry,
}
use priority_kb.Store.Lookups.{set_entry-same, set_entry-other}
use priority_kb.Ingest.Entries.{
  Tools, audit_shape_for, Derived, entry_row, add_audit, replace_entry, add_version, add_chunks,
  delete_chunks,
}
use priority_kb.Ingest.Effects.{put_update}
use priority_kb.Tags.Operations.{Transform, input_of}

-- The tags after a transform that may give none.
abbrev pub or_same : List Text → Option (List Text) → List Text
or_same tags none = tags
or_same tags (some new) = new

abbrev pub applied : Transform → List Text → List Text
applied f tags = or_same tags (f tags)

abbrev pub is_tag_kind : AuditKind → Bool
is_tag_kind ingest = false
is_tag_kind ingest_update = false
is_tag_kind agent_ingest = false
is_tag_kind agent_ingest_update = false
is_tag_kind tag_rename = true
is_tag_kind tag_delete = true
is_tag_kind tag_merge = true

-- The ids of the rows of tag operations.
unfoldable pub op_ids : List AuditRow → List ℕ
op_ids [] = []
op_ids (r ∷ rs) = if is_tag_kind r.kind then r.id ∷ op_ids rs else op_ids rs

module _ {V : Type 0} where
  abbrev pub tags_at : Tables V → Text → Option (List Text)
  tags_at t id = option_map (λ e. e.tags) (entry_by_id t.entries id)

  abbrev pub sensitivity_at : Tables V → Text → Option Sensitivity
  sensitivity_at t id = option_map (λ e. e.sensitivity) (entry_by_id t.entries id)

  -- Nothing but tags changes: the sensitivities and the operations' rows stay.
  pub record Same (t0 t : Tables V) : Type 0 where
    pub sensitivity : (i : Text) → sensitivity_at t i ≡ sensitivity_at t0 i
    pub operations : op_ids t.audit ≡ op_ids t0.audit

  pub Same-refl : (t : Tables V) → Same t t
  Same-refl t = record { sensitivity = λ i. refl; operations = refl }

  pub Same-trans : (t0 t1 t2 : Tables V) → Same t0 t1 → Same t1 t2 → Same t0 t2
  Same-trans t0 t1 t2 a b = record {
    sensitivity = λ i. b.sensitivity i ∙ a.sensitivity i;
    operations = b.operations ∙ a.operations;
  }

  -- One entry's tags are transformed.
  pub record Step (f : Transform) (id : Text) (t0 t : Tables V) : Type 0 where
    pub here : tags_at t id ≡ option_map (applied f) (tags_at t0 id)
    pub there : (i : Text) → text_eq id i ≡ false → tags_at t i ≡ tags_at t0 i
    pub same : Same t0 t

  pub Step-none :
      (f : Transform) (id : Text) (t : Tables V) → entry_by_id t.entries id ≡ none → Step f id t t
  Step-none f id t h = record { here = rw h refl; there = λ i a. refl; same = Same-refl t }

  pub Step-kept :
      (f : Transform) (id : Text) (t : Tables V) (e : EntryRow)
      → entry_by_id t.entries id ≡ some e
      → applied f e.tags ≡ e.tags
      → Step f id t t
  Step-kept f id t e h k = record {
    here = rw h (ap some (sym k));
    there = λ i a. refl;
    same = Same-refl t;
  }

  pub Step-put :
      {K : Type 0} (tools : Tools K) (f : Transform) (id : Text) (t : Tables V) (e : EntryRow)
      (new : List Text) (extra : AuditExtra) (d : Derived V) (n : ℕ)
      → entry_by_id t.entries id ≡ some e
      → f e.tags ≡ some new
      → Step f id t (
          put_update tools
            (audit_shape_for tools.prompt_hash direct true)
            id
            (input_of e new)
            extra
            d
            n
            t)
  unfolding put_update add_audit add_chunks replace_entry delete_chunks add_version entry_row
      input_of op_ids audit_shape_for
  Step-put tools f id t e new extra d n h k =
      let row = entry_row tools id (input_of e new) d.canonical_body in
      let found = set_entry-same t.entries row e h in
      let before : option_map (applied f) (tags_at t id) ≡ some new = rw (h, k) refl in
      let kept : sensitivity_at t id ≡ some e.sensitivity = rw h refl in
      let sens = λ (x : EntryRow). x.sensitivity in
      record {
        here = ap (option_map (λ (x : EntryRow). x.tags)) found ∙ sym before;
        there =
            λ i a. ap (option_map (λ (x : EntryRow). x.tags)) (set_entry-other t.entries row i a);
        same = record {
          sensitivity = λ i. elim (Bool-cases (text_eq id i)) [
            | inl a ↦
                subst
                  (λ j.
                    option_map sens (entry_by_id (set_entry t.entries id (λ _. row)) j)
                    ≡ sensitivity_at t j)
                  (text_eq→eq id i a) (ap (option_map sens) found ∙ sym kept)
            | inr a ↦ ap (option_map sens) (set_entry-other t.entries row i a)
          ];
          operations = refl;
        };
      }
