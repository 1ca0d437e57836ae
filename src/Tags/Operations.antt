-- ===== src/Tags/Operations.antt =====
-- lib/tags.ts: `renameTag`, `deleteTag`, `mergeTags` and `applyTagTransformToEntry`.
use priority_kb.Base.{
  Text, lit, text_eq, ℕ, Bool, true, false, ◌||◌, List, [], ◌∷◌, ◌++◌, Option, none, some, length,
  ◌==◌, if◌then◌else◌, includes,
}
use priority_kb.Store.Rows.{
  EntryRow, AuditKind, tag_rename, tag_delete, tag_merge, direct, Payload, Tables, entry_by_id,
  set_payload, next_audit_id, ids_where,
}
use priority_kb.Store.Sessions.{
  Exception, Result, ok, err, Outside, World, Action, pure, after, ◌>>=◌, ◌>>◌, write, select,
  elsewhere, transaction,
}
use priority_kb.Ingest.Entries.{Tools, add_audit}
use priority_kb.Ingest.Writes.{update_entry}
unfoldable pub use priority_kb.Tags.Transforms.{
  Transform, arrays_equal, rename_transform, delete_transform, overlaps, merge_transform, input_of,
  triggered_by,
}
use priority_kb.Tags.Names.{
  TagValidationError, to_field, tag_field, normalize_tag, validate_tag_strict,
  validate_tag_from_loose_length, MergeInput, merge_input, merge_refused, check_merge,
}
use priority_kb.Tags.Payloads.{Progress, build_tag_payload, start_payload, stringify_error, named}

-- How an operation ends: an error before any statement, a result, or a MergeRollbackError.
pub data Outcome : Type 0 where
  invalid : TagValidationError → Outcome
  completed : (audit_id : ℕ) → Progress → Outcome
  rolled_back : (audit_id : ℕ) → (cause_class cause_message : Text) → Outcome

abbrev pub nothing_done : ℕ → Outcome
nothing_done audit_id = completed audit_id (record { affected = []; failure = none })

-- `try ... catch`
abbrev pub caught :
    {V A B : Type 0}
    → Result A × World V
    → (A → Action V B)
    → (Exception → Action V B)
    → Result B × World V
caught (ok a, w) k h = k a w
caught (err e, w) k h = h e w

abbrev pub try_catch :
    {V A B : Type 0} → Action V A → (A → Action V B) → (Exception → Action V B) → Action V B
try_catch m k h w = caught (m w) k h

-- `UPDATE audit_log SET payload`
unfoldable pub put_payload : {V : Type 0} → (audit_id : ℕ) → Payload → Tables V → Tables V
unfolding set_payload
put_payload audit_id payload t = record {
  entries = t.entries;
  versions = t.versions;
  chunks = t.chunks;
  audit = set_payload t.audit audit_id payload;
}

module _ {V K : Type 0} (out : Outside V) (tools : Tools K) where
  unfoldable pub retag :
      (audit_id : ℕ) → (id : Text) → EntryRow → Option (List Text) → Action V Bool
  unfolding arrays_equal input_of triggered_by update_entry
  retag audit_id id e none = pure false
  retag audit_id id e (some tags) =
      if arrays_equal tags e.tags
      then pure false
      else update_entry out tools true id (input_of e tags) direct (triggered_by audit_id)
        >> pure true

  unfoldable pub retag_found :
      (audit_id : ℕ) → Transform → (id : Text) → Option EntryRow → Action V Bool
  unfolding retag
  retag_found audit_id transform id none = pure false
  retag_found audit_id transform id (some e) = retag audit_id id e (transform e.tags)

  unfoldable pub run_on : (audit_id : ℕ) → Transform → (id : Text) → Action V Bool
  unfolding select retag_found entry_by_id
  run_on audit_id transform id =
      select out (λ t. entry_by_id t.entries id) >>= retag_found audit_id transform id

  -- `outer_tx` tells whether the caller gives its own transaction.
  unfoldable pub apply_tag_transform_to_entry :
      (outer_tx : Bool) → (audit_id : ℕ) → Transform → (id : Text) → Action V Bool
  unfolding run_on transaction
  apply_tag_transform_to_entry outer_tx audit_id transform id =
      if outer_tx
      then run_on audit_id transform id
      else transaction out false (run_on audit_id transform id)

  -- The loop of a rename or a delete: a failure ends it and is kept as the reason.
  unfoldable pub sweep :
      (audit_id : ℕ) → Transform → List Text → (affected : List Text) → Action V Progress
  unfolding apply_tag_transform_to_entry stringify_error
  sweep audit_id transform [] affected = pure (record { affected = affected; failure = none })
  sweep audit_id transform (id ∷ ids) affected =
      try_catch (apply_tag_transform_to_entry false audit_id transform id)
        (λ updated.
          sweep audit_id transform ids (if updated then affected ++ id ∷ [] else affected))
        (λ e. pure (record { affected = affected; failure = some (stringify_error e) }))

  -- The loop of a merge, inside its transaction.
  unfoldable pub merge_loop :
      (audit_id : ℕ) → Transform → List Text → (affected : List Text) → Action V (List Text)
  unfolding apply_tag_transform_to_entry
  merge_loop audit_id transform [] affected = pure affected
  merge_loop audit_id transform (id ∷ ids) affected =
      apply_tag_transform_to_entry true audit_id transform id >>= λ updated.
      merge_loop audit_id transform ids (if updated then affected ++ id ∷ [] else affected)

  -- A statement outside any transaction.
  unfoldable pub select_ids : (List Text → Bool) → Action V (List Text)
  unfolding elsewhere select ids_where
  select_ids p = elsewhere out >> select out (λ t. ids_where p t.entries)

  unfoldable pub insert_row : AuditKind → Payload → Action V ℕ
  unfolding write add_audit next_audit_id
  insert_row kind payload w =
      after (write out (add_audit kind none none payload) w)
        (λ _. pure (next_audit_id w.tables.audit))

  unfoldable pub update_payload : (audit_id : ℕ) → Payload → Action V ℕ
  unfolding write put_payload
  update_payload audit_id payload = write out (put_payload audit_id payload)

  unfoldable pub finalize :
      (audit_id : ℕ) → (from : List Text) → (to : Option Text) → Progress → Action V Outcome
  unfolding lit elsewhere update_payload build_tag_payload stringify_error
  finalize audit_id from to p =
      try_catch (elsewhere out >> update_payload audit_id (build_tag_payload from to p))
        (λ _. pure (completed audit_id p))
        (λ e. pure (
          completed audit_id (record {
            affected = p.affected;
            failure = some (lit "audit_finalize_failed: " ++ stringify_error e);
          })))

  -- What a rename and a delete share.
  unfoldable pub run_operation :
      AuditKind
      → (from : List Text) → (to : Option Text) → (is_noop : Bool) → (p : List Text → Bool)
      → Transform
      → Action V Outcome
  unfolding elsewhere select_ids insert_row sweep finalize start_payload
  run_operation kind from to is_noop p transform = select_ids p >>= λ ids.
      elsewhere out >> insert_row kind (start_payload from to) >>= λ audit_id.
      if is_noop || (length ids == 0)
      then pure (nothing_done audit_id)
      else sweep audit_id transform ids [] >>= finalize audit_id from to

  unfoldable pub rename_tag : (from to : Text) → Action V Outcome
  unfolding normalize_tag validate_tag_from_loose_length validate_tag_strict run_operation
      rename_transform
  rename_tag from to =
      let f = normalize_tag tools.nfc from in
      let t = normalize_tag tools.nfc to in
      elim (validate_tag_from_loose_length f) [
        | some e ↦ pure (invalid e)
        | none ↦ elim (validate_tag_strict t to_field) [
          | some e ↦ pure (invalid e)
          | none ↦
              run_operation tag_rename (f ∷ []) (some t) (text_eq t f) (λ tags. includes tags f)
                (rename_transform f t)
        ]
      ]

  unfoldable pub delete_tag : (tag : Text) → Action V Outcome
  unfolding normalize_tag validate_tag_strict run_operation delete_transform
  delete_tag tag =
      let n = normalize_tag tools.nfc tag in
      elim (validate_tag_strict n tag_field) [
        | some e ↦ pure (invalid e)
        | none ↦
            run_operation tag_delete (n ∷ []) none false (λ tags. includes tags n)
              (delete_transform n)
      ]

  -- The transaction of a merge: the loop, and the audit row brought up to date.
  unfoldable pub merge_all :
      (audit_id : ℕ) → (from : List Text) → (to : Text) → List Text → Action V (List Text)
  unfolding merge_loop merge_transform update_payload build_tag_payload
  merge_all audit_id from to ids =
      merge_loop audit_id (merge_transform from to) ids [] >>= λ affected.
      update_payload audit_id
        (build_tag_payload from (some to) (record { affected = affected; failure = none }))
      >> pure affected

  unfoldable pub merge_found :
      (from : List Text) → (to : Text) → List Text → (audit_id : ℕ) → Action V Outcome
  unfolding transaction merge_all stringify_error
  merge_found from to ids audit_id =
      if length ids == 0
      then pure (nothing_done audit_id)
      else try_catch (transaction out false (merge_all audit_id from to ids))
          (λ affected. pure (completed audit_id (record { affected = affected; failure = none })))
          (λ e. pure (rolled_back audit_id (named e.name) (stringify_error e)))

  unfoldable pub merge_checked : MergeInput → Action V Outcome
  unfolding elsewhere select_ids insert_row merge_found start_payload overlaps
  merge_checked (merge_refused e) = pure (invalid e)
  merge_checked (merge_input from to) = select_ids (overlaps from) >>= λ ids.
      elsewhere out
      >> insert_row tag_merge (start_payload from (some to))
      >>= merge_found from to ids

  unfoldable pub merge_tags : (from : List Text) → (to : Text) → Action V Outcome
  unfolding check_merge merge_checked
  merge_tags from to = merge_checked (check_merge tools.nfc from to)
