-- ===== src/Tags/Runs.antt =====
-- lib/tags.ts: what a rename or a delete does as a whole, when no other session writes meanwhile.
use priority_kb.Base.{
  Text, lit, ℕ, Bool, true, List, [], ◌∷◌, ◌++◌, Option, none, some, option_map, ◌==◌, ◌≡◌, refl,
  sym, ap, ◌∙◌, subst, Bool-cases, inl, inr,
}
use priority_kb.Store.Rows.{
  AuditKind, AuditRow, Payload, Tables, set_payload, next_audit_id, ids_where,
}
use priority_kb.Store.Sessions.{Outside, World, Result, ok, err, pure, ◌>>◌, write, elsewhere}
use priority_kb.Store.Outcomes.{Quiet, Ends, Ends-after, Ends-write, Ends-select, Ends-weaken}
use priority_kb.Ingest.Entries.{Tools, add_audit}
use priority_kb.Tags.Payloads.{Progress, build_tag_payload, stringify_error}
use priority_kb.Tags.Steps.{is_tag_kind, op_ids, tags_at, sensitivity_at}
use priority_kb.Tags.Operations.{
  Outcome, invalid, completed, rolled_back, caught, select_ids, insert_row, put_payload,
  update_payload, finalize,
}

-- The log has one more operation, `a`, and every sensitivity is as it was.
pub record Logged {V : Type 0} (t0 : Tables V) (a : ℕ) (t : Tables V) : Type 0 where
  pub sensitivity : (i : Text) → sensitivity_at t i ≡ sensitivity_at t0 i
  pub operations : op_ids t.audit ≡ a ∷ op_ids t0.audit

-- Every entry's tags are turned by `g`.
abbrev pub Turned : {V : Type 0} → (List Text → List Text) → Tables V → Tables V → Type 0
Turned g t0 t = (i : Text) → tags_at t i ≡ option_map g (tags_at t0 i)

-- A refused request changes nothing. A result has logged one operation and, unless it reports a
-- failure, turned the tags of every entry.
abbrev pub Reports : {V : Type 0} → (List Text → List Text) → Tables V → Outcome → Tables V → Type 0
Reports g t0 (invalid e) t = t ≡ t0
Reports g t0 (completed a p) t = Logged t0 a t × ((p.failure ≡ none) → Turned g t0 t)
Reports g t0 (rolled_back a c m) t = ⊥

pub op_ids-set_payload :
    (rs : List AuditRow) (id : ℕ) (p : Payload) → op_ids (set_payload rs id p) ≡ op_ids rs
unfolding op_ids set_payload
op_ids-set_payload [] id p = refl
op_ids-set_payload (r ∷ rs) id p = elim (Bool-cases (r.id == id)) [
  | inl e ↦ rw (e, op_ids-set_payload rs id p) refl
  | inr e ↦ rw (e, op_ids-set_payload rs id p) refl
]

-- The rows that an update of a payload leaves.
abbrev pub Kept : {V : Type 0} → Tables V → Tables V → Type 0
Kept t0 t = (t.entries ≡ t0.entries) × (op_ids t.audit ≡ op_ids t0.audit)

-- The operation ends with a result that reports no failure only if `p` has none.
abbrev pub Final : {V : Type 0} → ℕ → Progress → Tables V → Outcome → Tables V → Type 0
Final a p t0 o t =
    (q : Progress) × (o ≡ completed a q) × ((q.failure ≡ none) → p.failure ≡ none) × Kept t0 t

-- `t1` has the first row of the operation `a`, and the entries, versions and chunks of `t0`.
pub record Opened {V : Type 0} (t0 : Tables V) (a : ℕ) (t1 : Tables V) : Type 0 where
  pub entries : t1.entries ≡ t0.entries
  pub versions : t1.versions ≡ t0.versions
  pub chunks : t1.chunks ≡ t0.chunks
  pub operations : op_ids t1.audit ≡ a ∷ op_ids t0.audit

Opened-start :
    {V : Type 0} (kind : AuditKind) (payload : Payload) (t : Tables V)
    → is_tag_kind kind ≡ true
    → Opened t (next_audit_id t.audit) (add_audit kind none none payload t)
unfolding add_audit op_ids
Opened-start kind payload t h = record {
  entries = refl;
  versions = refl;
  chunks = refl;
  operations = rw h refl;
}

module _ {V K : Type 0} (out : Outside V) (tools : Tools K) (quiet : Quiet out) where
  -- The tables after the first row is written.
  abbrev started : AuditKind → Payload → Tables V → Tables V
  started kind payload t = add_audit kind none none payload t

  pub insert_row-Ends :
      (kind : AuditKind) (payload : Payload) (w : World V)
      → Ends
          (insert_row out tools kind payload w)
          (λ a t. (t ≡ started kind payload w.tables) × (a ≡ next_audit_id w.tables.audit))
          (λ t. t ≡ w.tables)
  unfolding insert_row
  insert_row-Ends kind payload w =
      Ends-after (write out (add_audit kind none none payload) w)
        (λ _. pure (next_audit_id w.tables.audit)) (λ _ t. t ≡ started kind payload w.tables) _
        (λ t. t ≡ w.tables)
        (Ends-write out (add_audit kind none none payload) w _ (λ t. t ≡ w.tables) refl refl)
        (λ _ v e. (e, refl))

  pub insert_first-Ends :
      (kind : AuditKind) (payload : Payload) (t0 : Tables V) (w : World V)
      → is_tag_kind kind ≡ true
      → w.tables ≡ t0
      → Ends
          ((elsewhere out >> insert_row out tools kind payload) w)
          (λ a t. Opened t0 a t)
          (λ t. t ≡ t0)
  unfolding elsewhere
  insert_first-Ends kind payload t0 w h e =
      let v : World V = record { tables = out.others w.clock w.tables; clock = w.clock } in
      let same : v.tables ≡ t0 = quiet w.clock w.tables ∙ e in
      subst (λ u. Ends (insert_row out tools kind payload v) (λ a t. Opened u a t) (λ t. t ≡ u))
        same
        (Ends-weaken (insert_row out tools kind payload v) _ (λ a t. Opened v.tables a t)
          (λ t. t ≡ v.tables) (λ t. t ≡ v.tables) (insert_row-Ends kind payload v)
          (λ a t (p, q).
            subst (λ b. Opened v.tables b t) (sym q)
              (subst (λ u. Opened v.tables (next_audit_id v.tables.audit) u) (sym p)
                (Opened-start kind payload v.tables h)))
          (λ t p. p))

  pub select_ids-Ends :
      (p : List Text → Bool) (w : World V)
      → Ends
          (select_ids out tools p w)
          (λ ids t. (t ≡ w.tables) × (ids ≡ ids_where p w.tables.entries))
          (λ t. t ≡ w.tables)
  unfolding select_ids elsewhere
  select_ids-Ends p w =
      let v : World V = record { tables = out.others w.clock w.tables; clock = w.clock } in
      let same : v.tables ≡ w.tables = quiet w.clock w.tables in
      Ends-select out (λ t. ids_where p t.entries) v
        (λ ids t. (t ≡ w.tables) × (ids ≡ ids_where p w.tables.entries)) (λ t. t ≡ w.tables)
        (same, ap (λ t. ids_where p t.entries) same) same

  pub update_payload-Ends :
      (a : ℕ) (payload : Payload) (w : World V)
      → Ends (update_payload out tools a payload w) (λ _ t. Kept w.tables t) (λ t. t ≡ w.tables)
  unfolding update_payload put_payload
  update_payload-Ends a payload w =
      Ends-write out (put_payload a payload) w (λ _ t. Kept w.tables t) (λ t. t ≡ w.tables)
        (refl, op_ids-set_payload w.tables.audit a payload) refl

  Final-caught :
      (a : ℕ) (p : Progress) (t0 : Tables V) (r : Result ℕ × World V)
      → Ends r (λ _ t. Kept t0 t) (λ t. t ≡ t0)
      → Ends
          (caught r
            (λ _. pure (completed a p))
            (λ e. pure (
              completed a (record {
                affected = p.affected;
                failure = some (lit "audit_finalize_failed: " ++ stringify_error e);
              }))))
          (Final a p t0)
          (λ _. ⊥)
  Final-caught a p t0 (ok n, w) k = (p, refl, λ h. h, k)
  Final-caught a p t0 (err e, w) k = (
    record {
      affected = p.affected;
      failure = some (lit "audit_finalize_failed: " ++ stringify_error e);
    },
    refl,
    λ h. cc,
    rw k (refl, refl),
  )

  pub finalize-Ends :
      (a : ℕ) (from : List Text) (to : Option Text) (p : Progress) (w : World V)
      → Ends (finalize out tools a from to p w) (Final a p w.tables) (λ _. ⊥)
  unfolding finalize elsewhere
  finalize-Ends a from to p w =
      let v : World V = record { tables = out.others w.clock w.tables; clock = w.clock } in
      let same : v.tables ≡ w.tables = quiet w.clock w.tables in
      Final-caught a p w.tables (update_payload out tools a (build_tag_payload from to p) v) (
        subst
          (λ u.
            Ends (update_payload out tools a (build_tag_payload from to p) v) (λ _ t. Kept u t)
              (λ t. t ≡ u))
          same (update_payload-Ends a (build_tag_payload from to p) v))
