-- ===== src/Jobs/Outcomes.antt =====
-- lib/jobs.ts: what `enqueueJob` returns and what it has written.
use priority_kb.Base.{
  Text, lit, ℕ, suc, List, [], ◌∷◌, Option, none, some, ◌≡◌, ◌⊎◌, refl, Option-cases, inl, inr,
}
use priority_kb.Store.Sessions.{Result, ok, err}
use priority_kb.Jobs.Payload.{Json, find_sensitivity_key}
use priority_kb.Jobs.Scan.{Clean, find_sensitivity_key-none_iff}
use priority_kb.Jobs.Enqueue.{
  JobState, EnqueueResult, created, existing, JobWrite, job_row, audit_row, Enqueued, Answers,
  transacted, committed, audited, job_inserted, second_look, second_insert, first_look,
  first_insert, enqueue_job,
}

module _ (answers : Answers) where
  -- An insert has given this id: the first, or the second after a conflict with a row that was gone.
  abbrev pub Inserted : Text → Type 0
  Inserted id =
      (answers.insert_job 0 ≡ ok (some id))
      ⊎ ((answers.insert_job 0 ≡ ok none)
          × (answers.select_job 1 ≡ ok none)
          × (answers.insert_job 2 ≡ ok (some id)))

  -- A select has given this row, after a conflict.
  abbrev pub Seen : Text → JobState → Type 0
  Seen id state =
      (answers.insert_job 0 ≡ ok none)
      × ((answers.select_job 1 ≡ ok (some (id, state)))
          ⊎ (answers.select_job 3 ≡ ok (some (id, state))))

  -- A created job has its row and its audit row, and nothing else is written.
  abbrev pub FitsResult : Result EnqueueResult → List JobWrite → Type 0
  FitsResult (ok (created id)) rows = (rows ≡ job_row id ∷ audit_row id ∷ []) × Inserted id
  FitsResult (ok (existing id state)) rows = (rows ≡ []) × Seen id state
  FitsResult (err e) rows = rows ≡ []

  abbrev pub Fits : Enqueued → Type 0
  Fits e = FitsResult e.result e.rows

  -- The same within the transaction, whose rows do not count yet if it throws.
  abbrev InsideResult : Result EnqueueResult → List JobWrite → Type 0
  InsideResult (ok (created id)) rows = (rows ≡ job_row id ∷ audit_row id ∷ []) × Inserted id
  InsideResult (ok (existing id state)) rows = (rows ≡ []) × Seen id state
  InsideResult (err e) rows = Unit

  abbrev Inside : Enqueued → Type 0
  Inside e = InsideResult e.result e.rows

  transacted-Fits : (e : Enqueued) → Inside e → Fits (transacted e)
  unfolding transacted
  transacted-Fits e h = by_result e.result e.rows h
    where
      by_result :
          (r : Result EnqueueResult) (rows : List JobWrite)
          → InsideResult r rows
          → Fits (transacted (record { result = r; rows = rows }))
      by_result (ok (created id)) rows k = k
      by_result (ok (existing id state)) rows k = k
      by_result (err x) rows k = refl

  committed-Inside :
      (r : Result ℕ) (id : Text) (state : JobState)
      → Seen id state
      → Inside (committed r (existing id state) [])
  committed-Inside (ok n) id state h = (refl, h)
  committed-Inside (err e) id state h = tt

  audited-Inside : (r s : Result ℕ) (id : Text) → Inserted id → Inside (audited r s id)
  audited-Inside (ok n) (ok k) id h = (refl, h)
  audited-Inside (ok n) (err e) id h = tt
  audited-Inside (err e) s id h = tt

  job_inserted-Inside : (n : ℕ) (id : Text) → Inserted id → Inside (job_inserted answers n id)
  unfolding job_inserted
  job_inserted-Inside n id h = audited-Inside (answers.insert_audit n) (answers.commit (suc n)) id h

  second_look-Inside :
      (r : Result (Option (Text × JobState)))
      → answers.insert_job 0 ≡ ok none
      → answers.select_job 3 ≡ r
      → Inside (second_look answers r)
  unfolding second_look
  second_look-Inside (err e) h k = tt
  second_look-Inside (ok none) h k = tt
  second_look-Inside (ok (some (id, state))) h k =
      committed-Inside (answers.commit 4) id state (h, inr k)

  second_insert-Inside :
      (r : Result (Option Text))
      → answers.insert_job 0 ≡ ok none
      → answers.select_job 1 ≡ ok none
      → answers.insert_job 2 ≡ r
      → Inside (second_insert answers r)
  unfolding second_insert
  second_insert-Inside (err e) h k l = tt
  second_insert-Inside (ok none) h k l = second_look-Inside (answers.select_job 3) h refl
  second_insert-Inside (ok (some id)) h k l = job_inserted-Inside 3 id (inr (h, k, l))

  first_look-Inside :
      (r : Result (Option (Text × JobState)))
      → answers.insert_job 0 ≡ ok none
      → answers.select_job 1 ≡ r
      → Inside (first_look answers r)
  unfolding first_look
  first_look-Inside (err e) h k = tt
  first_look-Inside (ok none) h k = second_insert-Inside (answers.insert_job 2) h k refl
  first_look-Inside (ok (some (id, state))) h k =
      committed-Inside (answers.commit 2) id state (h, inl k)

  first_insert-Inside :
      (r : Result (Option Text)) → answers.insert_job 0 ≡ r → Inside (first_insert answers r)
  unfolding first_insert
  first_insert-Inside (err e) h = tt
  first_insert-Inside (ok none) h = first_look-Inside (answers.select_job 1) h refl
  first_insert-Inside (ok (some id)) h = job_inserted-Inside 1 id (inl h)

-- Whatever other sessions do, a created job has one row and one audit row and its id came from an
-- insert, an existing one has none and came from a select after a conflict, and an enqueue that
-- throws has written nothing. A result, as opposed to a throw, has a payload without a sensitivity
-- key at any depth.
pub enqueue_job-Fits :
    (answers : Answers) (payload : Json)
    → Fits answers (enqueue_job answers payload)
      × ((r : EnqueueResult) → (enqueue_job answers payload).result ≡ ok r → Clean payload)
unfolding enqueue_job
enqueue_job-Fits answers payload = elim (Option-cases (find_sensitivity_key payload (lit "$"))) [
  | inr (path, e) ↦ rw (e, enqueue_job) (refl, λ r h. absurd (cc))
  | inl e ↦
      let clean = (find_sensitivity_key-none_iff payload (lit "$")).0 e in
      rw (e, enqueue_job)
        (
          transacted-Fits answers (first_insert answers (answers.insert_job 0))
              (first_insert-Inside answers (answers.insert_job 0) refl),
          λ r h. clean,
        )
]
