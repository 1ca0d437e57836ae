-- ===== src/Jobs/Enqueue.antt =====
-- lib/jobs.ts: `enqueueJob`. What each statement of its transaction answers is given, since other
-- sessions insert and delete jobs meanwhile; what is left of the transaction is the rows it has written.
use priority_kb.Base.{Text, lit, ℕ, suc, List, [], ◌∷◌, ◌++◌, Option, none, some}
use priority_kb.Store.Sessions.{Exception, Result, ok, err}
use priority_kb.Jobs.Payload.{Json, find_sensitivity_key}

pub data JobState : Type 0 where
  queued in_progress done failed dead : JobState

pub data EnqueueResult : Type 0 where
  created : (id : Text) → EnqueueResult
  existing : (id : Text) → JobState → EnqueueResult

-- The rows that the transaction commits.
pub data JobWrite : Type 0 where
  job_row : (id : Text) → JobWrite
  audit_row : (job_id : Text) → JobWrite

pub record Enqueued : Type 0 where
  pub result : Result EnqueueResult
  pub rows : List JobWrite

-- The answer of the statement with a number: an insert gives the id of its row, or nothing on a
-- conflict, and a select the row with the key, if there is one.
pub record Answers : Type 0 where
  pub insert_job : ℕ → Result (Option Text)
  pub insert_audit : ℕ → Result ℕ
  pub select_job : ℕ → Result (Option (Text × JobState))
  pub commit : ℕ → Result ℕ

unfoldable pub invalid_payload_error : (path : Text) → Exception
unfolding lit
invalid_payload_error path = record {
  name = lit "InvalidJobPayloadError";
  message =
      lit "payload contains a sensitivity-shaped key at "
      ++ (path
          ++ lit
              "; jobs.payload must not carry a sensitivity snapshot (ADR-0019 §D8 iron-rule #6 mechanical floor — worker re-reads entries.sensitivity at chunk-write time, so a payload snapshot would let stale tier slip through if the entry is re-tagged during queue dwell).");
}

unfoldable pub contention_error : Exception
unfolding lit
contention_error = record {
  name = lit "Error";
  message = lit "enqueueJob: idempotency-key contention exceeded retry budget; caller should retry";
}

-- A throw, with the rows that the transaction has so far.
abbrev pub thrown : Exception → List JobWrite → Enqueued
thrown e rows = record { result = err e; rows = rows }

-- `db.transaction`: a throw undoes its rows.
unfoldable pub transacted : Enqueued → Enqueued
transacted e = elim e.result [ ok r ↦ e | err x ↦ record { result = err x; rows = [] } ]

-- The commit of the transaction.
abbrev pub committed : Result ℕ → EnqueueResult → List JobWrite → Enqueued
committed (ok n) r rows = record { result = ok r; rows = rows }
committed (err e) r rows = thrown e rows

-- The audit row of an inserted job, and the commit.
abbrev pub audited : Result ℕ → Result ℕ → (id : Text) → Enqueued
audited (ok n) end id = committed end (created id) (job_row id ∷ audit_row id ∷ [])
audited (err e) end id = thrown e (job_row id ∷ [])

module _ (answers : Answers) where
  unfoldable pub job_inserted : (n : ℕ) → (id : Text) → Enqueued
  job_inserted n id = audited (answers.insert_audit n) (answers.commit (suc n)) id

  -- The select after the second conflict.
  unfoldable pub second_look : Result (Option (Text × JobState)) → Enqueued
  unfolding contention_error
  second_look (err e) = thrown e []
  second_look (ok none) = thrown contention_error []
  second_look (ok (some (id, state))) = committed (answers.commit 4) (existing id state) []

  unfoldable pub second_insert : Result (Option Text) → Enqueued
  unfolding job_inserted second_look
  second_insert (err e) = thrown e []
  second_insert (ok none) = second_look (answers.select_job 3)
  second_insert (ok (some id)) = job_inserted 3 id

  -- The select after the first conflict.
  unfoldable pub first_look : Result (Option (Text × JobState)) → Enqueued
  unfolding second_insert
  first_look (err e) = thrown e []
  first_look (ok none) = second_insert (answers.insert_job 2)
  first_look (ok (some (id, state))) = committed (answers.commit 2) (existing id state) []

  unfoldable pub first_insert : Result (Option Text) → Enqueued
  unfolding job_inserted first_look
  first_insert (err e) = thrown e []
  first_insert (ok none) = first_look (answers.select_job 1)
  first_insert (ok (some id)) = job_inserted 1 id

  unfoldable pub enqueue_job : (payload : Json) → Enqueued
  unfolding find_sensitivity_key invalid_payload_error first_insert transacted lit
  enqueue_job payload = elim (find_sensitivity_key payload (lit "$")) [
    | some path ↦ thrown (invalid_payload_error path) []
    | none ↦ transacted (first_insert (answers.insert_job 0))
  ]
