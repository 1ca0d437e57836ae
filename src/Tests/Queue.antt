-- ===== src/Tests/Queue.antt =====
-- A nested payload, and an enqueue that meets a row which is deleted before the select.
use priority_kb.Base.{lit, [], ◌∷◌, none, some, ◌≡◌, ◌↔◌, refl, ◌==◌, if◌then◌else◌}
use priority_kb.Store.Sessions.{ok}
use priority_kb.Jobs.Payload.{
  Json, leaf, array, object, no_items, item, no_fields, field, find_sensitivity_key,
}
use priority_kb.Jobs.Scan.{Clean, find_sensitivity_key-none_iff}
use priority_kb.Jobs.Enqueue.{EnqueueResult, job_row, audit_row, Answers, enqueue_job}
use priority_kb.Jobs.Outcomes.{Fits, enqueue_job-Fits}

abbrev nested : Json
nested = object (
    field (lit "meta")
      (array (item (object (field (lit "Entry_Sensitivity") leaf no_fields)) no_items)) no_fields)

found_nested : find_sensitivity_key nested (lit "$") ≡ some (lit "$.meta[0].Entry_Sensitivity")
unfolding find_sensitivity_key lit
found_nested = refl

find_sensitivity_key-none_iff_example :
    (find_sensitivity_key nested (lit "$") ≡ none) ↔ Clean nested
find_sensitivity_key-none_iff_example = find_sensitivity_key-none_iff nested (lit "$")

abbrev pointer : Json
pointer = object (field (lit "entry_id") leaf no_fields)

-- The first insert conflicts, the select finds nothing, the second insert gives an id.
abbrev raced : Answers
raced = record {
  insert_job = λ n. if n == 0 then ok none else ok (some (lit "j1"));
  insert_audit = λ n. ok 0;
  select_job = λ n. ok none;
  commit = λ n. ok 0;
}

raced_created : (enqueue_job raced pointer).rows ≡ job_row (lit "j1") ∷ audit_row (lit "j1") ∷ []
unfolding enqueue_job find_sensitivity_key lit
raced_created = refl

enqueue_job-Fits_example :
    Fits raced (enqueue_job raced pointer)
    × ((r : EnqueueResult) → (enqueue_job raced pointer).result ≡ ok r → Clean pointer)
enqueue_job-Fits_example = enqueue_job-Fits raced pointer
