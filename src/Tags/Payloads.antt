-- ===== src/Tags/Payloads.antt =====
-- lib/tags.ts: the payload of a tag operation's audit row, and the reason of a failure.
use priority_kb.Base.{
  Text, lit, ℕ, ◌-◌, Bool, List, [], ◌∷◌, ◌++◌, Option, none, some, length, take, leb, ltb,
  if◌then◌else◌,
}
use priority_kb.Store.Rows.{Payload, of_tags}
use priority_kb.Store.Sessions.{Exception}

abbrev pub affected_ids_cap : ℕ
affected_ids_cap = 1000

pub record Capped : Type 0 where
  pub affected_entry_ids : List Text
  pub affected_entry_count : ℕ
  pub truncated_count : Option ℕ

unfoldable pub cap_affected_ids : List Text → Capped
cap_affected_ids ids =
    if leb (length ids) affected_ids_cap
    then record {
      affected_entry_ids = ids;
      affected_entry_count = length ids;
      truncated_count = none;
    }
    else record {
      affected_entry_ids = take affected_ids_cap ids;
      affected_entry_count = length ids;
      truncated_count = some (length ids - affected_ids_cap);
    }

-- How an operation went, as `partialFailure` and `partialFailureReason`.
pub record Progress : Type 0 where
  pub affected : List Text
  pub failure : Option Text

abbrev pub is_failure : Option Text → Bool
is_failure none = Bool.false
is_failure (some r) = Bool.true

-- `buildTagRenamePayload`, `buildTagDeletePayload` and `buildTagMergePayload`: the reason is given
-- just where the flag is set.
unfoldable pub build_tag_payload : (from : List Text) → (to : Option Text) → Progress → Payload
unfolding cap_affected_ids
build_tag_payload from to p =
    let capped = cap_affected_ids p.affected in
    of_tags (record {
      from = from;
      to = to;
      affected_entry_ids = capped.affected_entry_ids;
      affected_entry_count = capped.affected_entry_count;
      truncated_count = capped.truncated_count;
      partial_failure = is_failure p.failure;
      partial_failure_reason = p.failure;
    })

-- The payload of the row written at the start.
unfoldable pub start_payload : (from : List Text) → (to : Option Text) → Payload
start_payload from to = of_tags (record {
  from = from;
  to = to;
  affected_entry_ids = [];
  affected_entry_count = 0;
  truncated_count = none;
  partial_failure = Bool.false;
  partial_failure_reason = none;
})

abbrev pub named : Text → Text
named [] = lit "Error"
named (c ∷ s) = c ∷ s

-- `stringifyError` of an `Error`.
unfoldable pub stringify_error : Exception → Text
unfolding lit
stringify_error e =
    let tail = if ltb 200 (length e.message) then take 200 e.message ++ lit "…" else e.message in
    named e.name ++ (lit ": " ++ tail)
