-- ===== src/Tags/Transforms.antt =====
-- lib/tags.ts: the transforms of a list of tags, and the input of an update with new tags.
use priority_kb.Base.{
  Text, text_eq, ℕ, Bool, true, false, not, ◌&&◌, ◌||◌, List, [], ◌∷◌, Option, none, some, map,
  keep, if◌then◌else◌, includes, unique,
}
use priority_kb.Store.Rows.{EntryRow, AuditExtra}
use priority_kb.Ingest.Entries.{IngestInput}

unfoldable pub arrays_equal : List Text → List Text → Bool
arrays_equal [] [] = true
arrays_equal [] (y ∷ ys) = false
arrays_equal (x ∷ xs) [] = false
arrays_equal (x ∷ xs) (y ∷ ys) = text_eq x y && arrays_equal xs ys

-- A transform gives the new tags, or nothing where the tag is gone.
abbrev pub Transform : Type 0
Transform = List Text → Option (List Text)

unfoldable pub rename_transform : (from to : Text) → Transform
unfolding includes unique
rename_transform from to tags =
    if includes tags from
    then some (unique (map (λ t. if text_eq t from then to else t) tags))
    else none

unfoldable pub delete_transform : (tag : Text) → Transform
unfolding includes
delete_transform tag tags =
    if includes tags tag then some (keep (λ t. not (text_eq t tag)) tags) else none

-- `tags && from`: some tag is a source.
unfoldable pub overlaps : (from : List Text) → List Text → Bool
unfolding includes
overlaps from [] = false
overlaps from (t ∷ ts) = includes from t || overlaps from ts

unfoldable pub merge_transform : (from : List Text) → (to : Text) → Transform
unfolding overlaps unique includes
merge_transform from to tags =
    if overlaps from tags
    then some (unique (map (λ t. if includes from t then to else t) tags))
    else none

unfoldable pub input_of : EntryRow → List Text → IngestInput
input_of e tags = record {
  title = e.title;
  category = e.category;
  tags = tags;
  body = e.body;
  source_pointer = e.source_pointer;
  last_verified_at = e.last_verified_at;
  sensitivity = e.sensitivity;
}

unfoldable pub triggered_by : ℕ → AuditExtra
triggered_by audit_id = record {
  worker_id = none;
  job_id = none;
  triggered_by_audit_id = some audit_id;
}
