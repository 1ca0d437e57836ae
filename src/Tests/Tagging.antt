-- ===== src/Tests/Tagging.antt =====
-- One entry with two tags, the encoder of Tests/Coding, and a database without failures.
use priority_kb.Base.{
  Text, lit, ℕ, false, ◌||◌, List, [], ◌∷◌, none, map, ◌≡◌, refl, arith, includes, In, text_eq,
  is_space,
}
use priority_kb.Auth.{internal}
use priority_kb.Chunk.Decoding.{Readable}
use priority_kb.Tests.Coding.{utf8, byte_encoder, byte_encoder-Documented}
use priority_kb.Store.Rows.{EntryRow, Tables, direct}
use priority_kb.Store.Sessions.{Result, ok, Outside, World}
use priority_kb.Store.Outcomes.{Ends, Start}
use priority_kb.Ingest.Entries.{Tools, IngestInput, no_extra}
use priority_kb.Ingest.Writes.{create_entry, update_entry}
use priority_kb.Ingest.Atomic.{UpdatedFrom, CreatedFrom, update_entry-Ends, create_entry-Ends}
use priority_kb.Ingest.Consistent.{Consistent, Reliable, update_entry-Consistent}
use priority_kb.Tags.Names.{normalize_tag}
use priority_kb.Tags.Operations.{rename_transform, rename_tag, delete_tag}
use priority_kb.Tags.Runs.{Reports}
use priority_kb.Tags.Renamed.{
  renamed, deleted, rename_transform-replaces, rename_tag-Ends, delete_tag-Ends,
}

abbrev plain_tools : Tools ℕ
plain_tools = record {
  scrub = λ t. t;
  nfc = λ t. t;
  encoder = byte_encoder;
  is_mark = λ c. false;
  prompt_hash = lit "h";
  new_id = λ n. lit "new";
  encoder_error = record { name = lit "Error"; message = lit "special token" };
}

-- One vector for each text, no failing step, no other session.
abbrev calm : Outside Text
calm = record {
  fault = λ n. none;
  embed_batch = λ n inputs. ok (record { vectors = inputs; model = lit "m"; version = lit "v" });
  others = λ n t. t;
}

abbrev invoice : EntryRow
invoice = record {
  id = lit "e1";
  title = lit "Invoice";
  category = lit "c";
  tags = lit "vendor" ∷ lit "tax" ∷ [];
  body = lit "Open the form.";
  caption = none;
  source_pointer = lit "s";
  last_verified_at = lit "d";
  sensitivity = internal;
}

abbrev one_entry : World Text
one_entry = record {
  tables = record { entries = invoice ∷ []; versions = []; chunks = []; audit = [] };
  clock = 0;
}

abbrev new_input : IngestInput
new_input = record {
  title = lit "Invoice";
  category = lit "c";
  tags = lit "tax" ∷ [];
  body = lit "Close the form.";
  source_pointer = lit "s";
  last_verified_at = lit "d";
  sensitivity = internal;
}

one_entry-Consistent : Consistent one_entry.tables
one_entry-Consistent = record { chunk_rows = tt; versions = tt; agent_rows = tt }

plain_tools-Reliable : Reliable plain_tools
plain_tools-Reliable = record { documented = byte_encoder-Documented; nfc_twice = λ t. refl }

new_body-Readable : Readable new_input.body
unfolding lit
new_body-Readable = record { unmarked = λ rest h. ground arith; fits = omega arith }

update_entry-Ends_example :
    Ends
      (update_entry calm plain_tools false (lit "e1") new_input direct no_extra one_entry)
      (λ _ t.
        (t0 : Tables Text) × Start calm one_entry t0
        × UpdatedFrom calm plain_tools t0 direct (lit "e1") new_input no_extra t)
      (Start calm one_entry)
update_entry-Ends_example =
    update_entry-Ends calm plain_tools false (lit "e1") new_input direct no_extra one_entry

create_entry-Ends_example :
    Ends
      (create_entry calm plain_tools false new_input direct none one_entry)
      (λ _ t.
        (t0 : Tables Text) × Start calm one_entry t0
        × CreatedFrom calm plain_tools t0 direct new_input t)
      (Start calm one_entry)
create_entry-Ends_example = create_entry-Ends calm plain_tools false new_input direct none one_entry

update_entry-Consistent_example :
    Ends
      (update_entry calm plain_tools false (lit "e1") new_input direct no_extra one_entry)
      (λ _ t. Consistent t)
      (λ t. Consistent t)
update_entry-Consistent_example =
    update_entry-Consistent calm plain_tools false (lit "e1") new_input direct no_extra one_entry
      plain_tools-Reliable new_body-Readable (λ n t c. c) one_entry-Consistent

rename_tag-Ends_example :
    Ends
      (rename_tag calm plain_tools (lit "vendor") (lit "supplier") one_entry)
      (Reports
        (renamed (normalize_tag (λ t. t) (lit "vendor")) (normalize_tag (λ t. t) (lit "supplier")))
        one_entry.tables)
      (λ t. t ≡ one_entry.tables)
rename_tag-Ends_example =
    rename_tag-Ends calm plain_tools (λ n t. refl) (lit "vendor") (lit "supplier") one_entry

delete_tag-Ends_example :
    Ends
      (delete_tag calm plain_tools (lit "tax") one_entry)
      (Reports (deleted (normalize_tag (λ t. t) (lit "tax"))) one_entry.tables)
      (λ t. t ≡ one_entry.tables)
delete_tag-Ends_example = delete_tag-Ends calm plain_tools (λ n t. refl) (lit "tax") one_entry

abbrev both : List Text
both = lit "vendor" ∷ lit "tax" ∷ []

rename_transform-replaces_example :
    (includes (lit "supplier" ∷ lit "tax" ∷ []) (lit "vendor") ≡ false)
    × In (lit "supplier" ∷ lit "tax" ∷ []) (lit "supplier")
    × ((t : Text)
        → text_eq (lit "vendor") t ≡ false
        → includes (lit "supplier" ∷ lit "tax" ∷ []) t
          ≡ (includes both t || text_eq (lit "supplier") t))
unfolding lit text_eq rename_transform
rename_transform-replaces_example =
    rename_transform-replaces (lit "vendor") (lit "supplier") both (lit "supplier" ∷ lit "tax" ∷ [])
      refl refl

module _ {A : Type 0} where
  tags_after : Result A × World Text → List (List Text)
  tags_after (r, w) = map (λ (e : EntryRow). e.tags) w.tables.entries

renamed_entry :
    tags_after (rename_tag calm plain_tools (lit "vendor") (lit "tax") one_entry)
    ≡ (lit "tax" ∷ []) ∷ []
unfolding tags_after rename_tag lit text_eq is_space includes utf8
renamed_entry = refl
