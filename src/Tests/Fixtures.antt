-- ===== src/Tests/Fixtures.antt =====
-- Numbers, entries and dependencies for the tests.
use priority_kb.Base.{Text, lit, ℕ, ◌+◌, ◌/◌, ltb, true, false, [], ◌∷◌, some, ◌≡◌, arith}
use priority_kb.Auth.{public}
use priority_kb.Fusion.{Num}
use priority_kb.Pipeline.Types.{
  succeeded, unavailable, returned, HydratedEntryRow, PipelineDeps, Synthesizer,
}

pub ltb_asym : (x y : ℕ) → ltb x y ≡ true → ltb y x ≡ false
ltb_asym x y h = ground arith

pub ltb_neg_trans : (x y z : ℕ) → ltb x y ≡ false → ltb y z ≡ false → ltb x z ≡ false
ltb_neg_trans x y z h k = ground arith

-- Millionths as natural numbers.
abbrev pub millionths : Num
millionths = record {
  F = ℕ;
  zero_num = 0;
  add = λ x y. x + y;
  recip = λ n. 1000000 / n;
  lt = ltb;
  is_finite = λ x. true;
  to_fixed = λ x digits. lit "0";
  lt_asym = ltb_asym;
  lt_neg_trans = ltb_neg_trans;
}

abbrev pub id_a : Text
id_a = lit "11111111-1111-4111-8111-111111111111"

abbrev pub id_b : Text
id_b = lit "22222222-2222-4222-8222-222222222222"

abbrev pub question : Text
question = lit "when"

abbrev row : Text → Text → HydratedEntryRow
row id body = record {
  id = id;
  title = lit "T";
  body = body;
  category = lit "note";
  tags = [];
  source_pointer = lit "s";
  sensitivity = public;
  last_verified_at = lit "2026-01-01";
}

abbrev pub answer_text : Text
answer_text =
    lit
      "On Monday [11111111-1111-4111-8111-111111111111].\n\nSources: [11111111-1111-4111-8111-111111111111]"

abbrev pub synth : Synthesizer
synth = record {
  model = lit "m";
  version = lit "1";
  synthesize =
      λ prompt context. succeeded (record { answer = answer_text; tokens_in = 3; tokens_out = 2 });
}

-- Both lanes work, the reranker is down, the synthesizer cites the first entry.
abbrev pub live : PipelineDeps ℕ ℕ
live = record {
  embedder_model = lit "e";
  embedder_version = lit "1";
  embed = λ q. succeeded (record { vector = 7; tokens_used = 1 });
  ann_fn =
      λ v allowed m w k j. returned (record { entry_id = id_a; best_chunk_id = lit "c1" } ∷ []);
  keyword_fn = λ q allowed k. returned (id_b ∷ id_a ∷ []);
  fetch_entries_fn = λ ids. returned (row id_a (lit "Monday") ∷ row id_b (lit "Tuesday") ∷ []);
  fetch_chunk_slices_fn = λ ids. returned [];
  rerank = λ q bodies n. unavailable (lit "down");
  synth = some synth;
  rrf_k = 60;
  agent_prompt = lit "p";
  stricter_prefix = lit "s";
  retry_prefix_hash = lit "h";
  representative = λ title body. some body;
  is_mark = λ c. false;
}
