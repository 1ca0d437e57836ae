-- ===== src/Lib.antt =====
-- Verification library of priority-kb, a knowledge base that answers questions with citations.
--
-- The parts and how they interact. A query page sends a question; the retrieval pipeline embeds it,
-- asks a vector lane and a keyword lane for entries that the role may see, fuses the two lists,
-- loads the entries, reranks them, hands the best to a synthesizer, checks the citations of its
-- answer, and streams events to the page while it builds an audit row. The admin chat is a second
-- reducer: it turns the events of an agent stream into the messages of the next request. The
-- version history shows line diffs. Entries come in by a create or an update, which cut the scrubbed
-- body into chunks, embed them, and write entry, version, chunks and audit row in one transaction.
-- The tag operations rename, delete and merge tags by updating every entry that has them.
--
-- Which file models which part:
--   Auth: lib/auth.ts (resolveRoleFromHeader, withAdmin, withUserOrAdmin, sensitivityAllowedForRole).
--   Degraded: lib/retrieval-degraded.ts and mapDegradedReason of lib/retrieval-pipeline.ts.
--   QueryChat: lib/query-chat-state.ts; optional fields are `Option`, an update is a record update.
--   AgentChat: lib/agent-chat-state.ts over the types of lib/agents.ts. State holds the data and the
--     transitions of the page, Tools the map from tool names to waiting ids, Events `applyEvent`.
--     Calls, Wire, Accounting, History and Rounds hold proofs.
--   SseParse: lib/sse-parse.ts, the parser of the agent stream; Lines, Laws and Frames hold proofs.
--   Diff: lib/text-diff.ts; the flat array is a list of rows.
--   Fusion: rrfFuse of lib/retrieval.ts; the map is an association list in insertion order, the
--     stable sort an insertion sort.
--   Citations: lib/retrieval-citations.ts; Blocks holds the regular expressions as scans, Validate
--     the steps of validateCitations.
--   SynthInput: lib/retrieval-synth-input.ts. Rerank: joinRerankedToSynthInput of
--     lib/retrieval-rerank-input.ts. Snippet: lib/snippet.ts.
--   Pipeline: retrievePipeline of lib/retrieval-pipeline.ts and the types of lib/retrieval.ts. Types
--     holds the dependency record, the audit row and the run; Hydrate the rows, bodies and
--     boundaries; Synthesis stage D; Stages the rest, one function for each stage, each of which
--     calls the next one. Eval is evalRetrieve of lib/retrieval-eval.ts. Facts, Exits, Walk, Audit,
--     Page and Isolation hold proofs.
--   Chunk: lib/chunk.ts. Offsets is the map from tokens to offsets and its search, Ranges the places
--     that no boundary may split, with the regular expressions as scans, Boundary findBoundary,
--     Slices the loop and the trailing merge, Embed the texts that are embedded. Decoding states what
--     is relied on in the encoder and the decoder, Breaks what a break of the text is. Lengths,
--     Search, Merge, Cut, Prefer, Rounds and Cover hold proofs.
--   Store: the tables of drizzle/schema.ts that the next two parts write (Rows), and what a
--     statement and a transaction do (Sessions). Lookups and Outcomes hold proofs.
--   Ingest: lib/ingest.ts (Entries the values, Writes the statements) and lib/caption.ts (Caption).
--     Effects, Atomic and Consistent hold proofs.
--   Tags: lib/tags.ts. Names is how a tag is normalised and checked, Payloads the audit payload,
--     Transforms what is done to one list of tags, Operations renameTag, deleteTag and mergeTags.
--     Steps, Swept, One, Sweeps, Runs, Whole, Renamed, MergeNames and Merged hold proofs.
--   Jobs: lib/jobs.ts. Payload is findSensitivityKey on JSON trees, Enqueue enqueueJob over what its
--     statements answer, since other sessions write jobs meanwhile. Scan and Outcomes hold proofs.
--   Base: texts, lists, sets and tests that the parts share. Tests: concrete inputs.
--
-- Bounds and fuel. Strings are lists of UTF-16 code units. Numbers are natural numbers, and nothing
-- that is modelled does arithmetic that can leave the exact integers, except scores: these are a
-- parameter (`Num` of Fusion) with the laws of `<` that sorting needs. The cells of the diff's
-- matrix are 32 bits wide and hold at most the 5000 lines of the cap. All loops are structural
-- recursion or have fuel: `decimal` of SynthInput the number itself, which has fewer digits; the
-- binary search of Chunk the length of its table, since its range shrinks in each round; the loop
-- of `chunk` one more than the number of tokens, since each slice starts at a later token than the
-- one before. The search adds two indices as 32-bit words. A string of V8 has at most 536870888
-- units, so that there are fewer than 2 ^ 31 tokens. The options of `chunk` are natural numbers.
--
-- Generators and exceptions. A run is the list of the events it yields with its end, an audit row
-- or an exception. A vendor call succeeds, is unavailable, or throws; a database call returns or
-- fails. Ingestion and the tag operations are sequences of statements on the tables. Any statement
-- may fail, as a function of the steps taken says; a transaction or a savepoint that throws
-- restores the tables; other sessions may commit before each transaction of this one, as a function
-- on the tables says, and what holds only without them has that as a hypothesis. They do not commit
-- in the middle of a transaction.
--
-- What is not modelled: the vendors and the database behind the dependency record, latencies, the
-- drain helpers, the text of keyword-only representatives, routes and pages, entry lists,
-- logging, the regular expressions of lib/scrub.ts, and the Python worker. The Unicode class of
-- marks, the NFC normalisation, the token encoder, JSON.stringify and toFixed are parameters, as are
-- JSON.parse and the streaming text decoder.
pub mod Base
pub mod Auth
pub mod Degraded
pub mod QueryChat
pub mod AgentChat
pub mod Diff
pub mod Fusion
pub mod Citations
pub mod Chunk
pub mod Store
pub mod Jobs
pub mod Ingest
pub mod Tags
pub mod SynthInput
pub mod Rerank
pub mod Snippet
pub mod Pipeline
pub mod Tests
pub mod SseParse
