-- ===== src/Store/Sessions.antt =====
-- What the database does for lib/ingest.ts and lib/tags.ts: a statement may fail, a transaction that
-- throws leaves the tables as they were, and other sessions commit between this one's transactions.
use priority_kb.Base.{Text, ℕ, suc, List, Option, none, some, Bool, if◌then◌else◌}
use priority_kb.Store.Rows.{Tables}

-- An `Error` with its name and message.
pub record Exception : Type 0 where
  pub name : Text
  pub message : Text

pub data Result (A : Type 0) : Type 0 where
  ok : A → Result A
  err : Exception → Result A

-- The tables, and the number of steps taken so far.
pub record World (V : Type 0) : Type 0 where
  pub tables : Tables V
  pub clock : ℕ

pub record Embedded (V : Type 0) : Type 0 where
  pub vectors : List V
  pub model : Text
  pub version : Text

-- What lies outside: which step fails and how, what the embedder answers, and what other sessions
-- commit before a step.
pub record Outside (V : Type 0) : Type 0 where
  pub fault : ℕ → Option Exception
  pub embed_batch : ℕ → List Text → Result (Embedded V)
  pub others : ℕ → Tables V → Tables V

abbrev pub Action : Type 0 → Type 0 → Type 0
Action V A = World V → Result A × World V

abbrev pub pure : {V A : Type 0} → A → Action V A
pure a w = (ok a, w)

abbrev pub raise : {V A : Type 0} → Exception → Action V A
raise e w = (err e, w)

-- What follows a result.
abbrev pub after : {V A B : Type 0} → Result A × World V → (A → Action V B) → Result B × World V
after (ok a, w) k = k a w
after (err e, w) k = (err e, w)

infixl 5 ◌>>=◌ ◌>>◌
abbrev pub ◌>>=◌ : {V A B : Type 0} → Action V A → (A → Action V B) → Action V B
◌>>=◌ m k w = after (m w) k

abbrev pub ◌>>◌ : {V A B : Type 0} → Action V A → Action V B → Action V B
m >> k = m >>= λ _. k

-- A step that may fail, and what a rollback restores.
module _ {V : Type 0} where
  abbrev pub settle : {A : Type 0} → Option Exception → A → Tables V → World V → Result A × World V
  settle none a t w = (ok a, record { tables = t; clock = suc w.clock })
  settle (some e) a t w = (err e, record { tables = w.tables; clock = suc w.clock })

  abbrev pub undo : {A : Type 0} → Tables V → Result A × World V → Result A × World V
  undo t (ok a, w) = (ok a, w)
  undo t (err e, w) = (err e, record { tables = t; clock = w.clock })

module _ {V : Type 0} (out : Outside V) where
  -- A statement that writes, and one that reads.
  unfoldable pub write : (Tables V → Tables V) → Action V ℕ
  write f w = settle (out.fault w.clock) 0 (f w.tables) w

  unfoldable pub select : {A : Type 0} → (Tables V → A) → Action V A
  select f w = settle (out.fault w.clock) (f w.tables) w.tables w

  -- The other sessions' commits.
  unfoldable pub elsewhere : Action V ℕ
  elsewhere w = (ok 0, record { tables = out.others w.clock w.tables; clock = w.clock })

  -- A transaction or, inside one, a savepoint: the commit is a step, and a failure undoes the whole.
  unfoldable pub atomic : {A : Type 0} → Action V A → Action V A
  unfolding write
  atomic m w = undo w.tables (after (m w) (λ a. write (λ t. t) >> pure a))

  -- `db.transaction`, where `db` is the pool or the handle of a transaction.
  unfoldable pub transaction : {A : Type 0} → (nested : Bool) → Action V A → Action V A
  unfolding elsewhere atomic
  transaction nested m = if nested then atomic m else elsewhere >> atomic m

  unfoldable pub embed : List Text → Action V (Embedded V)
  embed inputs w =
      (out.embed_batch w.clock inputs, record { tables = w.tables; clock = suc w.clock })
