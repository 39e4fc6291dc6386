-- ===== src/Buffer/Sql.antt =====
-- src/runtime/buffer.rs: the schema, and what `rusqlite` does of it. A table is its rows in the order
-- of their ids. Every statement may fail, by the answer of `World.fault` at its number; a transaction
-- that is not committed leaves the tables as they were.
pub mod Yields
use nikki.Prelude.{ℕ, suc, Option, none, some, List, [], Text}
use nikki.World.{World}

pub data BufferError : Type 0 where
  statement serialise : Text → BufferError
  counter : Text → Text → BufferError
  closed : BufferError

pub data Result (A : Type 0) : Type 0 where
  ok : A → Result A
  err : BufferError → Result A

pub record PendingRow : Type 0 where
  pub id : ℕ
  pub envelope : Text
  pub bytes : ℕ
  pub created_at : Text

pub record CursorRow : Type 0 where
  pub provider : Text
  pub key : Text
  pub value : Text

pub record DeadRow : Type 0 where
  pub id : ℕ
  pub envelope : Text
  pub bytes : ℕ
  pub reason : Text
  pub at : Text

pub record Tables : Type 0 where
  pub pending : List PendingRow
  pub cursors : List CursorRow
  pub dead_letter : List DeadRow
  pub meta : List (Text × Text)

abbrev pub empty_tables : Tables
empty_tables = record { pending = []; cursors = []; dead_letter = []; meta = [] }

-- The tables, and how many statements have run.
pub record Connection : Type 0 where
  pub tables : Tables
  pub ran : ℕ

-- A body of statements: its result, and the connection that it leaves.
abbrev pub Tx : Type 0 → Type 0
Tx A = Connection → Result A × Connection

-- `?`: an error ends the body.
unfoldable pub followed_by :
    {A B : Type 0} → Result A × Connection → (A → Tx B) → Result B × Connection
followed_by (ok a, c) next = next a c
followed_by (err e, c) next = (err e, c)

infixl 5 ◌>>=◌ ◌>>◌
unfoldable pub ◌>>=◌ : {A B : Type 0} → Tx A → (A → Tx B) → Tx B
unfolding followed_by
◌>>=◌ body next c = followed_by (body c) next

abbrev pub ◌>>◌ : {B : Type 0} → Tx (Unit {0}) → Tx B → Tx B
first >> second = first >>= λ _. second

unfoldable pub pure : {A : Type 0} → A → Tx A
pure a c = (ok a, c)

unfoldable pub fail : {A : Type 0} → BufferError → Tx A
fail e c = (err e, c)

unfoldable pub tables_of : Tx Tables
tables_of c = (ok c.tables, c)

unfoldable pub write_tables : (Tables → Tables) → Tx (Unit {0})
write_tables change c = (ok tt, record c { tables = change c.tables })

-- An uncommitted transaction is rolled back when it is dropped.
unfoldable pub settle : {A : Type 0} → Tables → Result A × Connection → Result A × Connection
settle before (ok a, c) = (ok a, c)
settle before (err e, c) = (err e, record c { tables = before })

module _ (w : World) where
  answer : Option Text → Result (Unit {0})
  answer none = ok tt
  answer (some e) = err (statement e)

  -- One call of the engine.
  unfoldable pub call : Tx (Unit {0})
  unfolding answer
  call c = (answer (w.fault c.ran), record c { ran = suc c.ran })

  -- A statement that reads.
  unfoldable pub query : {A : Type 0} → (Tables → A) → Tx A
  query read = do call; tables ← tables_of; pure (read tables)

  -- A statement that writes.
  unfoldable pub execute : (Tables → Tables) → Tx (Unit {0})
  execute change = do call; write_tables change

  -- `connection.transaction()?`, the body, `transaction.commit()?`.
  unfoldable pub transaction : {A : Type 0} → Tx A → Tx A
  unfolding settle
  transaction body c = settle c.tables ((do call; a ← body; call; pure a) c)
