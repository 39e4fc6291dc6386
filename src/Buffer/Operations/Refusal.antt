-- ===== src/Buffer/Operations/Refusal.antt =====
-- `enqueue` on a counter that does not parse.
use nikki.Prelude.{◌≡◌, refl, sym, subst, Option, none, some, List, Text, ℤ, parse_u64}
use nikki.Record.{RecordDraft, Cursor}
use nikki.World.{World}
use nikki.Redact.{Redactor}
use nikki.Buffer.Sql.{
  BufferError, Result, ok, err, Tx, Tables, Connection, followed_by, ◌>>=◌, fail, call, query,
  settle, transaction,
}
use nikki.Buffer.Sql.Yields.{Ends, Yields-call, Yields-query, transaction-rolls_back}
use nikki.Buffer.Evict.{Caps}
use nikki.Buffer.Operations.{seq_key, select_meta, parse_seq, read_seq, enqueue_body, enqueue}
use nikki.Buffer.Operations.Enqueue.{stored_seq, counter_of}

abbrev IsFailure : {A : Type 0} → Result A × Connection → Type 0
IsFailure (ok a, c) = ⊥
IsFailure (err e, c) = Unit

followed_by-IsFailure :
    (w : World) {A B : Type 0} (r : Result A × Connection) (next : A → Tx B) (a : A) (t : Tables)
    → Ends w r a t
    → ((c : Connection) → c.tables ≡ t → IsFailure (next a c))
    → IsFailure (followed_by r next)
unfolding followed_by
followed_by-IsFailure w (ok x, c) next a t (p, q) k =
    subst (λ y. IsFailure (next y c)) (sym p) (k c q)
followed_by-IsFailure w (err e, c) next a t h k = tt

IsFailure-first :
    {A B : Type 0} (r : Result A × Connection) (next : A → Tx B)
    → IsFailure r
    → IsFailure (followed_by r next)
unfolding followed_by
IsFailure-first (ok x, c) next h = absurd h
IsFailure-first (err e, c) next h = tt

settle-IsFailure :
    {A : Type 0} (before : Tables) (r : Result A × Connection)
    → IsFailure r
    → IsFailure (settle before r)
unfolding settle
settle-IsFailure before (ok x, c) h = h
settle-IsFailure before (err e, c) h = tt

parse_seq-IsFailure :
    (w : World) (o : Option Text) (c : Connection)
    → counter_of o ≡ none
    → IsFailure (parse_seq w o c)
unfolding parse_seq fail
parse_seq-IsFailure w none c e = absurd (cc)
parse_seq-IsFailure w (some stored) c e =
    let unread : parse_u64 stored ≡ none = e in rw (unread, parse_seq) tt

failure_error :
    {A : Type 0} (r : Result A × Connection) → IsFailure r → (e : BufferError) × (r.0 ≡ err e)
failure_error (ok x, c) h = absurd h
failure_error (err e, c) h = (e, refl)

-- A counter that does not parse refuses every `enqueue`, in any world, and no table changes.
pub enqueue_refused :
    (w : World) (device : Text) (caps : Caps) (redactor : Redactor) (now later : ℤ)
    (drafts : List RecordDraft) (cursor : Option Cursor) (record_device : Option Text)
    (c : Connection)
    → stored_seq c.tables ≡ none
    → (e : BufferError) × ((enqueue w device caps redactor now later drafts cursor record_device
          c).0
        ≡ err e)
      × ((enqueue w device caps redactor now later drafts cursor record_device c).1.tables
          ≡ c.tables)
unfolding enqueue transaction enqueue_body read_seq ◌>>=◌
enqueue_refused w device caps redactor now later drafts cursor record_device c damaged =
    let failed = settle-IsFailure c.tables _ (
      followed_by-IsFailure w (call w c) _ tt c.tables (Yields-call w c c.tables refl) λ c1 at1.
        IsFailure-first _ _ (
          IsFailure-first _ _ (
            followed_by-IsFailure w (query w _ c1) _ _ c.tables
              (Yields-query w c1 c.tables at1 (λ t. select_meta seq_key t.meta))
              λ c2 at2. parse_seq-IsFailure w (select_meta seq_key c.tables.meta) c2 damaged))) in
    let (e, error) = failure_error _ failed in (e, error, transaction-rolls_back w _ c e error)
