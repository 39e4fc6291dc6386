-- ===== src/Buffer/Serve.antt =====
-- src/runtime/buffer.rs: the commands and the loop of the thread that owns the connection. A request
-- carries its command and the two readings of the clock that its operation may take; a reply is what
-- goes back over the command's channel.
pub mod Invariant
pub mod Capped
use nikki.Prelude.{ℕ, Bool, true, false, Option, List, [], ◌∷◌, Text, ℤ}
use nikki.Record.{RecordDraft, Envelope, Cursor, Provider}
use nikki.World.{World}
use nikki.Redact.{Redactor}
use nikki.Buffer.Sql.{Result, Connection}
use nikki.Buffer.Evict.{Caps}
use nikki.Buffer.Operations
use nikki.Buffer.Operations.{PendingRecord, checkpoint}

pub data Command : Type 0 where
  enqueue : List RecordDraft → Option Cursor → Option Text → Command
  take_batch : ℕ → Command
  delete_batch : List ℕ → Command
  dead_letter : List PendingRecord → Text → Command
  read_cursor : Provider → Text → Command
  flush_now close : Command

pub record Request : Type 0 where
  pub command : Command
  pub now : ℤ
  pub later : ℤ

pub data Reply : Type 0 where
  envelopes : Result (List Envelope) → Reply
  batch : Result (List PendingRecord) → Reply
  done : Result (Unit {0}) → Reply
  value : Result (Option Text) → Reply

closes : Command → Bool
closes close = true
closes flush_now = false
closes _ = false

-- `close` answers and returns; anything else goes round the loop.
proceed : Bool → Reply → Connection → List Reply × Connection → List Reply × Connection
proceed true reply c rest = (reply ∷ [], c)
proceed false reply c (replies, last) = (reply ∷ replies, last)

module _ (w : World) (device : Text) (caps : Caps) (redactor : Redactor) where
  respond : {A : Type 0} → (Result A → Reply) → Result A × Connection → Reply × Connection
  respond wrap (r, c) = (wrap r, c)

  -- One arm of the loop's match.
  pub handle : Command → ℤ → ℤ → Connection → Reply × Connection
  unfolding respond
  handle (enqueue drafts cursor record_device) now later c =
      respond envelopes
        (Operations.enqueue w device caps redactor now later drafts cursor record_device c)
  handle (take_batch limit) now later c = respond batch (Operations.take_batch w limit c)
  handle (delete_batch ids) now later c = respond done (Operations.delete_batch w ids c)
  handle (dead_letter records reason) now later c =
      respond done (Operations.dead_letter w records reason now c)
  handle (read_cursor provider key) now later c =
      respond value (Operations.read_cursor w provider key c)
  handle flush_now now later c = respond done (checkpoint w c)
  handle close now later c = respond done (checkpoint w c)

  -- The loop ends at `close`, or when no request is left to come.
  unfoldable pub serve : Connection → List Request → List Reply × Connection
  unfolding handle proceed closes
  serve c [] = ([], c)
  serve c (q ∷ qs) =
      let (reply, c') = handle q.command q.now q.later c in
      let rest = serve c' qs in proceed (closes q.command) reply c' rest
