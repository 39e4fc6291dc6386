-- ===== src/Buffer/Serve/Invariant.antt =====
-- What a command of the buffer's thread does to tables whose rows are in order, also when it fails.
use nikki.Prelude.{ℕ, ◌≡◌, refl, sym, subst, inl, inr, Option, List, [], ◌∷◌, Text, ℤ}
use nikki.Record.{RecordDraft, Cursor}
use nikki.World.{World}
use nikki.Redact.{Redactor}
use nikki.Buffer.Sql.{Result, Tables, Connection, BufferError, err, pure}
use nikki.Buffer.Sql.Yields.{Ends, Ends-cases, transaction-rolls_back}
use nikki.Buffer.Evict.{Caps, candidate_of_pending, candidate_of_dead}
use nikki.Buffer.Evict.Rows.{IsAscending, IsAscending-drop}
use nikki.Buffer.Operations
use nikki.Buffer.Operations.{PendingRecord, checkpoint}
use nikki.Buffer.Operations.Batch.{
  delete_batch-Yields, dead_letter-Yields, dead_lettered, buried-IsAscending,
}
use nikki.Buffer.Operations.Removal.{removed-IsAscending, removed-dead, ids_of, pending-buried}

-- Both tables stand in the order of their ids.
pub record IsOrdered (t : Tables) : Type 0 where
  pub pending : IsAscending candidate_of_pending t.pending
  pub dead : IsAscending candidate_of_dead t.dead_letter

-- A run that succeeds with tables of a kind, or fails and changes none, keeps the tables of that kind.
pub keeps :
    (w : World) (P : Tables → Type 0) {A : Type 0} (r : Result A × Connection) (a : A)
    (before after : Tables)
    → Ends w r a after
    → ((e : BufferError) → r.0 ≡ err e → r.1.tables ≡ before)
    → P before
    → P after
    → P r.1.tables
keeps w P r a before after h back o o' = elim (Ends-cases w r a after h) [
  | inl (fine, at) ↦ subst P (sym at) o'
  | inr (e, failed, sick) ↦ subst P (sym (back e failed)) o
]

pub dead_letter_rolls_back :
    (w : World) (rs : List PendingRecord) (reason : Text) (now : ℤ) (c : Connection)
    (e : BufferError)
    → (Operations.dead_letter w rs reason now c).0 ≡ err e
    → (Operations.dead_letter w rs reason now c).1.tables ≡ c.tables
unfolding Operations.dead_letter pure
dead_letter_rolls_back w [] reason now c e h = refl
dead_letter_rolls_back w (r ∷ rs) reason now c e h = transaction-rolls_back w _ c e h

pub delete_batch_rolls_back :
    (w : World) (ids : List ℕ) (c : Connection) (e : BufferError)
    → (Operations.delete_batch w ids c).0 ≡ err e
    → (Operations.delete_batch w ids c).1.tables ≡ c.tables
unfolding Operations.delete_batch pure
delete_batch_rolls_back w [] c e h = refl
delete_batch_rolls_back w (id ∷ ids) c e h = transaction-rolls_back w _ c e h

pub enqueue_rolls_back :
    (w : World) (device : Text) (caps : Caps) (redactor : Redactor) (now later : ℤ)
    (drafts : List RecordDraft) (cursor : Option Cursor) (record_device : Option Text)
    (c : Connection) (e : BufferError)
    → (Operations.enqueue w device caps redactor now later drafts cursor record_device c).0 ≡ err e
    → (Operations.enqueue w device caps redactor now later drafts cursor record_device c).1.tables
      ≡ c.tables
unfolding Operations.enqueue
enqueue_rolls_back w device caps redactor now later drafts cursor record_device c e h =
    transaction-rolls_back w _ c e h

pub dead_lettered-IsOrdered :
    (w : World) (rs : List PendingRecord) (reason : Text) (now : ℤ) (t : Tables)
    → IsOrdered t
    → IsOrdered (dead_lettered w rs reason now t)
unfolding dead_lettered
dead_lettered-IsOrdered w [] reason now t o = o
dead_lettered-IsOrdered w (r ∷ rs) reason now t o = record {
  pending =
      subst (IsAscending candidate_of_pending)
        (sym (pending-buried (r ∷ rs) reason (w.to_rfc3339 now) t t refl))
        (removed-IsAscending (ids_of (r ∷ rs)) t o.pending);
  dead =
      IsAscending-drop candidate_of_dead _ _
        (buried-IsAscending (r ∷ rs) reason (w.to_rfc3339 now) t o.dead);
}

pub delete_batch-IsOrdered :
    (w : World) (ids : List ℕ) (c : Connection)
    → IsOrdered c.tables
    → IsOrdered (Operations.delete_batch w ids c).1.tables
delete_batch-IsOrdered w ids c o =
    keeps w IsOrdered (Operations.delete_batch w ids c) tt c.tables _
      (delete_batch-Yields w ids c c.tables refl) (delete_batch_rolls_back w ids c) o
      (record {
        pending = removed-IsAscending ids c.tables o.pending;
        dead = subst (IsAscending candidate_of_dead) (sym (removed-dead ids c.tables)) o.dead;
      })

pub dead_letter-IsOrdered :
    (w : World) (records : List PendingRecord) (reason : Text) (now : ℤ) (c : Connection)
    → IsOrdered c.tables
    → IsOrdered (Operations.dead_letter w records reason now c).1.tables
dead_letter-IsOrdered w records reason now c o =
    keeps w IsOrdered (Operations.dead_letter w records reason now c) tt c.tables _
      (dead_letter-Yields w records reason now c c.tables refl o.dead)
      (dead_letter_rolls_back w records reason now c) o
      (dead_lettered-IsOrdered w records reason now c.tables o)
