-- ===== src/Ship/Shipment.antt =====
-- src/runtime/ship.rs: what one shipment does to the buffer, in any world and while other commands
-- run between the batch being taken and the verdict being carried out.
use nikki.Prelude.{
  ℕ, ◌≤◌, ◌<◌, ◌≡◌, ◌⊎◌, refl, sym, ap, ◌∙◌, subst, inl, inr, none, some, ℤ, List, [], ◌∷◌, ◌++◌,
  map, Text, take, drop, map-drop, take-append-drop, length, arith, leb, Bool-cases, max, ◌/◌,
}
use mathlib.Core.List.{append_assoc}
use nikki.World.{World}
use nikki.Buffer.Sql.{BufferError, Result, ok, err, Tables, Connection, PendingRow}
use nikki.Buffer.Sql.Yields.{Ends, Ends-cases, transaction-rolls_back}
use nikki.Buffer.Evict.{candidate_of_pending, candidate_of_dead}
use nikki.Buffer.Evict.Rows.{IsAscending}
use nikki.Buffer.Evict.Runs.{overdue_dead}
use nikki.Buffer.Operations.{PendingRecord, take_batch, delete_batch, dead_letter}
use nikki.Buffer.Operations.Batch.{
  records_of, removed, buried, delete_batch-Yields, dead_letter-Yields, take_batch-Yields,
  take_batch-IsReadOnly,
}
use nikki.Buffer.Operations.Batch
use nikki.Buffer.Operations.Removal.{
  ids_of, removed-prefix, pending-buried, graves, graves-buried, ids_of-records_of,
}
use nikki.Buffer.Serve.Invariant.{IsOrdered}
use nikki.Ship.{
  Answer, Disposition, delete, keep, dead_letters, shrinks, Progress, idle, shipped, kept,
  dead_lettered, shrunk, Exchange, Shipping, body_for, decide, decide_accepted, response,
  transport_error, disposition_of, conclude, shrink, dispose, post_batch, ship_once, min_batch,
}
use nikki.Ship.Verdict.{
  AccountsFor, HasStatus, IsPermanent, IsDelete-AccountsFor, IsBurial-IsPermanent, IsDelete,
  IsBurial,
}

-- What is left of the tables when a batch was delivered: the rows that follow it, nothing else moved.
abbrev pub Delivered : List PendingRow → Tables → Tables → Type 0
Delivered left before after = (after.pending ≡ left) × (after.dead_letter ≡ before.dead_letter)

-- And when it was buried: its envelopes stand last in the dead letter table, each with one reason,
-- but for the oldest rows of that table.
abbrev pub Buried : List PendingRecord → List PendingRow → Tables → Tables → Type 0
Buried batch left before after =
    (after.pending ≡ left)
    × ((reason : Text) × (k : ℕ) × (graves after
          ≡ drop k (graves before ++ map (λ r. (r.envelope, reason)) batch)))

module _ (w : World) (rows left : List PendingRow) (t : Tables) (split : t.pending ≡ rows ++ left)
    (up : IsAscending candidate_of_pending t.pending) where
  removed-Delivered : Delivered left t (removed (ids_of (records_of rows)) t)
  removed-Delivered =
      let e =
        ap (λ ids. removed ids t) (ids_of-records_of rows) ∙ removed-prefix rows left t split up in
      (ap (λ u. u.pending) e, ap (λ u. u.dead_letter) e)

  dead_lettered-Buried :
      (r : PendingRecord) (rs : List PendingRecord) (reason : Text) (now : ℤ)
      → r ∷ rs ≡ records_of rows
      → Buried (r ∷ rs) left t (Batch.dead_lettered w (r ∷ rs) reason now t)
  unfolding Batch.dead_lettered
  dead_lettered-Buried r rs reason now e =
      let at = w.to_rfc3339 now in
      let moved = buried (r ∷ rs) reason at t in
      (
        pending-buried (r ∷ rs) reason at t t refl
            ∙ ap (λ b. (removed (ids_of b) t).pending) e
            ∙ removed-Delivered.0,
        (
          reason,
          overdue_dead moved.dead_letter,
          map-drop (λ x. (x.envelope, x.reason)) (overdue_dead moved.dead_letter) moved.dead_letter
              ∙ ap (drop (overdue_dead moved.dead_letter)) (graves-buried (r ∷ rs) reason at t),
        ),
      )

-- A 413 that cannot be answered by a smaller batch.
abbrev pub IsAtFloor : ℕ → Answer → Type 0
IsAtFloor size a = HasStatus (λ s. s ≡ 413) a × (size ≤ min_batch)

abbrev pub IsRefused : ℕ → Answer → Type 0
IsRefused size a = HasStatus IsPermanent a ⊎ IsAtFloor size a

-- A shipment that ends a draining: it failed, found nothing, or kept the batch.
abbrev pub IsFinal : Result Progress → Type 0
IsFinal (err e) = Unit
IsFinal (ok idle) = Unit
IsFinal (ok (kept reason)) = Unit
IsFinal (ok progress) = ⊥

-- What a shipment of `batch` may come to, when the rows of `left` follow it in the tables `before`:
-- it failed or kept the batch; the batch size was halved; the batch was accounted for and is gone;
-- or it was refused and is buried.
abbrev pub Fate : ℕ → Answer → List PendingRecord → List PendingRow → Tables → Shipping → Type 0
Fate size a batch left before out =
    (IsFinal out.0 × (out.1.buffer.tables ≡ before))
    ⊎ (HasStatus (λ s. s ≡ 413) a
        × (min_batch < size)
        × (out.1.batch_size ≡ max (length batch / 2) min_batch)
        × (out.0 ≡ ok (shrunk out.1.batch_size))
        × (out.1.buffer.tables ≡ before))
    ⊎ (AccountsFor a (length batch)
        × (out.0 ≡ ok (shipped (length batch)))
        × (out.1.batch_size ≡ size)
        × Delivered left before out.1.buffer.tables)
    ⊎ (IsRefused size a
        × (out.0 ≡ ok (dead_lettered (length batch)))
        × (out.1.batch_size ≡ size)
        × Buried batch left before out.1.buffer.tables)

IsShrink : Disposition → Type 0
IsShrink shrinks = Unit
IsShrink _ = ⊥

shrink_only : (a : Answer) (n : ℕ) → IsShrink (disposition_of a n) → HasStatus (λ s. s ≡ 413) a
unfolding disposition_of decide decide_accepted IsShrink
shrink_only (response status none) n h = ground arith
shrink_only (response status (some r)) n h = ground arith
shrink_only (transport_error e) n h = h

pub length-ids_of : (batch : List PendingRecord) → length (ids_of batch) ≡ length batch
length-ids_of [] = refl
length-ids_of (r ∷ rs) = omega (arith, length-ids_of rs)

pub conclude-ok :
    (w : World) (size : ℕ) (p : Progress) (r : Result (Unit {0}) × Connection) (t : Tables)
    → (r.0 ≡ ok tt) × (r.1.tables ≡ t)
    → ((conclude w size p r).0 ≡ ok p)
      × ((conclude w size p r).1.batch_size ≡ size)
      × ((conclude w size p r).1.buffer.tables ≡ t)
unfolding conclude
conclude-ok w size p (ok u, c) t (e, at) = (refl, refl, at)
conclude-ok w size p (err x, c) t (e, at) = absurd (cc)

conclude-err :
    (w : World) (size : ℕ) (p : Progress) (r : Result (Unit {0}) × Connection) (t : Tables)
    (e : BufferError)
    → r.0 ≡ err e
    → r.1.tables ≡ t
    → IsFinal (conclude w size p r).0 × ((conclude w size p r).1.buffer.tables ≡ t)
unfolding conclude
conclude-err w size p (ok u, c) t e h at = absurd (cc)
conclude-err w size p (err x, c) t e h at = (tt, at)

module _ (w : World) (rows left : List PendingRow) (c : Connection)
    (split : c.tables.pending ≡ rows ++ left)
    (up : IsAscending candidate_of_pending c.tables.pending)
    (dead_up : IsAscending candidate_of_dead c.tables.dead_letter) (size : ℕ) (a : Answer)
    (r : PendingRecord) (rs : List PendingRecord) (taken : r ∷ rs ≡ records_of rows) where
  abbrev Comes : Shipping → Type 0
  Comes out = Fate size a (r ∷ rs) left c.tables out

  delete_outcome :
      AccountsFor a (length (r ∷ rs))
      → Comes (
          conclude w size (shipped (length (ids_of (r ∷ rs)))) (delete_batch w (ids_of (r ∷ rs)) c))
  unfolding delete_batch
  delete_outcome counted =
      let run = delete_batch w (ids_of (r ∷ rs)) c in
      elim (Ends-cases w run tt _ (delete_batch-Yields w (ids_of (r ∷ rs)) c c.tables refl)) [
        | inl done ↦
            let (progress, same, at) =
              conclude-ok w size (shipped (length (ids_of (r ∷ rs)))) run _ done in
            inr (
              inr (
                inl (
                  counted,
                  progress ∙ ap (λ n. ok (shipped n)) (length-ids_of (r ∷ rs)),
                  same,
                  subst (Delivered left c.tables)
                      (ap (λ b. removed (ids_of b) c.tables) (sym taken) ∙ sym at)
                      (removed-Delivered w rows left c.tables split up),
                )))
        | inr (x, failed, sick) ↦
            inl
              (conclude-err w size _ run c.tables x failed (transaction-rolls_back w _ c x failed))
      ]

  bury_outcome :
      (reason : Text) (now : ℤ)
      → IsRefused size a
      → Comes
          (conclude w size (dead_lettered (length (r ∷ rs))) (dead_letter w (r ∷ rs) reason now c))
  unfolding dead_letter
  bury_outcome reason now refused =
      let run = dead_letter w (r ∷ rs) reason now c in
      elim (Ends-cases w run tt _
        (dead_letter-Yields w (r ∷ rs) reason now c c.tables refl dead_up)) [
          | inl done ↦
              let (progress, same, at) =
                conclude-ok w size (dead_lettered (length (r ∷ rs))) run _ done in
              inr (
                inr (
                  inr (
                    refused,
                    progress,
                    same,
                    subst (Buried (r ∷ rs) left c.tables) (sym at)
                        (dead_lettered-Buried w rows left c.tables split up r rs reason now taken),
                  )))
          | inr (x, failed, sick) ↦
              inl (
                conclude-err w size _ run c.tables x failed (transaction-rolls_back w _ c x failed))
        ]

  shrink_outcome : (now : ℤ) → HasStatus (λ s. s ≡ 413) a → Comes (shrink w (r ∷ rs) now size c)
  unfolding shrink
  shrink_outcome now large = elim (Bool-cases (leb size min_batch)) [
    | inl small ↦ rw small (bury_outcome _ now (inr (large, ground (arith, small))))
    | inr big ↦ rw big (inr (inl (large, ground (arith, big), refl, refl, refl)))
  ]

  dispose_outcome :
      (d : Disposition) (now : ℤ)
      → d ≡ disposition_of a (length (r ∷ rs))
      → Comes (dispose w d (r ∷ rs) now size c)
  unfolding dispose IsShrink
  dispose_outcome (delete rejections) now e =
      delete_outcome (IsDelete-AccountsFor a (length (r ∷ rs)) (subst IsDelete e tt))
  dispose_outcome (keep reason) now e = inl (tt, refl)
  dispose_outcome (dead_letters reason) now e =
      bury_outcome reason now (inl (IsBurial-IsPermanent a (length (r ∷ rs)) (subst IsBurial e tt)))
  dispose_outcome shrinks now e =
      shrink_outcome now (shrink_only a (length (r ∷ rs)) (subst IsShrink e tt))

module _ (w : World) (x : Exchange) (size : ℕ) (c : Connection) (fresh : List PendingRow) where
  abbrev pub sent : List PendingRecord
  sent = records_of (take size c.tables.pending)

  abbrev pub shipment : Shipping
  shipment = ship_once w x (record { batch_size = size; buffer = c })

  -- The tables when the verdict is carried out.
  abbrev pub at_verdict : Tables
  at_verdict = (x.meanwhile (take_batch w size c).1).tables

  abbrev pub remaining : List PendingRow
  remaining = drop size c.tables.pending ++ fresh

  post_outcome :
      (r : Result (List PendingRecord) × Connection)
      → Ends w r sent c.tables
      → r.1.tables ≡ c.tables
      → (x.meanwhile r.1).tables.pending ≡ c.tables.pending ++ fresh
      → IsOrdered (x.meanwhile r.1).tables
      → (IsFinal (post_batch w x size r).0 × ((post_batch w x size r).1.buffer.tables ≡ c.tables))
        ⊎ Fate size
            (x.post (body_for sent))
            sent
            remaining
            (x.meanwhile r.1).tables
            (post_batch w x size r)
  unfolding post_batch
  post_outcome (err e, c') h at p o = inl (tt, at)
  post_outcome (ok [], c') h at p o = inl (tt, at)
  post_outcome (ok (r ∷ rs), c') h at p o =
      let split =
        p
        ∙ ap (λ l. l ++ fresh) (sym (take-append-drop size c.tables.pending))
        ∙ append_assoc (take size c.tables.pending) (drop size c.tables.pending) fresh in
      inr (
        subst
          (λ b. Fate size (x.post (body_for b)) b remaining (x.meanwhile c').tables (
            dispose w (disposition_of (x.post (body_for (r ∷ rs))) (length (r ∷ rs))) (r ∷ rs) x.now
              size (x.meanwhile c')))
          h.0
          (dispose_outcome w (take size c.tables.pending) remaining (x.meanwhile c') split o.pending
            o.dead size (x.post (body_for (r ∷ rs))) r rs h.0
            (disposition_of (x.post (body_for (r ∷ rs))) (length (r ∷ rs))) x.now refl))

  -- A shipment never loses a record, whichever statement fails. While the post is under way the
  -- other commands only add rows and keep both tables in order. Then the
  -- shipment fails, finds nothing or keeps the batch, and no row moves; or the status is 413, the
  -- batch size goes down to half the batch or to the floor, and no row moves; or the service
  -- accounted for the whole batch, and exactly the rows of the batch are gone; or the status is a
  -- permanent rejection, or a 413 at the floor of the batch size, and exactly those rows are gone
  -- from the queue and stand last in the dead letter table, but for the oldest rows of that table.
  pub ship_once_outcome :
      ((c' : Connection)
        → c'.tables ≡ c.tables
        → (x.meanwhile c').tables.pending ≡ c.tables.pending ++ fresh)
      → ((c' : Connection) → c'.tables ≡ c.tables → IsOrdered (x.meanwhile c').tables)
      → (IsFinal shipment.0 × (shipment.1.buffer.tables ≡ c.tables))
        ⊎ Fate size (x.post (body_for sent)) sent remaining at_verdict shipment
  unfolding ship_once
  ship_once_outcome p o =
      let at = take_batch-IsReadOnly w size c in
      post_outcome (take_batch w size c) (take_batch-Yields w size c c.tables refl) at
        (p (take_batch w size c).1 at) (o (take_batch w size c).1 at)
