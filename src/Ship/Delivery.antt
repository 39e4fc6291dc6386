-- ===== src/Ship/Delivery.antt =====
-- src/runtime/ship.rs: in a healthy world an answer that accounts for the batch delivers it.
use nikki.Prelude.{
  ℕ, ◌≤◌, ◌≡◌, refl, sym, ap, ◌∙◌, subst, inl, inr, List, [], ◌∷◌, ◌++◌, length, arith, ℤ,
}
use nikki.World.{World}
use nikki.Buffer.Sql.{Result, ok, err, Connection, PendingRow}
use nikki.Buffer.Sql.Yields.{IsHealthy, Ends-eq}
use nikki.Buffer.Operations.{PendingRecord, take_batch, delete_batch}
use nikki.Buffer.Operations.Batch.{take_batch-Yields, delete_batch-Yields}
use nikki.Buffer.Operations.Removal.{ids_of}
use nikki.Buffer.Serve.Invariant.{IsOrdered}
use nikki.Ship.{
  Disposition, delete, keep, dead_letters, shrinks, Progress, shipped, shrunk, dead_lettered,
  Exchange, body_for, dispose, post_batch, ship_once,
}
use nikki.Ship.Verdict.{AccountsFor, IsDelete, AccountsFor-IsDelete}
use nikki.Ship.Shipment.{
  Delivered, IsFinal, sent, shipment, at_verdict, remaining, ship_once_outcome, conclude-ok,
  length-ids_of,
}

ok-injective : {A : Type 0} (a b : A) → ok a ≡ ok b → a ≡ b
ok-injective a b h = cc

shrunk-shipped : (m n : ℕ) (e : ◌≡◌ {A = Result Progress} (ok (shrunk m)) (ok (shipped n))) → ⊥
shrunk-shipped m n e = cc

dead_lettered-shipped :
    (m n : ℕ) (e : ◌≡◌ {A = Result Progress} (ok (dead_lettered m)) (ok (shipped n))) → ⊥
dead_lettered-shipped m n e = cc

module _ (w : World) (healthy : IsHealthy w) where
  dispose-shipped :
      (d : Disposition) (batch : List PendingRecord) (now : ℤ) (size : ℕ) (c : Connection)
      → IsDelete d
      → (dispose w d batch now size c).0 ≡ ok (shipped (length batch))
  unfolding dispose
  dispose-shipped (delete rejections) batch now size c h =
      (conclude-ok w size (shipped (length (ids_of batch))) (delete_batch w (ids_of batch) c) _
        (Ends-eq w _ _ _ healthy (delete_batch-Yields w (ids_of batch) c c.tables refl))).0
      ∙ ap (λ n. ok (shipped n)) (length-ids_of batch)
  dispose-shipped (keep reason) batch now size c h = absurd h
  dispose-shipped (dead_letters reason) batch now size c h = absurd h
  dispose-shipped shrinks batch now size c h = absurd h

  post_batch-shipped :
      (x : Exchange) (size : ℕ) (r : Result (List PendingRecord) × Connection)
      (batch : List PendingRecord)
      → r.0 ≡ ok batch
      → 1 ≤ length batch
      → AccountsFor (x.post (body_for batch)) (length batch)
      → (post_batch w x size r).0 ≡ ok (shipped (length batch))
  unfolding post_batch
  post_batch-shipped x size (err e, c) batch h some_left counted = absurd (cc)
  post_batch-shipped x size (ok [], c) batch h some_left counted =
      absurd (omega (arith, some_left, ap length (ok-injective [] batch h)))
  post_batch-shipped x size (ok (r ∷ rs), c) batch h some_left counted =
      let same = ok-injective (r ∷ rs) batch h in
      dispose-shipped _ (r ∷ rs) x.now size (x.meanwhile c) (
        AccountsFor-IsDelete (x.post (body_for (r ∷ rs))) (length (r ∷ rs))
          (subst (λ b. AccountsFor (x.post (body_for b)) (length b)) (sym same) counted))
      ∙ ap (λ b. ok (shipped (length b))) same

  -- In a healthy world, when there is something to send, the service accounts for the whole batch,
  -- and meanwhile the other commands only add rows and keep both tables in order, the shipment
  -- reports the batch as shipped, exactly its rows are gone, and no row was buried.
  pub ship_once-Delivered :
      (x : Exchange) (size : ℕ) (c : Connection) (fresh : List PendingRow)
      → 1 ≤ length (sent w x size c fresh)
      → AccountsFor (x.post (body_for (sent w x size c fresh))) (length (sent w x size c fresh))
      → ((c' : Connection)
          → c'.tables ≡ c.tables
          → (x.meanwhile c').tables.pending ≡ c.tables.pending ++ fresh)
      → ((c' : Connection) → c'.tables ≡ c.tables → IsOrdered (x.meanwhile c').tables)
      → ((shipment w x size c fresh).0 ≡ ok (shipped (length (sent w x size c fresh))))
        × Delivered
            (remaining w x size c fresh)
            (at_verdict w x size c fresh)
            (shipment w x size c fresh).1.buffer.tables
  unfolding ship_once
  ship_once-Delivered x size c fresh some_left counted adds ordered =
      let progress =
        post_batch-shipped x size (take_batch w size c) (sent w x size c fresh)
          (Ends-eq w _ _ _ healthy (take_batch-Yields w size c c.tables refl)).0 some_left
          counted in
      elim (ship_once_outcome w x size c fresh adds ordered) [
        | inl (final, at) ↦ absurd (subst IsFinal progress final)
        | inr (inl (final, at)) ↦ absurd (subst IsFinal progress final)
        | inr (inr (inl (status, above, halved, other, at))) ↦
            absurd (shrunk-shipped _ _ (sym other ∙ progress))
        | inr (inr (inr (inl (accounted, done, same, left)))) ↦ (progress, left)
        | inr (inr (inr (inr (refused, other, same, left)))) ↦
            absurd (dead_lettered-shipped _ _ (sym other ∙ progress))
      ]
