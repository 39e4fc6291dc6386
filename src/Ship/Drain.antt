-- ===== src/Ship/Drain.antt =====
-- src/runtime/ship.rs: the draining loop ends.
use nikki.Prelude.{
  ℕ, suc, ◌==◌, ◌+◌, ◌-◌, ◌<◌, ◌≡◌, ◌⊎◌, refl, sym, ap, ◌∙◌, subst, inl, inr, some, List, [], ◌∷◌,
  ◌++◌, take, drop, length, length-take, length-drop, min, arith, leb, Bool-cases, All, ℤ,
}
use mathlib.Core.List.{append-nil}
use nikki.World.{World}
use nikki.Buffer.Sql.{Result, ok, err, Tables, Connection, PendingRow}
use nikki.Buffer.Sql.Yields.{Ends}
use nikki.Buffer.Operations.{PendingRecord, take_batch}
use nikki.Buffer.Operations.Batch.{records_of, take_batch-IsReadOnly, take_batch-Yields}
use nikki.Buffer.Serve.Invariant.{IsOrdered, delete_batch-IsOrdered, dead_letter-IsOrdered}
use nikki.Ship.{
  Disposition, delete, keep, dead_letters, shrinks, Progress, idle, shipped, kept, dead_lettered,
  shrunk, Exchange, Shipper, Shipping, conclude, shrink, dispose, post_batch, ship_once, drain,
  drain_on, min_batch,
}
use nikki.Ship.Shipment.{IsFinal, ship_once_outcome}

-- What every shipment that does not end the draining makes smaller.
abbrev pub backlog : Shipper → ℕ
backlog s = length s.buffer.tables.pending + s.batch_size

length-records_of : (rows : List PendingRow) → length (records_of rows) ≡ length rows
unfolding records_of
length-records_of [] = refl
length-records_of (r ∷ rs) = ap suc (length-records_of rs)

length-sent :
    (s : Shipper)
    → length (records_of (take s.batch_size s.buffer.tables.pending))
      ≡ min s.batch_size (length s.buffer.tables.pending)
length-sent s =
    length-records_of (take s.batch_size s.buffer.tables.pending)
    ∙ length-take s.batch_size s.buffer.tables.pending

-- Without the rows of a batch.
shorter :
    (s : Shipper) (t : Tables)
    → t.pending ≡ drop s.batch_size s.buffer.tables.pending ++ []
    → length t.pending ≡ length s.buffer.tables.pending - s.batch_size
shorter s t e =
    ap length (e ∙ append-nil (drop s.batch_size s.buffer.tables.pending))
    ∙ length-drop s.batch_size s.buffer.tables.pending

module _ (w : World) where
  conclude-IsOrdered :
      (size : ℕ) (p : Progress) (r : Result (Unit {0}) × Connection)
      → IsOrdered r.1.tables
      → IsOrdered (conclude w size p r).1.buffer.tables
  unfolding conclude
  conclude-IsOrdered size p (ok u, c) o = o
  conclude-IsOrdered size p (err e, c) o = o

  shrink-IsOrdered :
      (batch : List PendingRecord) (now : ℤ) (size : ℕ) (c : Connection)
      → IsOrdered c.tables
      → IsOrdered (shrink w batch now size c).1.buffer.tables
  unfolding shrink
  shrink-IsOrdered batch now size c o = elim (Bool-cases (leb size min_batch)) [
    | inl small ↦ rw small (conclude-IsOrdered size _ _ (dead_letter-IsOrdered w batch _ now c o))
    | inr big ↦ rw big o
  ]

  dispose-IsOrdered :
      (d : Disposition) (batch : List PendingRecord) (now : ℤ) (size : ℕ) (c : Connection)
      → IsOrdered c.tables
      → IsOrdered (dispose w d batch now size c).1.buffer.tables
  unfolding dispose
  dispose-IsOrdered (delete rejections) batch now size c o =
      conclude-IsOrdered size _ _ (delete_batch-IsOrdered w _ c o)
  dispose-IsOrdered (keep reason) batch now size c o = o
  dispose-IsOrdered (dead_letters reason) batch now size c o =
      conclude-IsOrdered size _ _ (dead_letter-IsOrdered w batch reason now c o)
  dispose-IsOrdered shrinks batch now size c o = shrink-IsOrdered batch now size c o

  post_batch-IsOrdered :
      (x : Exchange) (size : ℕ) (r : Result (List PendingRecord) × Connection)
      → IsOrdered r.1.tables
      → IsOrdered (x.meanwhile r.1).tables
      → IsOrdered (post_batch w x size r).1.buffer.tables
  unfolding post_batch
  post_batch-IsOrdered x size (err e, c) o o' = o
  post_batch-IsOrdered x size (ok [], c) o o' = o
  post_batch-IsOrdered x size (ok (r ∷ rs), c) o o' = dispose-IsOrdered _ (r ∷ rs) x.now size _ o'

  ship_once-IsOrdered :
      (x : Exchange) (s : Shipper)
      → ((c : Connection) → (x.meanwhile c).tables ≡ c.tables)
      → IsOrdered s.buffer.tables
      → IsOrdered (ship_once w x s).1.buffer.tables
  unfolding ship_once
  ship_once-IsOrdered x s still o =
      let o' = subst IsOrdered (sym (take_batch-IsReadOnly w s.batch_size s.buffer)) o in
      post_batch-IsOrdered x s.batch_size (take_batch w s.batch_size s.buffer) o'
        (subst IsOrdered (sym (still _)) o')

  post_batch-nothing :
      (x : Exchange) (size : ℕ) (r : Result (List PendingRecord) × Connection)
      (batch : List PendingRecord) (t : Tables)
      → Ends w r batch t
      → length batch ≡ 0
      → IsFinal (post_batch w x size r).0
  unfolding post_batch
  post_batch-nothing x size (err e, c) batch t h none_left = tt
  post_batch-nothing x size (ok [], c) batch t h none_left = tt
  post_batch-nothing x size (ok (r ∷ rs), c) batch t h none_left =
      absurd (omega (arith, none_left, ap length h.0))

  -- Nothing to send ends the draining.
  ship_once-nothing :
      (x : Exchange) (s : Shipper)
      → min s.batch_size (length s.buffer.tables.pending) ≡ 0
      → IsFinal (ship_once w x s).0
  unfolding ship_once
  ship_once-nothing x s e =
      post_batch-nothing x s.batch_size (take_batch w s.batch_size s.buffer) _ _
        (take_batch-Yields w s.batch_size s.buffer s.buffer.tables refl) (length-sent s ∙ e)

  ship_once-backlog :
      (x : Exchange) (s : Shipper)
      → ((c : Connection) → (x.meanwhile c).tables ≡ c.tables)
      → IsOrdered s.buffer.tables
      → IsFinal (ship_once w x s).0 ⊎ (backlog (ship_once w x s).1 < backlog s)
  ship_once-backlog x s still o =
      let old = s.buffer.tables.pending in
      let here =
        still (take_batch w s.batch_size s.buffer).1
        ∙ take_batch-IsReadOnly w s.batch_size s.buffer in
      elim (Bool-cases (min s.batch_size (length old) == 0)) [
        | inl nothing ↦ inl (ship_once-nothing x s (ground (arith, nothing)))
        | inr some_left ↦
            elim (ship_once_outcome w x s.batch_size s.buffer []
              (λ c e. ap (λ t. t.pending) (still c ∙ e) ∙ sym (append-nil old))
              (λ c e. subst IsOrdered (sym (still c ∙ e)) o)) [
                | inl (final, at) ↦ inl final
                | inr (inl (final, at)) ↦ inl final
                | inr (inr (inl (status, above, halved, progress, at))) ↦ inr (
                    omega
                      (arith, above, halved, length-sent s, ap (λ t. length t.pending) (at ∙ here)))
                | inr (inr (inr (inl (counted, progress, same, (left, dead))))) ↦
                    inr (ground (arith, some_left, same, shorter s _ left))
                | inr (inr (inr (inr (refused, progress, same, (left, dead))))) ↦
                    inr (ground (arith, some_left, same, shorter s _ left))
              ]
      ]

  -- A shipment that does not end the draining leaves room for the next.
  next :
      (x : Exchange) (s : Shipper) (n : ℕ)
      → ((c : Connection) → (x.meanwhile c).tables ≡ c.tables)
      → IsOrdered s.buffer.tables
      → ⊥ ⊎ (backlog s < suc n)
      → IsFinal (ship_once w x s).0 ⊎ (backlog (ship_once w x s).1 < n)
  next x s n still o (inl h) = absurd h
  next x s n still o (inr f) = elim (ship_once-backlog x s still o) [
    | inl final ↦ inl final
    | inr less ↦ inr (omega (arith, less, f))
  ]

  drain_on_ends :
      (xs : List Exchange) (out : Shipping)
      → All (λ x. (c : Connection) → (x.meanwhile c).tables ≡ c.tables) xs
      → IsOrdered out.1.buffer.tables
      → IsFinal out.0 ⊎ (backlog out.1 < length xs)
      → (r : Result (Unit {0}) × Shipper) × (drain_on w xs out ≡ some r)
  unfolding drain_on
  drain_on_ends xs (err e, s) still o f = (_, refl)
  drain_on_ends xs (ok idle, s) still o f = (_, refl)
  drain_on_ends xs (ok (kept reason), s) still o f = (_, refl)
  drain_on_ends [] (ok (shipped n), s) still o (inl h) = absurd h
  drain_on_ends [] (ok (shipped n), s) still o (inr h) = absurd (omega (arith, h))
  drain_on_ends (x ∷ xs) (ok (shipped n), s) still o f =
      drain_on_ends xs (ship_once w x s) still.1 (ship_once-IsOrdered x s still.0 o)
        (next x s (length xs) still.0 o f)
  drain_on_ends [] (ok (dead_lettered n), s) still o (inl h) = absurd h
  drain_on_ends [] (ok (dead_lettered n), s) still o (inr h) = absurd (omega (arith, h))
  drain_on_ends (x ∷ xs) (ok (dead_lettered n), s) still o f =
      drain_on_ends xs (ship_once w x s) still.1 (ship_once-IsOrdered x s still.0 o)
        (next x s (length xs) still.0 o f)
  drain_on_ends [] (ok (shrunk n), s) still o (inl h) = absurd h
  drain_on_ends [] (ok (shrunk n), s) still o (inr h) = absurd (omega (arith, h))
  drain_on_ends (x ∷ xs) (ok (shrunk n), s) still o f =
      drain_on_ends xs (ship_once w x s) still.1 (ship_once-IsOrdered x s still.0 o)
        (next x s (length xs) still.0 o f)

  -- When no other command changes the tables and these stand in order, a draining ends after at most
  -- as many shipments as there are rows and records to a batch, and one more, whatever the service
  -- answers and whichever statement fails.
  pub drain_ends :
      (xs : List Exchange) (s : Shipper)
      → All (λ x. (c : Connection) → (x.meanwhile c).tables ≡ c.tables) xs
      → IsOrdered s.buffer.tables
      → length s.buffer.tables.pending + s.batch_size < length xs
      → (r : Result (Unit {0}) × Shipper) × (drain w xs s ≡ some r)
  unfolding drain
  drain_ends [] s still o enough = absurd (omega (arith, enough))
  drain_ends (x ∷ xs) s still o enough =
      drain_on_ends xs (ship_once w x s) still.1 (ship_once-IsOrdered x s still.0 o)
        (next x s (length xs) still.0 o (inr enough))
