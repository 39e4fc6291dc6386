-- ===== src/Pipeline/Stored.antt =====
-- src/runtime/mod.rs: what `store` does, on every branch.
use nikki.Prelude.{
  ℕ, ◌≡◌, refl, ap, ◌∙◌, ◌⊎◌, inl, inr, Bool, true, false, some, List, [], ◌∷◌, ◌++◌, Text, map,
  drop,
}
use nikki.Record.{Envelope}
use nikki.World.{World}
use nikki.Redact.{Redactor}
use nikki.Providers.{Emission}
use nikki.Buffer.Sql.{Result, ok, err, BufferError, Connection}
use nikki.Buffer.Sql.Yields.{IsHealthy, IsReadOnly-call}
use nikki.Buffer.Evict.{Caps, candidate_of_pending}
use nikki.Buffer.Evict.Rows.{IsAscending}
use nikki.Buffer.Operations.{checkpoint}
use nikki.Buffer.Operations.Enqueue.{stored_seq, json_of}
use nikki.Buffer.Operations.Queue.{drafted, reported, due, queue, enqueue_outcome}
use nikki.Pipeline.{Effect, asked_to_ship, acknowledged, Arrival, acknowledge, after_enqueue, store}

-- What an emission asks for once it is buffered.
abbrev pub asks : Bool → Bool → List Effect
asks false ships = []
asks true false = acknowledged ∷ []
asks true true = asked_to_ship ∷ acknowledged ∷ []

module _ (w : World) (device : Text) (caps : Caps) (redactor : Redactor) where
  pub acknowledge_lem :
      (committed ships : Bool) (c : Connection)
      → ((acknowledge w device caps redactor committed ships c).0 ≡ asks committed ships)
        × ((acknowledge w device caps redactor committed ships c).1.tables ≡ c.tables)
  unfolding acknowledge checkpoint
  acknowledge_lem false ships c = (refl, refl)
  acknowledge_lem true false c = (refl, refl)
  acknowledge_lem true true c = (refl, IsReadOnly-call w c)

  pub after_ok :
      (emission : Emission) (r : Result (List Envelope) × Connection) (es : List Envelope)
      → r.0 ≡ ok es
      → after_enqueue w device caps redactor emission r
        ≡ acknowledge w device caps redactor emission.committed emission.ships_before_commit r.1
  unfolding after_enqueue
  after_ok emission (ok es', c) es h = refl
  after_ok emission (err e, c) es h = absurd (cc)

  after_err :
      (emission : Emission) (r : Result (List Envelope) × Connection) (e : BufferError)
      → r.0 ≡ err e
      → after_enqueue w device caps redactor emission r ≡ ([], r.1)
  unfolding after_enqueue
  after_err emission (ok es, c) e h = absurd (cc)
  after_err emission (err e', c) e h = refl

  module _ (arrival : Arrival) (seq : ℕ) (c : Connection) where
    abbrev pub emission : Emission
    emission = arrival.emission

    abbrev pub drafts : List Envelope
    drafts =
        drafted w device caps redactor arrival.now arrival.later emission.records emission.cursor
          emission.device seq c

    abbrev pub overflow : List Envelope
    overflow =
        reported w device caps redactor arrival.now arrival.later emission.records emission.cursor
          emission.device seq c

    abbrev pub gone : ℕ
    gone =
        due w device caps redactor arrival.now arrival.later emission.records emission.cursor
          emission.device seq c

    -- With a counter that is a number and the rows in the order of their ids, an emission is either
    -- buffered or not. If it is, its envelopes stand behind what waited, less the oldest that are over the
    -- caps, with the record of those last; and it is acknowledged if it waits for that, and before that the
    -- shipper is asked to ship if it wants that. If it is not, no table changes, nothing is acknowledged and
    -- nothing is asked for, and that happens in no healthy world.
    pub store_lem :
        stored_seq c.tables ≡ some seq
        → IsAscending candidate_of_pending c.tables.pending
        → (((store w device caps redactor arrival c).0
              ≡ asks emission.committed emission.ships_before_commit)
            × (queue (store w device caps redactor arrival c).1.tables
                ≡ drop gone (queue c.tables ++ map (json_of w) drafts) ++ map (json_of w) overflow))
          ⊎ (((store w device caps redactor arrival c).0 ≡ [])
              × ((store w device caps redactor arrival c).1.tables ≡ c.tables)
              × (¬ IsHealthy w))
    unfolding store
    store_lem stored ordered =
        elim (enqueue_outcome w device caps redactor arrival.now arrival.later emission.records
          emission.cursor emission.device seq c stored ordered) [
            | inl (done, queued) ↦ inl (
                let stepped = after_ok emission _ _ done in
                let (told, kept) =
                  acknowledge_lem emission.committed emission.ships_before_commit _ in
                (
                  ap (λ r. r.0) stepped ∙ told,
                  ap (λ r. queue r.1.tables) stepped ∙ ap queue kept ∙ queued,
                ))
            | inr (e, failed, same, sick) ↦ inr (
                let stepped = after_err emission _ e failed in
                (ap (λ r. r.0) stepped, ap (λ r. r.1.tables) stepped ∙ same, sick))
          ]
