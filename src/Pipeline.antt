-- ===== src/Pipeline.antt =====
-- src/runtime/mod.rs: `absorb` and `store`, which take what the providers send to the buffer.
pub mod Stored
pub mod Absorbed
pub mod Restart
mod Tests
use nikki.Prelude.{ℕ, Bool, true, false, List, [], ◌∷◌, ◌++◌, Text, ℤ}
use nikki.Record.{Envelope}
use nikki.World.{World}
use nikki.Redact.{Redactor}
use nikki.Providers.{Emission}
use nikki.Buffer.Sql.{Result, ok, err, Connection}
use nikki.Buffer.Evict.{Caps}
use nikki.Buffer.Operations.{enqueue, checkpoint}

-- What `store` does outside the buffer: `ship_now.within`, and the acknowledgement. What becomes of the
-- shipping is the shipper's.
pub data Effect : Type 0 where
  asked_to_ship acknowledged : Effect

-- An emission, and the two readings of the clock that the buffer takes for it.
pub record Arrival : Type 0 where
  pub emission : Emission
  pub now : ℤ
  pub later : ℤ

module _ (w : World) (device : Text) (caps : Caps) (redactor : Redactor) where
  -- What follows once the records are buffered.
  unfoldable pub acknowledge : Bool → Bool → Connection → List Effect × Connection
  acknowledge false ships_before_commit c = ([], c)
  acknowledge true false c = (acknowledged ∷ [], c)
  acknowledge true true c = (asked_to_ship ∷ acknowledged ∷ [], (checkpoint w c).1)

  pub after_enqueue : Emission → Result (List Envelope) × Connection → List Effect × Connection
  unfolding acknowledge
  after_enqueue emission (err error, c) = ([], c)
  after_enqueue emission (ok envelopes, c) =
      acknowledge emission.committed emission.ships_before_commit c

  unfoldable pub store : Arrival → Connection → List Effect × Connection
  unfolding after_enqueue
  store arrival c = after_enqueue arrival.emission (
      enqueue w device caps redactor arrival.now arrival.later arrival.emission.records
        arrival.emission.cursor arrival.emission.device c)

  pub store_all : List Arrival → Connection → List Effect × Connection
  store_all [] c = ([], c)
  store_all (arrival ∷ arrivals) c =
      let (effects, c') = store arrival c in
      let (more, last) = store_all arrivals c' in (effects ++ more, last)

  -- The emissions that the loop takes before the shutdown, and those that are in the queue then.
  unfoldable pub absorb : List Arrival → List Arrival → Connection → List Effect × Connection
  unfolding store_all
  absorb [] queued c = store_all queued c
  absorb (arrival ∷ taken) queued c =
      let (effects, c') = store arrival c in
      let (more, last) = absorb taken queued c' in (effects ++ more, last)
