-- ===== src/Pipeline/Absorbed.antt =====
-- src/runtime/mod.rs: `absorb` in a healthy world.
use nikki.Prelude.{
  ℕ, suc, ◌+◌, ◌^◌, ◌≤◌, ◌<◌, ◌≡◌, refl, sym, ap, ◌∙◌, subst, Option, none, some, List, [], ◌∷◌,
  ◌++◌, Text, ℤ, arith, length, length-append,
}
use nikki.World.{World}
use nikki.Redact.{Redactor}
use nikki.Buffer.Sql.{Connection}
use nikki.Buffer.Sql.Yields.{IsHealthy, Ends-eq}
use nikki.Buffer.Evict.{Caps, Evicted, candidate_of_pending}
use nikki.Buffer.Evict.Rows.{IsAscending}
use nikki.Buffer.Operations.{device_or, enqueue}
use nikki.Buffer.Operations.Enqueue.{
  stored_seq, markers, sealed_from, overflow_records, enqueued, enqueue-Yields,
  enqueued_tables-IsAscending,
}
use nikki.Buffer.Operations.Numbering.{enqueue_numbers, length-sealed_from}
use nikki.Pipeline.{Effect, Arrival, store, store_all, absorb}
use nikki.Pipeline.Stored.{asks, after_ok, acknowledge_lem}

-- The counter is a number of at most this, and the rows stand in the order of their ids.
pub record IsSound (most : ℕ) (c : Connection) : Type 0 where
  pub seq : ℕ
  pub stored : stored_seq c.tables ≡ some seq
  pub bound : seq ≤ most
  pub ordered : IsAscending candidate_of_pending c.tables.pending

-- What the emissions ask for, in their order.
abbrev pub asked_by : List Arrival → List Effect
asked_by [] = []
asked_by (a ∷ arrivals) =
    asks a.emission.committed a.emission.ships_before_commit ++ asked_by arrivals

-- The numbers that the emissions may use up: one for each record, and one for the record of an eviction.
abbrev pub numbers_for : List Arrival → ℕ
numbers_for [] = 0
numbers_for (a ∷ arrivals) = suc (length a.emission.records) + numbers_for arrivals

module _ (w : World) (device : Text) (caps : Caps) (redactor : Redactor) where
  length-markers :
      (ev : Option Evicted) (later : ℤ) (seq : ℕ) → length (markers w ev device later seq) ≤ 1
  unfolding markers
  length-markers none later seq = omega arith
  length-markers (some ev) later seq = omega arith

  length-overflow :
      (a : Arrival) (seq : ℕ) (c : Connection)
      → length (
          overflow_records w device caps redactor a.now a.later a.emission.records a.emission.cursor
            a.emission.device seq c.tables)
        ≤ 1
  unfolding overflow_records
  length-overflow a seq c = length-markers _ a.later _

  few :
      (a : Arrival) (seq : ℕ) (c : Connection)
      → length (
          enqueued w device caps redactor a.now a.later a.emission.records a.emission.cursor
            a.emission.device seq c.tables)
        ≤ suc (length a.emission.records)
  unfolding enqueued
  few a seq c = omega (
    arith,
    length-overflow a seq c,
    length-append
        (sealed_from w redactor (device_or a.emission.device device) seq a.emission.records)
        (overflow_records w device caps redactor a.now a.later a.emission.records a.emission.cursor
          a.emission.device seq c.tables),
    length-sealed_from w redactor (device_or a.emission.device device) seq a.emission.records,
  )

  store-IsSound :
      (healthy : IsHealthy w) (arrival : Arrival) (most : ℕ) (c : Connection)
      → IsSound most c
      → most + suc (length arrival.emission.records) < 2 ^ 64
      → ((store w device caps redactor arrival c).0
          ≡ asks arrival.emission.committed arrival.emission.ships_before_commit)
        × IsSound
            (most + suc (length arrival.emission.records))
            (store w device caps redactor arrival c).1
  unfolding store
  store-IsSound healthy arrival most c sound fits =
      let e = arrival.emission in
      let (done, at) =
        Ends-eq w
          (enqueue w device caps redactor arrival.now arrival.later e.records e.cursor e.device c) _
          _ healthy
          (enqueue-Yields w device caps redactor arrival.now arrival.later e.records e.cursor
            e.device sound.seq c c.tables refl sound.stored sound.ordered) in
      let stepped = after_ok w device caps redactor e _ _ done in
      let (told, kept) =
        acknowledge_lem w device caps redactor e.committed e.ships_before_commit _ in
      let sealed =
        enqueued w device caps redactor arrival.now arrival.later e.records e.cursor e.device
          sound.seq c.tables in
      let short = few arrival sound.seq c in
      let (numbered, counted) =
        enqueue_numbers w device caps redactor arrival.now arrival.later e.records e.cursor e.device
          sound.seq c sealed sound.stored sound.ordered (omega (arith, short, fits, sound.bound))
          done in
      let tables = ap (λ r. r.1.tables) stepped ∙ kept in
      (
        ap (λ r. r.0) stepped ∙ told,
        record {
          seq = sound.seq + length sealed;
          stored = ap stored_seq tables ∙ counted;
          bound = omega (arith, short, sound.bound);
          ordered =
              subst (λ t. IsAscending candidate_of_pending t.pending) (sym (tables ∙ at))
                (enqueued_tables-IsAscending w device caps redactor arrival.now arrival.later
                  e.records e.cursor e.device sound.seq c.tables sound.ordered);
        },
      )

  store_all-asked_by :
      (healthy : IsHealthy w) (arrivals : List Arrival) (most : ℕ) (c : Connection)
      → IsSound most c
      → most + numbers_for arrivals < 2 ^ 64
      → (store_all w device caps redactor arrivals c).0 ≡ asked_by arrivals
  unfolding store_all
  store_all-asked_by healthy [] most c sound fits = refl
  store_all-asked_by healthy (a ∷ arrivals) most c sound fits =
      let (told, sound') = store-IsSound healthy a most c sound (omega (arith, fits)) in
      ap
        (λ es.
          es ++ (store_all w device caps redactor arrivals (store w device caps redactor a c).1).0)
        told
      ∙ ap (◌++◌ (asks a.emission.committed a.emission.ships_before_commit))
          (store_all-asked_by healthy arrivals _ _ sound' (omega (arith, fits)))

  -- In a healthy world, with a sound buffer whose counter does not reach 2 ^ 64: whatever of the emissions is
  -- taken before the shutdown and whatever is still in the queue then, every one that waits for an
  -- acknowledgement gets it, once and in their order, and the shipper is asked right before it where the
  -- emission wants that.
  pub absorb-asked_by :
      (healthy : IsHealthy w) (taken queued : List Arrival) (most : ℕ) (c : Connection)
      → IsSound most c
      → most + numbers_for (taken ++ queued) < 2 ^ 64
      → (absorb w device caps redactor taken queued c).0 ≡ asked_by (taken ++ queued)
  unfolding absorb
  absorb-asked_by healthy [] queued most c sound fits =
      store_all-asked_by healthy queued most c sound fits
  absorb-asked_by healthy (a ∷ taken) queued most c sound fits =
      let (told, sound') = store-IsSound healthy a most c sound (omega (arith, fits)) in
      ap
        (λ es.
          es ++ (absorb w device caps redactor taken queued (store w device caps redactor a c).1).0)
        told
      ∙ ap (◌++◌ (asks a.emission.committed a.emission.ships_before_commit))
          (absorb-asked_by healthy taken queued _ _ sound' (omega (arith, fits)))
