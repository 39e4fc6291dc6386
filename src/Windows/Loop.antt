-- ===== src/Windows/Loop.antt =====
-- src/providers/windows.rs: the loop of `WindowProvider::run` over the arms that its `select!` takes, in
-- their order. Whether the runtime takes an emission depends on how many were offered to it before.
pub mod Sleeps
mod Tests
use nikki.Prelude.{
  ℕ, suc, Bool, true, false, Option, none, some, List, [], ◌∷◌, ◌++◌, ℤ, if◌then◌else◌,
}
use nikki.Record.{RecordDraft, Kind, sleep}
use nikki.Providers
use nikki.Providers.{Emission, awaiting_commit}
use nikki.Visibility.{Floats}
use nikki.Windows.{
  Pending, Signal, sample, marker, sleep_signal, signal, schedule, Observed, InputCounters, advance,
}
use nikki.Windows.Samples.{Sample, Sources, assemble, marker_record, sample_record, tick_record}

pub data Sampling : Type 0 where
  is_sampling not_sampling : Sampling

-- `closed` is the end of the events; a tick and a deadline come with what is read then, and a tick with
-- the moment that its record is made.
pub data Arm (f : Floats) : Type 0 where
  event : Observed → Arm f
  closed : Arm f
  ticked : Sources f → ℤ → Arm f
  due : Sources f → Arm f

pub record LoopState : Type 0 where
  pub pending : Option Pending
  pub sampling : Sampling
  pub previous : Option InputCounters
  pub sent : List Emission
  pub offered : ℕ
  pub acknowledged : ℕ

-- The loop goes on, or the provider returns.
pub data Turn : Type 0 where
  goes_on returns : LoopState → Turn

module _ (takes : ℕ → Bool) where
  offer : Emission → LoopState → LoopState
  offer emission s =
      if takes s.offered
      then record s { sent = s.sent ++ emission ∷ []; offered = suc s.offered }
      else record s { offered = suc s.offered }

  -- `if out.send(..).await.is_err() { return Ok(()) }`
  send_or_return : Emission → LoopState → Turn
  unfolding offer
  send_or_return emission s =
      if takes s.offered then goes_on (offer emission s) else returns (offer emission s)

  -- The sleep is acknowledged whatever becomes of its record.
  unfoldable pub deliver_sleep : ℤ → LoopState → LoopState
  unfolding offer
  deliver_sleep ts s =
      let after = offer (awaiting_commit (marker_record sleep ts ∷ []) none) s in
      record after { acknowledged = suc after.acknowledged }

  handle_event : Signal → Observed → LoopState → Turn
  unfolding send_or_return
  handle_event (sample kind application) o s =
      goes_on (record s { pending = some (schedule s.pending kind application o.at o.now) })
  handle_event (marker kind) o s = send_or_return (Providers.new (marker_record kind o.at ∷ [])) s
  handle_event sleep_signal o s = goes_on (deliver_sleep o.at s)

  module _ (f : Floats) (tick_interval : ℕ) where
    tick_turn : Option Sample → Sources f → ℤ → LoopState → Turn
    unfolding send_or_return
    tick_turn none sources now s = goes_on (record s { sampling = not_sampling })
    tick_turn (some shown) sources now s =
        let (delta, previous) = advance s.previous sources.activity.counters in
        send_or_return
          (Providers.new (tick_record shown tick_interval sources.activity delta now ∷ []))
          (record s { sampling = is_sampling; previous = previous })

    sample_turn : Option Sample → Pending → LoopState → Turn
    unfolding send_or_return
    sample_turn none p s = goes_on (record s { sampling = not_sampling })
    sample_turn (some shown) p s =
        send_or_return (Providers.new (sample_record p.kind p.ts shown ∷ []))
          (record s { sampling = is_sampling })

    due_turn : Option Pending → Sources f → LoopState → Turn
    unfolding sample_turn
    due_turn none sources s = goes_on s
    due_turn (some p) sources s =
        sample_turn (assemble f sources p.application) p (record s { pending = none })

    unfoldable pub take_arm : Arm f → LoopState → Turn
    unfolding handle_event tick_turn due_turn
    take_arm (event o) s = handle_event (signal o.event) o s
    take_arm closed s = returns s
    take_arm (ticked sources now) s = tick_turn (assemble f sources none) sources now s
    take_arm (due sources) s = due_turn s.pending sources s

    -- The state, and the arms that are left when the provider returns.
    unfoldable pub run : List (Arm f) → LoopState → LoopState × List (Arm f)
    run [] s = (s, [])
    run (arm ∷ arms) s = elim (take_arm arm s) [
      | returns s' ↦ (s', arms)
      | goes_on s' ↦ run arms s'
    ]
