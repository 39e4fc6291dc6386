-- ===== src/Windows/Loop/Sleeps.antt =====
-- src/providers/windows.rs: every sleep that the loop meets is acknowledged.
use nikki.Prelude.{
  ℕ, suc, ◌+◌, ◌≡◌, refl, ap, ◌∙◌, ◌⊎◌, inl, inr, Bool, Option, none, some, List, [], ◌∷◌, ℤ, arith,
  Bool-cases,
}
use nikki.Providers.{Emission}
use nikki.Visibility.{Floats}
use nikki.Windows.{Pending, Signal, sample, marker, sleep_signal, signal, Observed}
use nikki.Windows.Samples.{Sample, Sources, assemble}
use nikki.Windows.Loop.{
  Arm, event, closed, ticked, due, LoopState, Turn, goes_on, returns, offer, send_or_return,
  deliver_sleep, handle_event, tick_turn, sample_turn, due_turn, take_arm, run,
}

abbrev is_sleep : Signal → ℕ
is_sleep (sample kind application) = 0
is_sleep (marker kind) = 0
is_sleep sleep_signal = 1

-- Whether an arm is the event of a sleep.
abbrev pub sleeps_in_arm : {f : Floats} → Arm f → ℕ
sleeps_in_arm (event o) = is_sleep (signal o.event)
sleeps_in_arm closed = 0
sleeps_in_arm (ticked sources now) = 0
sleeps_in_arm (due sources) = 0

abbrev pub sleeps : {f : Floats} → List (Arm f) → ℕ
sleeps [] = 0
sleeps (arm ∷ arms) = sleeps_in_arm arm + sleeps arms

abbrev state_of : Turn → LoopState
state_of (goes_on s) = s
state_of (returns s) = s

module _ (takes : ℕ → Bool) where
  offer-acknowledged :
      (e : Emission) (s : LoopState) → (offer takes e s).acknowledged ≡ s.acknowledged
  unfolding offer
  offer-acknowledged e s = elim (Bool-cases (takes s.offered)) [
    | inl taken ↦ rw (offer, taken) refl
    | inr gone ↦ rw (offer, gone) refl
  ]

  send-acknowledged :
      (e : Emission) (s : LoopState)
      → (state_of (send_or_return takes e s)).acknowledged ≡ s.acknowledged
  unfolding send_or_return
  send-acknowledged e s = elim (Bool-cases (takes s.offered)) [
    | inl taken ↦ rw (send_or_return, taken) refl
    | inr gone ↦ rw (send_or_return, gone) refl
  ]

  handle_event-acknowledged :
      (g : Signal) (o : Observed) (s : LoopState)
      → (state_of (handle_event takes g o s)).acknowledged ≡ is_sleep g + s.acknowledged
  unfolding handle_event deliver_sleep
  handle_event-acknowledged (sample kind application) o s = omega arith
  handle_event-acknowledged (marker kind) o s = send-acknowledged _ s ∙ (omega arith)
  handle_event-acknowledged sleep_signal o s = ap suc (offer-acknowledged _ s) ∙ (omega arith)

  module _ (f : Floats) (tick_interval : ℕ) where
    tick_turn-acknowledged :
        (shown : Option Sample) (sources : Sources f) (now : ℤ) (s : LoopState)
        → (state_of (tick_turn takes f tick_interval shown sources now s)).acknowledged
          ≡ s.acknowledged
    unfolding tick_turn
    tick_turn-acknowledged none sources now s = refl
    tick_turn-acknowledged (some shown) sources now s = send-acknowledged _ _

    sample_turn-acknowledged :
        (shown : Option Sample) (p : Pending) (s : LoopState)
        → (state_of (sample_turn takes f tick_interval shown p s)).acknowledged ≡ s.acknowledged
    unfolding sample_turn
    sample_turn-acknowledged none p s = refl
    sample_turn-acknowledged (some shown) p s = send-acknowledged _ _

    due_turn-acknowledged :
        (pending : Option Pending) (sources : Sources f) (s : LoopState)
        → (state_of (due_turn takes f tick_interval pending sources s)).acknowledged
          ≡ s.acknowledged
    unfolding due_turn
    due_turn-acknowledged none sources s = refl
    due_turn-acknowledged (some p) sources s =
        sample_turn-acknowledged (assemble f sources p.application) p _

    take_arm-acknowledged :
        (arm : Arm f) (s : LoopState)
        → (state_of (take_arm takes f tick_interval arm s)).acknowledged
          ≡ sleeps_in_arm arm + s.acknowledged
    unfolding take_arm
    take_arm-acknowledged (event o) s = handle_event-acknowledged (signal o.event) o s
    take_arm-acknowledged closed s = omega arith
    take_arm-acknowledged (ticked sources now) s =
        tick_turn-acknowledged _ sources now s ∙ (omega arith)
    take_arm-acknowledged (due sources) s =
        due_turn-acknowledged s.pending sources s ∙ (omega arith)

Turn-cases : (t : Turn) → ((s : LoopState) × (t ≡ goes_on s)) ⊎ ((s : LoopState) × (t ≡ returns s))
Turn-cases (goes_on s) = inl (s, refl)
Turn-cases (returns s) = inr (s, refl)

-- Whatever the loop meets and whether or not the runtime takes what it sends: when it stops, it has
-- acknowledged every sleep that it met, once each; the sleeps that it did not meet are those of the arms that
-- are left.
pub run-acknowledged :
    (takes : ℕ → Bool) (f : Floats) (tick_interval : ℕ) (arms : List (Arm f)) (s : LoopState)
    → (run takes f tick_interval arms s).0.acknowledged
        + sleeps (run takes f tick_interval arms s).1
      ≡ s.acknowledged + sleeps arms
unfolding run
run-acknowledged takes f tick_interval [] s = refl
run-acknowledged takes f tick_interval (arm ∷ arms) s =
    let met = take_arm-acknowledged takes f tick_interval arm s in
    elim (Turn-cases (take_arm takes f tick_interval arm s)) [
      | inr (s', e) ↦
          let same = ap (λ t. (state_of t).acknowledged) e in rw (run, e) (omega (arith, met, same))
      | inl (s', e) ↦
          let same = ap (λ t. (state_of t).acknowledged) e in
          rw (run, e) (omega (arith, met, same, run-acknowledged takes f tick_interval arms s'))
    ]
