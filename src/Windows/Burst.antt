-- ===== src/Windows/Burst.antt =====
-- src/providers/windows.rs: the sample that a burst of events comes to.
use nikki.Prelude.{
  ℕ, ◌+◌, ◌≡◌, refl, sym, ap, ◌∙◌, subst, Option, none, some, List, [], ◌∷◌, ℤ, min, if◌then◌else◌,
}
use nikki.Record.{Kind, focus, state_change}
use nikki.Windows.{
  RunningApplication, MacEvent, application_activated, focused_window_changed, title_changed,
  window_created, window_destroyed, displays_reconfigured, screen_locked, screen_unlocked,
  will_sleep, did_wake, Pending, signal, is_focus, or_else, schedule, Observed, handle_signal,
  burst,
}

-- The activation that an event is, with the moment it was observed.
abbrev pub activation : ℤ → MacEvent → Option (ℤ × RunningApplication)
activation at (application_activated application) = some (at, application)
activation at _ = none

abbrev pub last_activation : List Observed → Option (ℤ × RunningApplication)
last_activation [] = none
last_activation (o ∷ os) = or_else (last_activation os) (activation o.at o.event)

-- The instant of an event that asks for a sample.
abbrev pub asked : ℕ → MacEvent → Option ℕ
asked now screen_locked = none
asked now screen_unlocked = none
asked now will_sleep = none
asked now did_wake = none
asked now _ = some now

abbrev pub last_asked : List Observed → Option ℕ
last_asked [] = none
last_asked (o ∷ os) = or_else (last_asked os) (asked o.now o.event)

-- 300 ms after the last event that asks, but at most a second after the first.
abbrev pub deadline_of : ℕ → ℕ → Option ℕ → ℕ
deadline_of first deadline none = deadline
deadline_of first deadline (some now) = min (now + 300) (first + 1000)

-- The pending sample, when the last activation is this one and the deadline that one.
abbrev pub chosen : Option (ℤ × RunningApplication) → Pending → ℕ → Pending
chosen none p deadline = record p { deadline = deadline }
chosen (some (at, application)) p deadline = record {
  kind = focus;
  ts = at;
  application = some application;
  first = p.first;
  deadline = deadline;
}

abbrev pub gathered : Pending → List Observed → Pending
gathered p os = chosen (last_activation os) p (deadline_of p.first p.deadline (last_asked os))

-- A pending sample is of one of the two kinds that events ask for.
abbrev pub IsSampled : Kind → Type 0
IsSampled kind = kind ≡ (if is_focus kind then focus else state_change)

chosen-change :
    (last : Option (ℤ × RunningApplication)) (p : Pending) (at : ℤ) (now deadline : ℕ)
    → IsSampled p.kind
    → chosen last (schedule (some p) state_change none at now) deadline
      ≡ chosen (or_else last none) p deadline
unfolding schedule is_focus
chosen-change none p at now deadline h = λ i. record p { kind = sym h i; deadline = deadline }
chosen-change (some a) p at now deadline h = refl

chosen-activation :
    (last : Option (ℤ × RunningApplication)) (p : Pending) (application : RunningApplication)
    (at : ℤ) (now deadline : ℕ)
    → chosen last (schedule (some p) focus (some application) at now) deadline
      ≡ chosen (or_else last (some (at, application))) p deadline
unfolding schedule is_focus
chosen-activation none p application at now deadline = refl
chosen-activation (some a) p application at now deadline = refl

deadline_of-asked :
    (last : Option ℕ) (first now deadline : ℕ)
    → deadline_of first (min (now + 300) (first + 1000)) last
      ≡ deadline_of first deadline (or_else last (some now))
deadline_of-asked none first now deadline = refl
deadline_of-asked (some m) first now deadline = refl

or_else-none : {A : Type 0} (a : Option A) → or_else a none ≡ a
or_else-none none = refl
or_else-none (some a) = refl

-- An event that asks for nothing.
gathered-ignored :
    (p : Pending) (os : List Observed)
    → gathered p os
      ≡ chosen
          (or_else (last_activation os) none)
          p
          (deadline_of p.first p.deadline (or_else (last_asked os) none))
gathered-ignored p os = λ i.
    chosen (sym (or_else-none (last_activation os)) i) p
      (deadline_of p.first p.deadline (sym (or_else-none (last_asked os)) i))

gathered-change :
    (p : Pending) (os : List Observed) (at : ℤ) (now : ℕ)
    → IsSampled p.kind
    → gathered (schedule (some p) state_change none at now) os
      ≡ chosen
          (or_else (last_activation os) none)
          p
          (deadline_of p.first p.deadline (or_else (last_asked os) (some now)))
unfolding schedule
gathered-change p os at now h =
    ap (chosen (last_activation os) (schedule (some p) state_change none at now))
      (deadline_of-asked (last_asked os) p.first now p.deadline)
    ∙ chosen-change (last_activation os) p at now _ h

gathered-activation :
    (p : Pending) (os : List Observed) (application : RunningApplication) (at : ℤ) (now : ℕ)
    → gathered (schedule (some p) focus (some application) at now) os
      ≡ chosen
          (or_else (last_activation os) (some (at, application)))
          p
          (deadline_of p.first p.deadline (or_else (last_asked os) (some now)))
unfolding schedule
gathered-activation p os application at now =
    ap (chosen (last_activation os) (schedule (some p) focus (some application) at now))
      (deadline_of-asked (last_asked os) p.first now p.deadline)
    ∙ chosen-activation (last_activation os) p application at now _

change-IsSampled :
    (p : Pending) (at : ℤ) (now : ℕ)
    → IsSampled p.kind
    → IsSampled (schedule (some p) state_change none at now).kind
unfolding schedule is_focus
change-IsSampled p at now h = subst IsSampled h h

activation-IsSampled :
    (p : Pending) (a : RunningApplication) (at : ℤ) (now : ℕ)
    → IsSampled (schedule (some p) focus (some a) at now).kind
unfolding schedule is_focus
activation-IsSampled p a at now = refl

-- From a pending sample of one of the two kinds, a burst keeps the first instant; it becomes the
-- sample of the last activation, if there is one, with the moment that one was observed, and else
-- keeps its kind, its moment and its application; and its deadline is 300 ms after the last event
-- that asks for a sample, but at most a second after the first instant.
pub burst-gathered :
    (p : Pending) (os : List Observed) → IsSampled p.kind → burst (some p) os ≡ some (gathered p os)
unfolding burst handle_signal signal
burst-gathered p [] h = refl
burst-gathered p (o ∷ os) h =
    let changed : burst (some (schedule (some p) state_change none o.at o.now)) os
        ≡ some (
            chosen (or_else (last_activation os) none) p
              (deadline_of p.first p.deadline (or_else (last_asked os) (some o.now)))) =
      burst-gathered (schedule (some p) state_change none o.at o.now) os
        (change-IsSampled p o.at o.now h)
      ∙ ap some (gathered-change p os o.at o.now h) in
    let ignored : burst (some p) os
        ≡ some (
            chosen (or_else (last_activation os) none) p
              (deadline_of p.first p.deadline (or_else (last_asked os) none))) =
      burst-gathered p os h ∙ ap some (gathered-ignored p os) in
    elim o.event
      as (λ e.
        burst (handle_signal (some p) (signal e) o.at o.now) os
        ≡ some (
            chosen (or_else (last_activation os) (activation o.at e)) p
              (deadline_of p.first p.deadline (or_else (last_asked os) (asked o.now e))))) [
                | application_activated a ↦
                    burst-gathered (schedule (some p) focus (some a) o.at o.now) os
                      (activation-IsSampled p a o.at o.now)
                    ∙ ap some (gathered-activation p os a o.at o.now)
                | focused_window_changed pid ↦ changed
                | title_changed pid ↦ changed
                | window_created pid ↦ changed
                | window_destroyed pid ↦ changed
                | displays_reconfigured ↦ changed
                | screen_locked ↦ ignored
                | screen_unlocked ↦ ignored
                | will_sleep ↦ ignored
                | did_wake ↦ ignored
              ]
