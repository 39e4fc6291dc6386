-- ===== src/Windows.antt =====
-- src/providers/windows.rs: what an event asks for, and the debounce that gathers a burst of them in
-- one sample; src/macos/activity.rs: the input counters. Instants are milliseconds. The event of a
-- sleep stands without its acknowledgement, which is a channel.
pub mod Burst
pub mod Counters
pub mod Samples
pub mod Loop
mod Tests
use nikki.Prelude.{
  ℕ, ◌+◌, ◌-◌, ◌%◌, ◌^◌, Bool, true, false, Option, none, some, List, [], ◌∷◌, Text, ℤ, min, ◌||◌,
  if◌then◌else◌,
}
use nikki.Record.{
  Kind, tick, focus, state_change, lock, unlock, sleep, wake, buffer_overflow, visit, message,
  session, touch,
}

-- Milliseconds.
abbrev pub debounce : ℕ
debounce = 300

abbrev pub debounce_ceiling : ℕ
debounce_ceiling = 1000

pub record RunningApplication : Type 0 where
  pub pid : ℤ
  pub name : Option Text
  pub bundle_id : Option Text

pub data MacEvent : Type 0 where
  application_activated : RunningApplication → MacEvent
  focused_window_changed title_changed window_created window_destroyed : ℤ → MacEvent
  displays_reconfigured screen_locked screen_unlocked will_sleep did_wake : MacEvent

pub data Signal : Type 0 where
  sample : Kind → Option RunningApplication → Signal
  marker : Kind → Signal
  sleep_signal : Signal

pub record Pending : Type 0 where
  pub kind : Kind
  pub ts : ℤ
  pub application : Option RunningApplication
  pub first : ℕ
  pub deadline : ℕ

unfoldable pub signal : MacEvent → Signal
signal (application_activated application) = sample focus (some application)
signal (focused_window_changed pid) = sample state_change none
signal (title_changed pid) = sample state_change none
signal (window_created pid) = sample state_change none
signal (window_destroyed pid) = sample state_change none
signal displays_reconfigured = sample state_change none
signal screen_locked = marker lock
signal screen_unlocked = marker unlock
signal did_wake = marker wake
signal will_sleep = sleep_signal

-- `kind == Kind::Focus`
unfoldable pub is_focus : Kind → Bool
is_focus focus = true
is_focus _ = false

-- `Option::or`
abbrev pub or_else : {A : Type 0} → Option A → Option A → Option A
or_else none b = b
or_else (some a) b = some a

unfoldable pub schedule : Option Pending → Kind → Option RunningApplication → ℤ → ℕ → Pending
schedule none kind application ts now = record {
  kind = kind;
  ts = ts;
  application = application;
  first = now;
  deadline = now + debounce;
}
schedule (some pending) kind application ts now = record {
  kind = if is_focus kind || is_focus pending.kind then focus else state_change;
  ts = if is_focus kind then ts else pending.ts;
  application = or_else application pending.application;
  first = pending.first;
  deadline = min (now + debounce) (pending.first + debounce_ceiling);
}

-- An event, the moment it was observed and the instant at which the provider takes it up.
pub record Observed : Type 0 where
  pub at : ℤ
  pub event : MacEvent
  pub now : ℕ

-- What the first arm of the loop makes of the pending sample. Markers and sleeps leave it alone.
handle_signal : Option Pending → Signal → ℤ → ℕ → Option Pending
handle_signal pending (sample kind application) at now =
    some (schedule pending kind application at now)
handle_signal pending (marker kind) at now = pending
handle_signal pending sleep_signal at now = pending

-- The events that come before the deadline of the pending sample.
unfoldable pub burst : Option Pending → List Observed → Option Pending
unfolding handle_signal
burst pending [] = pending
burst pending (o ∷ os) = burst (handle_signal pending (signal o.event) o.at o.now) os

-- `u32::wrapping_sub`
unfoldable pub wrapping_sub : ℕ → ℕ → ℕ
wrapping_sub a b = (a + (2 ^ 32 - b)) % 2 ^ 32

pub record InputCounters : Type 0 where
  pub keys : ℕ
  pub mouse : ℕ

pub record InputDelta : Type 0 where
  pub keys : ℕ
  pub mouse : ℕ

-- `InputCounterTracker::advance`: the delta, and the tracker's `previous`.
unfoldable pub advance : Option InputCounters → InputCounters → InputDelta × Option InputCounters
advance none current = (record { keys = 0; mouse = 0 }, some current)
advance (some previous) current = (
  record {
    keys = wrapping_sub current.keys previous.keys;
    mouse = wrapping_sub current.mouse previous.mouse;
  },
  some current,
)

-- The deltas of consecutive samples.
unfoldable pub deltas : Option InputCounters → List InputCounters → List InputDelta
deltas previous [] = []
deltas previous (c ∷ cs) = let (delta, next) = advance previous c in delta ∷ deltas next cs
