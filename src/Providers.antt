-- ===== src/Providers.antt =====
-- src/providers/mod.rs: what a provider sends to the runtime, and the supervision that restarts it.
-- A `Duration` is its milliseconds; a channel for the acknowledgement is whether there is one.
pub mod Pauses
mod Tests
use nikki.Prelude.{ℕ, ◌*◌, Bool, true, false, Option, none, some, List, [], ◌∷◌, Text, min}
use nikki.Record.{RecordDraft, Cursor}

pub record Emission : Type 0 where
  pub records : List RecordDraft
  pub cursor : Option Cursor
  pub committed : Bool
  pub ships_before_commit : Bool
  pub device : Option Text

abbrev pub new : List RecordDraft → Emission
new records = record {
  records = records;
  cursor = none;
  committed = false;
  ships_before_commit = false;
  device = none;
}

abbrev pub awaiting_commit : List RecordDraft → Option Cursor → Emission
awaiting_commit records cursor = record {
  records = records;
  cursor = cursor;
  committed = true;
  ships_before_commit = true;
  device = none;
}

abbrev pub awaiting_buffer : List RecordDraft → Option Cursor → Emission
awaiting_buffer records cursor = record {
  records = records;
  cursor = cursor;
  committed = true;
  ships_before_commit = false;
  device = none;
}

abbrev pub for_device : Text → Emission → Emission
for_device device emission = record emission { device = some device }

pub record Backoff : Type 0 where
  pub start : ℕ
  pub ceiling : ℕ

abbrev pub default_backoff : Backoff
default_backoff = record { start = 1000; ceiling = 300 * 1000 }

-- How an attempt ends: `Ok(Ok(()))`, `Ok(Err(error))`, and the two kinds of `Err(join)`.
pub data AttemptEnd : Type 0 where
  finished attempt_failed cancelled panicked : AttemptEnd

-- What supervision did: the pauses it slept, in their order, and whether it returned. The attempts that
-- it is given may be used up before it returns.
pub record Supervision : Type 0 where
  pub pauses : List ℕ
  pub returned : Bool

unfoldable pub slept : ℕ → Supervision → Supervision
slept pause rest = record rest { pauses = pause ∷ rest.pauses }

-- The loop of `supervise`, over how its attempts end.
unfoldable pub supervise_from : ℕ → ℕ → List AttemptEnd → Supervision
unfolding slept
supervise_from ceiling pause [] = record { pauses = []; returned = false }
supervise_from ceiling pause (finished ∷ ends) = record { pauses = []; returned = true }
supervise_from ceiling pause (cancelled ∷ ends) = record { pauses = []; returned = true }
supervise_from ceiling pause (attempt_failed ∷ ends) =
    slept pause (supervise_from ceiling (min (pause * 2) ceiling) ends)
supervise_from ceiling pause (panicked ∷ ends) =
    slept pause (supervise_from ceiling (min (pause * 2) ceiling) ends)

unfoldable pub supervise : Backoff → List AttemptEnd → Supervision
supervise backoff ends = supervise_from backoff.ceiling backoff.start ends
