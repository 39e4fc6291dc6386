-- ===== src/Providers/Tests.antt =====
-- A provider that fails twice and then finishes, and the theorem about it.
use nikki.Prelude.{◌≡◌, List, [], ◌∷◌}
use nikki.Providers.{AttemptEnd, finished, attempt_failed, panicked, default_backoff, supervise}
use nikki.Providers.Pauses.{pauses_of, restarts, ends_well, supervise_lem}

abbrev ends : List AttemptEnd
ends = attempt_failed ∷ panicked ∷ finished ∷ []

supervise_example :
    ((supervise default_backoff ends).pauses ≡ pauses_of default_backoff (restarts ends))
    × ((supervise default_backoff ends).returned ≡ ends_well ends)
supervise_example = supervise_lem default_backoff ends
