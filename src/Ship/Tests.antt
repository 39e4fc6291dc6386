-- ===== src/Ship/Tests.antt =====
-- A service that takes the two rows of the buffer, and the theorems about shipping them.
use nikki.Prelude.{
  length, ℕ, ◌≤◌, ◌≡◌, ◌↔◌, ◌⊎◌, refl, none, some, List, [], ◌∷◌, ◌++◌, codes, pos, arith, All,
  subst, sym,
}
use nikki.Buffer.Sql.{Result}
use nikki.Buffer.Serve.Invariant.{IsOrdered}
use nikki.Buffer.Tests.{calm, two_rows, two_rows-IsOrdered}
use nikki.Ship.{Answer, response, idle, shipped, Exchange, Shipper, disposition_of, pauses, drain}
use nikki.Ship.Verdict.{
  AccountsFor, HasStatus, IsPermanent, IsDelete, IsBurial, disposition-safe, pauses-double,
  failures, doublings,
}
use nikki.Ship.Shipment.{IsFinal, Fate, sent, shipment, at_verdict, remaining, ship_once_outcome}
use nikki.Ship.Drain.{drain_ends}
use nikki.Ship.Delivery.{ship_once-Delivered}
use nikki.Ship.{counted, saturating_add}
use nikki.Ship.Shipment.{Delivered}
use nikki.Buffer.Operations.Batch.{records_of}
use nikki.Buffer.Sql.{ok}
use nikki.Buffer.Tests.{calm-IsHealthy}

abbrev taken : Answer
taken = response 200 (some (record { accepted = 1; duplicates = 1; rejected = none }))

abbrev quiet : Exchange
quiet = record { post = λ body. taken; meanwhile = λ c. c; now = pos 7 }

disposition-safe_example :
    (IsDelete (disposition_of taken 2) ↔ AccountsFor taken 2)
    × (IsBurial (disposition_of taken 2) ↔ HasStatus IsPermanent taken)
disposition-safe_example = disposition-safe taken 2

abbrev refused : List (List ℕ)
refused = codes "503" ∷ codes "503" ∷ []

pauses-double_example :
    All (λ pause. pause ≤ 300000) (pauses ((idle ∷ []) ++ shipped 3 ∷ failures refused) 4000)
    × (pauses ((idle ∷ []) ++ shipped 3 ∷ failures refused) 4000
        ≡ pauses (idle ∷ []) 4000 ++ 0 ∷ doublings 0 refused)
pauses-double_example = pauses-double (idle ∷ []) (shipped 3) refused 4000 (omega arith) tt

ship_once_outcome_example :
    (IsFinal (shipment calm quiet 2 two_rows []).0
      × ((shipment calm quiet 2 two_rows []).1.buffer.tables ≡ two_rows.tables))
    ⊎ Fate 2 taken
        (sent calm quiet 2 two_rows [])
        (remaining calm quiet 2 two_rows [])
        (at_verdict calm quiet 2 two_rows [])
        (shipment calm quiet 2 two_rows [])
ship_once_outcome_example =
    ship_once_outcome calm quiet 2 two_rows [] (λ c e i. (e i).pending)
      (λ c e. subst IsOrdered (sym e) two_rows-IsOrdered)

drain_ends_example :
    (r : Result (Unit {0}) × Shipper) × (drain calm
        (quiet ∷ quiet ∷ quiet ∷ quiet ∷ quiet ∷ [])
        (record { batch_size = 2; buffer = two_rows })
      ≡ some r)
drain_ends_example =
    drain_ends calm (quiet ∷ quiet ∷ quiet ∷ quiet ∷ quiet ∷ [])
      (record { batch_size = 2; buffer = two_rows })
      ((λ c. refl), ((λ c. refl), ((λ c. refl), ((λ c. refl), ((λ c. refl), tt)))))
      two_rows-IsOrdered (omega arith)

two_rows-sent : 1 ≤ length (sent calm quiet 2 two_rows [])
unfolding records_of
two_rows-sent = omega arith

quiet-AccountsFor : AccountsFor taken (length (sent calm quiet 2 two_rows []))
unfolding records_of counted saturating_add
quiet-AccountsFor = (refl, refl)

ship_once-Delivered_example :
    ((shipment calm quiet 2 two_rows []).0 ≡ ok (shipped (length (sent calm quiet 2 two_rows []))))
    × Delivered
        (remaining calm quiet 2 two_rows [])
        (at_verdict calm quiet 2 two_rows [])
        (shipment calm quiet 2 two_rows []).1.buffer.tables
ship_once-Delivered_example =
    ship_once-Delivered calm calm-IsHealthy quiet 2 two_rows [] two_rows-sent quiet-AccountsFor
      (λ c e i. (e i).pending) (λ c e. subst IsOrdered (sym e) two_rows-IsOrdered)
