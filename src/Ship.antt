-- ===== src/Ship.antt =====
-- src/runtime/ship.rs: the verdict on the service's answer, one shipment, the loop's pace and the
-- draining loop. The service's answers and the bodies they carry are parameters: an answer is the
-- status and what `serde_json` reads in the body.
pub mod Verdict
pub mod Shipment
pub mod Drain
pub mod Delivery
mod Tests
use nikki.Prelude.{
  ℕ, zero, suc, ◌+◌, ◌-◌, ◌*◌, ◌/◌, ◌%◌, ◌^◌, Bool, true, false, not, Option, none, some, List, [],
  ◌∷◌, ◌++◌, map, Text, codes, decimal, ℤ, ltb, leb, ◌==◌, ◌||◌, ◌&&◌, max, min, length,
  if◌then◌else◌,
}
use nikki.World.{World}
use nikki.Buffer.Sql.{Tx, Connection, Result, ok, err, ◌>>=◌, ◌>>◌, pure}
use nikki.Buffer.Operations.{PendingRecord, take_batch, delete_batch, dead_letter}

abbrev pub max_batch : ℕ
max_batch = 500

abbrev pub min_batch : ℕ
min_batch = 10

-- Milliseconds.
abbrev pub backoff_start : ℕ
backoff_start = 1000

abbrev pub backoff_ceiling : ℕ
backoff_ceiling = 300000

abbrev pub idle_poll : ℕ
idle_poll = 1000

pub record Rejection : Type 0 where
  pub index : ℕ
  pub reason : Text

pub record ServiceResponse : Type 0 where
  pub accepted : ℕ
  pub duplicates : ℕ
  pub rejected : Option (List Rejection)

-- A response, with what its body parses to; or a transport error.
pub data Answer : Type 0 where
  response : ℕ → Option ServiceResponse → Answer
  transport_error : Text → Answer

pub data Disposition : Type 0 where
  delete : List Rejection → Disposition
  keep : Text → Disposition
  dead_letters : Text → Disposition
  shrinks : Disposition

pub data Progress : Type 0 where
  idle : Progress
  shipped : ℕ → Progress
  kept : Text → Progress
  dead_lettered : ℕ → Progress
  shrunk : ℕ → Progress

-- `usize::saturating_add`
unfoldable pub saturating_add : ℕ → ℕ → ℕ
saturating_add a b = min (a + b) (2 ^ 64 - 1)

abbrev pub rejections_of : Option (List Rejection) → List Rejection
rejections_of none = []
rejections_of (some rs) = rs

unfoldable pub counted : ServiceResponse → ℕ
counted r =
    saturating_add (saturating_add r.accepted r.duplicates) (length (rejections_of r.rejected))

unfoldable pub decide_accepted : Option ServiceResponse → ℕ → Disposition
decide_accepted none batch_len =
    keep (codes "a 200 whose body is not the documented shape is treated as a 5xx")
decide_accepted (some r) batch_len =
    if not (counted r == batch_len)
    then keep (
        codes "a 200 accounting for "
        ++ (decimal (counted r)
            ++ (codes " of " ++ (decimal batch_len ++ codes " records is treated as a 5xx"))))
    else delete (rejections_of r.rejected)

unfoldable pub decide : ℕ → Option ServiceResponse → ℕ → Disposition
decide status body batch_len =
    if status == 200
    then decide_accepted body batch_len
    else if status == 401 || status == 403 || status == 404 || status == 405 || status == 407
    then keep (decimal status ++ codes " is a configuration failure, not a bad batch")
    else if status == 408 || status == 425 || status == 429
    then keep (decimal status ++ codes " asks for the same batch again later")
    else if status == 413
    then shrinks
    else if leb 400 status && ltb status 500
    then dead_letters (decimal status ++ codes " rejects the batch permanently")
    else keep (decimal status ++ codes " is retryable")

-- What `ship_once` makes of the answer to its post.
unfoldable pub disposition_of : Answer → ℕ → Disposition
disposition_of (response status body) batch_len = decide status body batch_len
disposition_of (transport_error e) batch_len = keep e

-- The loop of `body_for`: a comma before every record but the first.
body_loop : Bool → Text → List PendingRecord → Text
body_loop first body [] = body
body_loop first body (r ∷ rs) =
    body_loop false ((if not first then body ++ b',' ∷ [] else body) ++ r.envelope) rs

unfoldable pub body_for : List PendingRecord → Text
unfolding body_loop
body_for batch = body_loop true (codes "{\"records\":[") batch ++ codes "]}"

pub record Shipper : Type 0 where
  pub batch_size : ℕ
  pub buffer : Connection

-- What the world does during one shipment: how the service answers a body, what the buffer's thread
-- does for others while the post is under way, and the clock.
pub record Exchange : Type 0 where
  pub post : Text → Answer
  pub meanwhile : Connection → Connection
  pub now : ℤ

abbrev pub Shipping : Type 0
Shipping = Result Progress × Shipper

module _ (w : World) where
  -- A call of the buffer whose success is the progress.
  pub conclude : ℕ → Progress → Result (Unit {0}) × Connection → Shipping
  conclude size progress (ok u, c) = (ok progress, record { batch_size = size; buffer = c })
  conclude size progress (err e, c) = (err e, record { batch_size = size; buffer = c })

  shrink : List PendingRecord → ℤ → ℕ → Connection → Shipping
  unfolding conclude
  shrink batch now size c =
      if leb size min_batch
      then conclude size (dead_lettered (length batch)) (
          dead_letter w batch
            (codes "413 at the floor of " ++ (decimal min_batch ++ codes " records")) now c)
      else (let halved = max (length batch / 2) min_batch in
          (ok (shrunk halved), record { batch_size = halved; buffer = c }))

  dispose : Disposition → List PendingRecord → ℤ → ℕ → Connection → Shipping
  unfolding conclude shrink
  dispose (delete rejections) batch now size c =
      let ids = map (λ r. r.id) batch in conclude size (shipped (length ids)) (delete_batch w ids c)
  dispose (keep reason) batch now size c =
      (ok (kept reason), record { batch_size = size; buffer = c })
  dispose (dead_letters reason) batch now size c =
      conclude size (dead_lettered (length batch)) (dead_letter w batch reason now c)
  dispose shrinks batch now size c = shrink batch now size c

  post_batch : Exchange → ℕ → Result (List PendingRecord) × Connection → Shipping
  unfolding dispose
  post_batch x size (err e, c) = (err e, record { batch_size = size; buffer = c })
  post_batch x size (ok [], c) = (ok idle, record { batch_size = size; buffer = c })
  post_batch x size (ok (r ∷ rs), c) =
      dispose (disposition_of (x.post (body_for (r ∷ rs))) (length (r ∷ rs))) (r ∷ rs) x.now size
        (x.meanwhile c)

  unfoldable pub ship_once : Exchange → Shipper → Shipping
  unfolding post_batch
  ship_once x s = post_batch x s.batch_size (take_batch w s.batch_size s.buffer)

  -- The loop of `drain`, over the exchanges to come; `none` if they run out before it ends.
  drain_on : List Exchange → Shipping → Option (Result (Unit {0}) × Shipper)
  drain_on xs (err e, s) = some (err e, s)
  drain_on xs (ok idle, s) = some (ok tt, s)
  drain_on xs (ok (kept reason), s) = some (ok tt, s)
  drain_on [] (ok progress, s) = none
  drain_on (x ∷ xs) (ok progress, s) = drain_on xs (ship_once x s)

  unfoldable pub drain : List Exchange → Shipper → Option (Result (Unit {0}) × Shipper)
  unfolding drain_on
  drain [] s = none
  drain (x ∷ xs) s = drain_on xs (ship_once x s)

-- The pause after a shipment, and the backoff that follows it.
unfoldable pub pace : Progress → ℕ → ℕ × ℕ
pace idle backoff = (idle_poll, backoff)
pace (kept reason) backoff = (backoff, min (backoff * 2) backoff_ceiling)
pace (shipped count) backoff = (0, backoff_start)
pace (dead_lettered count) backoff = (0, backoff_start)
pace (shrunk size) backoff = (0, backoff_start)

-- The pauses of a run, from a backoff.
unfoldable pub pauses : List Progress → ℕ → List ℕ
unfolding pace
pauses [] backoff = []
pauses (p ∷ ps) backoff = let (pause, next) = pace p backoff in pause ∷ pauses ps next
