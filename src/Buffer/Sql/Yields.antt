-- ===== src/Buffer/Sql/Yields.antt =====
-- What a body of statements comes to: the value and the tables on success, and on a failure that the
-- world is not healthy. One rule for each way to build a body.
use nikki.Prelude.{ℕ, ◌≡◌, refl, ap, subst, ◌∙◌, ◌≢◌, ◌⊎◌, none, inl, inr, Option-cases}
use nikki.Record.{Envelope}
use nikki.World.{World}
use nikki.Buffer.Sql.{
  BufferError, Result, ok, err, Tables, Connection, Tx, followed_by, ◌>>=◌, pure, tables_of,
  write_tables, answer, call, query, execute, settle, transaction,
}

-- No statement fails, and every envelope is serialised.
pub record IsHealthy (w : World) : Type 0 where
  pub no_fault : (n : ℕ) → w.fault n ≡ none
  pub serialises : (e : Envelope) → w.to_json e ≢ none

module _ (w : World) where
  abbrev pub Ends : {A : Type 0} → Result A × Connection → A → Tables → Type 0
  Ends (ok b, c) a t = (b ≡ a) × (c.tables ≡ t)
  Ends (err e, c) a t = ¬ IsHealthy w

  abbrev pub Yields : {A : Type 0} → Tx A → Connection → A → Tables → Type 0
  Yields body c a t = Ends (body c) a t

  Ends-followed_by :
      {A B : Type 0} (r : Result A × Connection) (next : A → Tx B) (a : A) (b : B) (t u : Tables)
      → Ends r a t
      → ((c : Connection) → c.tables ≡ t → Yields (next a) c b u)
      → Ends (followed_by r next) b u
  unfolding followed_by
  Ends-followed_by (ok x, c) next a b t u (p, q) k = rw p (k c q)
  Ends-followed_by (err e, c) next a b t u h k = h

  pub Yields-bind :
      {A B : Type 0} (body : Tx A) (next : A → Tx B) (c : Connection) (a : A) (b : B) (t u : Tables)
      → Yields body c a t
      → ((c' : Connection) → c'.tables ≡ t → Yields (next a) c' b u)
      → Yields (body >>= next) c b u
  unfolding ◌>>=◌
  Yields-bind body next c a b t u h k = Ends-followed_by (body c) next a b t u h k

  -- The value may be written another way.
  pub Yields-value :
      {A : Type 0} (body : Tx A) (c : Connection) (a b : A) (t : Tables)
      → a ≡ b
      → Yields body c a t
      → Yields body c b t
  Yields-value body c a b t p h = subst (λ x. Yields body c x t) p h

  module _ {A : Type 0} (c : Connection) (t : Tables) (at : c.tables ≡ t) where
    pub Yields-pure : (a : A) → Yields (pure a) c a t
    unfolding pure
    Yields-pure a = (refl, at)

  module _ (c : Connection) (t : Tables) (at : c.tables ≡ t) where
    pub Yields-call : Yields (call w) c tt t
    unfolding call answer
    Yields-call = elim (Option-cases (w.fault c.ran)) [
      | inl fine ↦ rw fine (refl, at)
      | inr (e, failed) ↦ rw failed (λ h. cc (h.no_fault c.ran))
    ]

    pub Yields-query : {A : Type 0} (read : Tables → A) → Yields (query w read) c (read t) t
    unfolding query tables_of pure
    Yields-query read =
        Yields-bind (call w) _ c tt (read t) t t Yields-call
          λ c' at'. Yields-bind tables_of _ c' t (read t) t t (at', at') λ c'' at''. (refl, at'')

    pub Yields-execute : (change : Tables → Tables) → Yields (execute w change) c tt (change t)
    unfolding execute write_tables
    Yields-execute change =
        Yields-bind (call w) _ c tt tt t (change t) Yields-call λ c' at'. (refl, ap change at')

  -- A body that writes nothing, whether it succeeds or fails.
  abbrev pub IsReadOnly : {A : Type 0} → Tx A → Type 0
  IsReadOnly body = (c : Connection) → (body c).1.tables ≡ c.tables

  followed_by-read_only :
      {A B : Type 0} (r : Result A × Connection) (next : A → Tx B) (t : Tables)
      → r.1.tables ≡ t
      → ((a : A) → IsReadOnly (next a))
      → (followed_by r next).1.tables ≡ t
  unfolding followed_by
  followed_by-read_only (ok a, c) next t e h = h a c ∙ e
  followed_by-read_only (err x, c) next t e h = e

  pub IsReadOnly-bind :
      {A B : Type 0} (body : Tx A) (next : A → Tx B)
      → IsReadOnly body
      → ((a : A) → IsReadOnly (next a))
      → IsReadOnly (body >>= next)
  unfolding ◌>>=◌
  IsReadOnly-bind body next h k c = followed_by-read_only (body c) next c.tables (h c) k

  pub IsReadOnly-call : IsReadOnly (call w)
  unfolding call
  IsReadOnly-call c = refl

  pub IsReadOnly-query : {A : Type 0} (read : Tables → A) → IsReadOnly (query w read)
  unfolding query tables_of pure
  IsReadOnly-query read =
      IsReadOnly-bind (call w) _ IsReadOnly-call
        λ a c. IsReadOnly-bind tables_of _ (λ c'. refl) (λ t c'. refl) c

  pub IsReadOnly-pure : {A : Type 0} (a : A) → IsReadOnly (pure a)
  unfolding pure
  IsReadOnly-pure a c = refl

  Ends-settle :
      {A : Type 0} (before : Tables) (r : Result A × Connection) (a : A) (t : Tables)
      → Ends r a t
      → Ends (settle before r) a t
  unfolding settle
  Ends-settle before (ok b, c) a t h = h
  Ends-settle before (err e, c) a t h = h

  pub Yields-transaction :
      {A : Type 0} (body : Tx A) (c : Connection) (a : A) (t u : Tables)
      → c.tables ≡ t
      → ((c' : Connection) → c'.tables ≡ t → Yields body c' a u)
      → Yields (transaction w body) c a u
  unfolding transaction
  Yields-transaction body c a t u at h = Ends-settle c.tables _ a u (
      Yields-bind (call w) _ c tt a t u (Yields-call c t at) λ c1 at1.
        Yields-bind body _ c1 a a u u (h c1 at1) λ c2 at2.
          Yields-bind (call w) _ c2 tt a u u (Yields-call c2 u at2)
            λ c3 at3. Yields-pure c3 u at3 a)

  settle-rolls_back :
      {A : Type 0} (before : Tables) (r : Result A × Connection) (e : BufferError)
      → (settle before r).0 ≡ err e
      → (settle before r).1.tables ≡ before
  unfolding settle
  settle-rolls_back before (ok a, c) e h = cc
  settle-rolls_back before (err x, c) e h = refl

  -- A transaction that fails anywhere leaves the tables as they were.
  pub transaction-rolls_back :
      {A : Type 0} (body : Tx A) (c : Connection) (e : BufferError)
      → (transaction w body c).0 ≡ err e
      → (transaction w body c).1.tables ≡ c.tables
  unfolding transaction
  transaction-rolls_back body c e h = settle-rolls_back c.tables _ e h

-- A healthy world turns `Yields` into the run itself.
pub Ends-eq :
    (w : World) {A : Type 0} (r : Result A × Connection) (a : A) (t : Tables)
    → IsHealthy w
    → Ends w r a t
    → (r.0 ≡ ok a) × (r.1.tables ≡ t)
Ends-eq w (ok b, c) a t h (p, q) = (ap ok p, q)
Ends-eq w (err e, c) a t h n = absurd (n h)

-- In any world, a successful run is the one that `Yields` names.
pub Ends-ok :
    (w : World) {A : Type 0} (r : Result A × Connection) (a b : A) (t : Tables)
    → Ends w r a t
    → r.0 ≡ ok b
    → (b ≡ a) × (r.1.tables ≡ t)
Ends-ok w (ok x, c) a b t (p, q) h = (cc, q)
Ends-ok w (err e, c) a b t n h = absurd (cc)

pub Ends-cases :
    (w : World) {A : Type 0} (r : Result A × Connection) (a : A) (t : Tables)
    → Ends w r a t
    → ((r.0 ≡ ok a) × (r.1.tables ≡ t)) ⊎ ((e : BufferError) × (r.0 ≡ err e) × (¬ IsHealthy w))
Ends-cases w (ok x, c) a t (p, q) = inl (ap ok p, q)
Ends-cases w (err e, c) a t n = inr (e, refl, n)
