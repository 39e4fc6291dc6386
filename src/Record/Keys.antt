-- ===== src/Record/Keys.antt =====
-- src/runtime/dedup.rs: which records share a deduplication key. A record's identity is what the
-- service may take two envelopes for the same record by.
use nikki.Prelude.{
  ℕ, ◌↔◌, ◌^◌, ◌<◌, ◌≡◌, refl, sym, ap, ◌≢◌, Option, none, some, List, [], ◌∷◌, ◌++◌, arith, Text,
  codes, ℤ, decimal, decimal_ℤ, text_eq, if◌then◌else◌, Lacks, split_at_byte, All, All-mono, IsI64,
  decimal-injective, decimal_ℤ-injective, decimal-IsDigits, decimal_ℤ-printable,
}
use nikki.Record.{
  Provider, windows, browser_history, claude_code, Kind, tick, focus, state_change, lock, unlock,
  sleep, wake, buffer_overflow, visit, message, session, touch, KeySource, windows_key,
  browser_visit, claude_message, claude_session, claude_touch, provider_name, kind_name,
}
use nikki.Record.Dedup.{join, key_fields, unit_separator}

abbrev pub IsClean : Text → Type 0
IsClean = Lacks unit_separator

not_clean : (s t u : Text) → IsClean s → s ≢ t ++ unit_separator ∷ u
not_clean [] [] u h e = cc
not_clean [] (b ∷ t) u h e = cc
not_clean (a ∷ s) [] u h e = ground arith
not_clean (a ∷ s) (b ∷ t) u h e = not_clean s t u h.1 (cc)

-- Joining is injective on lists of the clean texts that have at least one.
join-injective :
    (s t : Text) (ss ts : List Text)
    → All IsClean (s ∷ ss)
    → All IsClean (t ∷ ts)
    → join (s ∷ ss) ≡ join (t ∷ ts)
    → s ∷ ss ≡ t ∷ ts
unfolding join
join-injective s t [] [] hs ht e = cc
join-injective s t [] (y ∷ ts) hs ht e = absurd (not_clean s t _ hs.0 e)
join-injective s t (x ∷ ss) [] hs ht e = absurd (not_clean t s _ ht.0 (sym e))
join-injective s t (x ∷ ss) (y ∷ ts) hs ht e =
    let (p, q) = split_at_byte unit_separator s t _ _ hs.0 ht.0 e in
    let r = join-injective x y ss ts hs.1 ht.1 q in cc

join_fields-injective :
    (ss ts : List Text)
    → All IsClean ss
    → All IsClean ts
    → ss ≢ []
    → ts ≢ []
    → join ss ≡ join ts
    → ss ≡ ts
join_fields-injective [] ts hs ht ns nt e = absurd (ns refl)
join_fields-injective (s ∷ ss) [] hs ht ns nt e = absurd (nt refl)
join_fields-injective (s ∷ ss) (t ∷ ts) hs ht ns nt e = join-injective s t ss ts hs ht e

-- What tells one record from another: for what the window provider and the buffer make, the
-- device, the kind, the time and the sequence number, otherwise the device and the source's own names.
pub data Identity : Type 0 where
  event : Text → Kind → ℤ → ℕ → Identity
  sourced : Text → KeySource → Identity

unfoldable pub identity : KeySource → Text → Kind → ℤ → ℕ → Identity
identity windows_key device kind ts seq = event device kind ts seq
identity source device kind ts seq = sourced device source

-- The texts of a source have no separator in them, and its numbers fit their types.
abbrev pub IsCleanSource : KeySource → Type 0
IsCleanSource windows_key = Unit
IsCleanSource (browser_visit profile generation visit_id) =
    IsClean profile × (generation < 2 ^ 64) × IsI64 visit_id
IsCleanSource (claude_message session_id uuid block) =
    IsClean session_id × IsClean uuid × (block < 2 ^ 32)
IsCleanSource (claude_session session_id field value) =
    IsClean session_id × IsClean field × IsClean value
IsCleanSource (claude_touch session_id uuid repo action) =
    IsClean session_id × IsClean uuid × IsClean repo × IsClean action

decimal-IsClean : (n : ℕ) → IsClean (decimal n)
decimal-IsClean n = All-mono _ _ (λ c h. omega arith) (decimal n) (decimal-IsDigits n)

decimal_ℤ-IsClean : (a : ℤ) → IsClean (decimal_ℤ a)
decimal_ℤ-IsClean a = All-mono _ _ (λ c h. omega arith) (decimal_ℤ a) (decimal_ℤ-printable a)

kind_of : Text → Option Kind
kind_of s =
    if text_eq s (codes "tick")
    then some tick
    else if text_eq s (codes "focus")
    then some focus
    else if text_eq s (codes "state_change")
    then some state_change
    else if text_eq s (codes "lock")
    then some lock
    else if text_eq s (codes "unlock")
    then some unlock
    else if text_eq s (codes "sleep")
    then some sleep
    else if text_eq s (codes "wake")
    then some wake
    else if text_eq s (codes "buffer_overflow")
    then some buffer_overflow
    else if text_eq s (codes "visit")
    then some visit
    else if text_eq s (codes "message")
    then some message
    else if text_eq s (codes "session")
    then some session
    else if text_eq s (codes "touch")
    then some touch
    else none

kind_of-kind_name : (k : Kind) → kind_of (kind_name k) ≡ some k
unfolding kind_of kind_name text_eq
kind_of-kind_name tick = refl
kind_of-kind_name k = refl

kind_name-injective : (a b : Kind) → kind_name a ≡ kind_name b → a ≡ b
kind_name-injective a b e = cc (kind_of-kind_name a, kind_of-kind_name b, ap kind_of e)

provider_of : Text → Provider
provider_of s =
    if text_eq s (codes "windows")
    then windows
    else if text_eq s (codes "browser_history")
    then browser_history
    else claude_code

provider_of-provider_name : (p : Provider) → provider_of (provider_name p) ≡ p
unfolding provider_of provider_name text_eq
provider_of-provider_name windows = refl
provider_of-provider_name p = refl

provider_name-injective : (p q : Provider) → provider_name p ≡ provider_name q → p ≡ q
provider_name-injective p q e =
    cc (provider_of-provider_name p, provider_of-provider_name q, ap provider_of e)

kind_name-IsClean : (k : Kind) → IsClean (kind_name k)
unfolding kind_name
kind_name-IsClean tick = omega arith
kind_name-IsClean k = omega arith

key_fields-IsClean :
    (source : KeySource) (device : Text) (kind : Kind) (ts : ℤ) (seq : ℕ)
    → IsCleanSource source
    → IsClean device
    → All IsClean (key_fields source device kind ts seq)
unfolding key_fields provider_name
key_fields-IsClean windows_key device kind ts seq hs hd =
    (hd, (omega arith, (kind_name-IsClean kind, (decimal_ℤ-IsClean ts, (decimal-IsClean seq, tt)))))
key_fields-IsClean (browser_visit profile generation visit_id) device kind ts seq hs hd =
    (hd, (omega arith, (hs.0, (decimal-IsClean generation, (decimal_ℤ-IsClean visit_id, tt)))))
key_fields-IsClean (claude_message session_id uuid block) device kind ts seq hs hd =
    (hd, (omega arith, (kind_name-IsClean message, (hs.0, (hs.1, (decimal-IsClean block, tt))))))
key_fields-IsClean (claude_session session_id field value) device kind ts seq hs hd =
    (hd, (omega arith, (kind_name-IsClean session, (hs.0, (hs.1, (hs.2, tt))))))
key_fields-IsClean (claude_touch session_id uuid repo action) device kind ts seq hs hd =
    (hd, (omega arith, (kind_name-IsClean touch, (hs.0, (hs.1, (hs.2, (hs.3, tt)))))))

key_fields-nonempty :
    (source : KeySource) (device : Text) (kind : Kind) (ts : ℤ) (seq : ℕ)
    → key_fields source device kind ts seq ≢ []
unfolding key_fields
key_fields-nonempty windows_key device kind ts seq e = cc
key_fields-nonempty source device kind ts seq e = cc

key_fields_of_identity :
    (source source' : KeySource) (device device' : Text) (kind kind' : Kind) (ts ts' : ℤ)
    (seq seq' : ℕ)
    → identity source device kind ts seq ≡ identity source' device' kind' ts' seq'
    → key_fields source device kind ts seq ≡ key_fields source' device' kind' ts' seq'
unfolding key_fields identity
key_fields_of_identity windows_key windows_key d d' k k' ts ts' n n' e = cc
key_fields_of_identity windows_key source' d d' k k' ts ts' n n' e = ground arith
key_fields_of_identity source source' d d' k k' ts ts' n n' e = ground arith

key_fields-injective :
    (source source' : KeySource) (device device' : Text) (kind kind' : Kind) (ts ts' : ℤ)
    (seq seq' : ℕ)
    → IsCleanSource source
    → IsCleanSource source'
    → IsI64 ts
    → IsI64 ts'
    → seq < 2 ^ 64
    → seq' < 2 ^ 64
    → key_fields source device kind ts seq ≡ key_fields source' device' kind' ts' seq'
    → identity source device kind ts seq ≡ identity source' device' kind' ts' seq'
unfolding key_fields identity
key_fields-injective windows_key windows_key d d' k k' ts ts' n n' c c' it it' sn sn' e = ground (
  arith,
  kind_name-injective k k',
  decimal_ℤ-injective ts ts' it it',
  decimal-injective n n' sn sn',
)
key_fields-injective (browser_visit p g v) (browser_visit p' g' v') d d' k k' ts ts' n n' c c' it
      it' sn sn' e =
    ground (arith, decimal-injective g g', decimal_ℤ-injective v v')
key_fields-injective (claude_message s u b) (claude_message s' u' b') d d' k k' ts ts' n n' c c' it
      it' sn sn' e =
    ground (arith, decimal-injective b b')
key_fields-injective (claude_session s f v) (claude_session s' f' v') d d' k k' ts ts' n n' c c' it
      it' sn sn' e =
    cc
key_fields-injective (claude_touch s u r a) (claude_touch s' u' r' a') d d' k k' ts ts' n n' c c' it
      it' sn sn' e =
    cc
key_fields-injective _ _ d d' k k' ts ts' n n' c c' it it' sn sn' e = ground (
  arith,
  provider_name-injective windows browser_history,
  provider_name-injective windows claude_code,
  provider_name-injective browser_history claude_code,
  kind_name-injective message session,
  kind_name-injective message touch,
  kind_name-injective session touch,
)

-- Two records hash the same text exactly when they have the same identity: the device and, for the
-- records of the window provider and of the buffer, their kind, time and sequence number, for all
-- others the names that their source gives them. This holds for texts without the unit separator
-- and numbers that fit their types.
pub key_input_iff :
    (source source' : KeySource) (device device' : Text) (kind kind' : Kind) (ts ts' : ℤ)
    (seq seq' : ℕ)
    → IsCleanSource source
    → IsCleanSource source'
    → IsClean device
    → IsClean device'
    → IsI64 ts
    → IsI64 ts'
    → seq < 2 ^ 64
    → seq' < 2 ^ 64
    → (join (key_fields source device kind ts seq)
        ≡ join (key_fields source' device' kind' ts' seq'))
      ↔ (identity source device kind ts seq ≡ identity source' device' kind' ts' seq')
key_input_iff s s' d d' k k' ts ts' n n' cs cs' cd cd' it it' sn sn' = (
  λ e. key_fields-injective s s' d d' k k' ts ts' n n' cs cs' it it' sn sn' (
      join_fields-injective (key_fields s d k ts n) (key_fields s' d' k' ts' n')
        (key_fields-IsClean s d k ts n cs cd) (key_fields-IsClean s' d' k' ts' n' cs' cd')
        (key_fields-nonempty s d k ts n) (key_fields-nonempty s' d' k' ts' n') e),
  λ e. ap join (key_fields_of_identity s s' d d' k k' ts ts' n n' e),
)
