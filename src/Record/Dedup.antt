-- ===== src/Record/Dedup.antt =====
-- src/runtime/dedup.rs and `RecordDraft::into_envelope`. The hash is a parameter.
use nikki.Prelude.{
  ℕ, ◌+◌, ◌/◌, ◌%◌, List, [], ◌∷◌, ◌++◌, Text, codes, ℤ, decimal, decimal_ℤ, ltb, take,
  if◌then◌else◌, ◌≡◌, refl,
}
use nikki.Record.{
  Kind, RecordDraft, Envelope, KeySource, windows, browser_history, claude_code, message, session,
  touch, windows_key, browser_visit, claude_message, claude_session, claude_touch, provider_name,
  kind_name,
}

abbrev pub unit_separator : ℕ
unit_separator = 31

abbrev pub key_hex_chars : ℕ
key_hex_chars = 16

-- `fields.join(UNIT_SEPARATOR)`
unfoldable pub join : List Text → Text
join [] = []
join (s ∷ []) = s
join (s ∷ t ∷ ts) = s ++ unit_separator ∷ join (t ∷ ts)

hex_digit : ℕ → ℕ
hex_digit n = if ltb n 10 then 48 + n else 87 + n

-- `{byte:02x}` for each byte.
pub hex : List ℕ → Text
unfolding hex_digit
hex [] = []
hex (b ∷ bs) = hex_digit (b / 16) ∷ hex_digit (b % 16) ∷ hex bs

-- What is hashed for a draft of each source; the fields of `windows_key` to `claude_touch_key`.
unfoldable pub key_fields : KeySource → Text → Kind → ℤ → ℕ → List Text
key_fields windows_key device kind ts seq =
    device ∷ provider_name windows ∷ kind_name kind ∷ decimal_ℤ ts ∷ decimal seq ∷ []
key_fields (browser_visit profile generation visit_id) device kind ts seq =
    device ∷ provider_name browser_history ∷ profile ∷ decimal generation ∷ decimal_ℤ visit_id ∷ []
key_fields (claude_message session_id uuid block) device kind ts seq =
    device ∷ provider_name claude_code ∷ kind_name message ∷ session_id ∷ uuid ∷ decimal block ∷ []
key_fields (claude_session session_id field value) device kind ts seq =
    device ∷ provider_name claude_code ∷ kind_name session ∷ session_id ∷ field ∷ value ∷ []
key_fields (claude_touch session_id uuid repo action) device kind ts seq =
    device ∷ provider_name claude_code ∷ kind_name touch ∷ session_id ∷ uuid ∷ repo ∷ action ∷ []

module _ (sha256 : Text → List ℕ) where
  unfoldable pub key : List Text → Text
  unfolding hex
  key fields = hex (take (key_hex_chars / 2) (sha256 (join fields)))

  unfoldable pub into_envelope : RecordDraft → Text → ℕ → Envelope
  into_envelope draft device seq = record {
    provider = draft.provider;
    device = device;
    ts = draft.ts;
    seq = seq;
    kind = draft.kind;
    dedup_key = key (key_fields draft.key device draft.kind draft.ts seq);
    degraded = draft.degraded;
    payload = draft.payload;
  }

-- A digest of eight bytes is written with leading zeros.
key_text : key (λ s. 0 ∷ 10 ∷ 255 ∷ 16 ∷ 1 ∷ 2 ∷ 3 ∷ 4 ∷ 99 ∷ []) [] ≡ codes "000aff1001020304"
unfolding key
key_text = refl

join_fields : join (codes "a" ∷ codes "b" ∷ []) ≡ codes "a" ++ 31 ∷ codes "b"
unfolding join
join_fields = refl
