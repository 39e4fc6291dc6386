-- ===== src/Buffer/Operations/Cursors.antt =====
-- What `read_cursor` gives after an `enqueue` that carries a cursor.
use nikki.Prelude.{
  ℕ, ◌≡◌, refl, sym, ap, ◌∙◌, inl, inr, Bool, true, false, Option, some, List, [], ◌∷◌, Text,
  text_eq, text_eq_iff, ℤ, ◌&&◌, Bool-cases, if◌then◌else◌,
}
use nikki.Record.{RecordDraft, Envelope, Cursor, Provider, provider_name}
use nikki.World.{World}
use nikki.Redact.{Redactor}
use nikki.Buffer.Sql.{Tables, Connection, CursorRow, ok, query}
use nikki.Buffer.Sql.Yields.{IsHealthy, Ends-eq, Yields-query}
use nikki.Buffer.Evict.{Caps, candidate_of_pending}
use nikki.Buffer.Evict.Rows.{IsAscending}
use nikki.Buffer.Operations.{push_pending, select_cursor, upsert_cursor, enqueue, read_cursor}
use nikki.Buffer.Operations.Enqueue.{stored_seq, push_all, written, enqueued_tables, enqueue-Yields}

-- Whether a cursor is the one that a provider has under a key.
abbrev pub is_for : Cursor → Provider → Text → Bool
is_for cursor provider key =
    text_eq (provider_name cursor.provider) (provider_name provider) && text_eq cursor.key key

same_text : (a b c : Text) → text_eq a b ≡ true → text_eq a c ≡ text_eq b c
same_text a b c h = ap (λ s. text_eq s c) ((text_eq_iff a b).0 h)

both_true : (a b : Bool) → (a && b) ≡ true → (a ≡ true) × (b ≡ true)
both_true true true h = (refl, refl)
both_true true false h = absurd (cc)
both_true false b h = absurd (cc)

chosen_twice :
    (a b : Bool) (v w rest : Option Text)
    → a ≡ b
    → (if a then v else rest) ≡ (if b then v else if a then w else rest)
chosen_twice true true v w rest h = refl
chosen_twice false false v w rest h = refl
chosen_twice true false v w rest h = absurd (cc)
chosen_twice false true v w rest h = absurd (cc)

chosen_apart :
    (a b : Bool) (v w rest : Option Text)
    → (a ≡ true → b ≡ false)
    → (if a then w else if b then v else rest) ≡ (if b then v else if a then w else rest)
chosen_apart true b v w rest h = rw (h refl) refl
chosen_apart false b v w rest h = refl

both_eq : (a b c d : Bool) → a ≡ b → c ≡ d → (a && c) ≡ (b && d)
both_eq a b c d h k = cc

-- A table of cursors after an upsert.
select-upsert :
    (p k q l v : Text) (rows : List CursorRow)
    → select_cursor p k (upsert_cursor q l v rows)
      ≡ (if text_eq q p && text_eq l k then some v else select_cursor p k rows)
unfolding select_cursor upsert_cursor
select-upsert p k q l v [] = refl
select-upsert p k q l v (r ∷ rows) = elim (Bool-cases (text_eq r.provider q && text_eq r.key l)) [
  | inl same ↦
      let (the_provider, the_key) = both_true _ _ same in
      rw (upsert_cursor, same)
        (chosen_twice _ _ (some v) (some r.value) (select_cursor p k rows)
          (both_eq _ _ _ _ (same_text r.provider q p the_provider) (same_text r.key l k the_key)))
  | inr other ↦
      rw (upsert_cursor, other)
        (ap (λ o. if text_eq r.provider p && text_eq r.key k then some r.value else o)
            (select-upsert p k q l v rows)
          ∙ chosen_apart _ _ (some v) (some r.value) (select_cursor p k rows) (apart other))
]
  where
    apart :
        (text_eq r.provider q && text_eq r.key l) ≡ false
        → (text_eq r.provider p && text_eq r.key k) ≡ true
        → (text_eq q p && text_eq l k) ≡ false
    apart other found = elim (Bool-cases (text_eq q p && text_eq l k)) [
      | inr no_match ↦ no_match
      | inl match ↦
          let (q_p, l_k) = both_true _ _ match in
          let (r_p, r_k) = both_true _ _ found in
          let providers : text_eq r.provider q ≡ true =
            (text_eq_iff r.provider q).1
              ((text_eq_iff r.provider p).0 r_p ∙ sym ((text_eq_iff q p).0 q_p)) in
          let keys : text_eq r.key l ≡ true =
            (text_eq_iff r.key l).1 ((text_eq_iff r.key k).0 r_k ∙ sym ((text_eq_iff l k).0 l_k)) in
          absurd (cc)
    ]

push_all-cursors :
    (w : World) (created_at : Text) (es : List Envelope) (t : Tables)
    → (push_all w created_at es t).cursors ≡ t.cursors
unfolding push_all push_pending
push_all-cursors w created_at [] t = refl
push_all-cursors w created_at (e ∷ es) t = push_all-cursors w created_at es _

reads :
    (w : World) (provider : Provider) (key : Text) (c : Connection)
    → IsHealthy w
    → (read_cursor w provider key c).0
      ≡ ok (select_cursor (provider_name provider) key c.tables.cursors)
unfolding read_cursor
reads w provider key c healthy =
    (Ends-eq w (query w _ c) _ c.tables healthy (Yields-query w c c.tables refl _)).0

ok_if :
    (b : Bool) (v : Text) (o : Option Text)
    → ok (if b then some v else o) ≡ (if b then ok (some v) else ok o)
ok_if true v o = refl
ok_if false v o = refl

enqueued_tables-cursors :
    (w : World) (device : Text) (caps : Caps) (redactor : Redactor) (now later : ℤ)
    (drafts : List RecordDraft) (cursor : Cursor) (record_device : Option Text) (seq : ℕ)
    (t : Tables)
    → (enqueued_tables w device caps redactor now later drafts
        (some cursor)
        record_device
        seq
        t).cursors
      ≡ upsert_cursor (provider_name cursor.provider) cursor.key cursor.value t.cursors
unfolding enqueued_tables written
enqueued_tables-cursors w device caps redactor now later drafts cursor record_device seq t =
    push_all-cursors w (w.to_rfc3339 now) _ _
    ∙ ap (upsert_cursor (provider_name cursor.provider) cursor.key cursor.value)
        (push_all-cursors w (w.to_rfc3339 now) _ t)

-- In a healthy world, with a counter that is a number and the rows in the order of their ids: after an
-- `enqueue` that carries a cursor, `read_cursor` gives the value of that cursor for its provider and key, and
-- for any other provider and key what it gave before.
pub read_cursor-enqueue :
    (w : World) (device : Text) (caps : Caps) (redactor : Redactor) (now later : ℤ)
    (drafts : List RecordDraft) (cursor : Cursor) (record_device : Option Text) (seq : ℕ)
    (c : Connection) (provider : Provider) (key : Text)
    → IsHealthy w
    → stored_seq c.tables ≡ some seq
    → IsAscending candidate_of_pending c.tables.pending
    → (read_cursor w provider key
        (enqueue w device caps redactor now later drafts (some cursor) record_device c).1).0
      ≡ (if is_for cursor provider key
          then ok (some cursor.value)
          else (read_cursor w provider key c).0)
read_cursor-enqueue w device caps redactor now later drafts cursor record_device seq c provider key
      healthy stored ordered =
    let (done, at) =
      Ends-eq w (enqueue w device caps redactor now later drafts (some cursor) record_device c) _ _
        healthy
        (enqueue-Yields w device caps redactor now later drafts (some cursor) record_device seq c
          c.tables refl stored ordered) in
    let p = provider_name provider in
    reads w provider key _ healthy
    ∙ ap (λ t. ok (select_cursor p key t.cursors)) at
    ∙ ap (λ rows. ok (select_cursor p key rows))
        (enqueued_tables-cursors w device caps redactor now later drafts cursor record_device seq
          c.tables)
    ∙ ap ok (
        select-upsert p key (provider_name cursor.provider) cursor.key cursor.value
          c.tables.cursors)
    ∙ ok_if (is_for cursor provider key) cursor.value (select_cursor p key c.tables.cursors)
    ∙ ap (λ r. if is_for cursor provider key then ok (some cursor.value) else r)
        (sym (reads w provider key c healthy))
