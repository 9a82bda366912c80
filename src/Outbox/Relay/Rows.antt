-- ===== src/Outbox/Relay/Rows.antt =====
-- Which events are those of rows of the outbox (internal/outbox/relay.go).
use go_chat_backend.Common.{
  ℕ, ◌≡◌, true, false, some, List, [], ◌∷◌, refl, sym, subst, Bool-cases, take, zero, suc, ◌⊎◌, inl,
  inr, Bool, map, if◌then◌else◌,
}
use go_chat_backend.Common.Rows.{select}
use go_chat_backend.Event.{MessageCreated, decode_message_created, Payload}
use go_chat_backend.Database.{Outbox}
use go_chat_backend.Database.OutboxTable.{is_pending, fetch_outbox}
use go_chat_backend.Database.OutboxTable.Pending.{InOrder}
use go_chat_backend.Outbox.Relay.{Weather, Relay, Publish, batch_size}
use go_chat_backend.Outbox.Relay.Carried.{Carrier, AllAdmitted, rows_of, fetched_rows}
use go_chat_backend.Outbox.Relay.Payloads.{key_of, keys}

-- The event is that of the row with this id, in a table with these ids and payloads.
abbrev pub IsRow : List (ℕ × Payload) → ℕ → MessageCreated → Type 0
IsRow [] id ev = ⊥
IsRow ((k, payload) ∷ rows) id ev =
    ((k ≡ id) × (decode_message_created payload ≡ some ev)) ⊎ IsRow rows id ev

abbrev pub IsSent : List (ℕ × Payload) → MessageCreated → Type 0
IsSent rows ev = (id : ℕ) × IsRow rows id ev

pub IsRow-select :
    (p : Outbox → Bool) (rows : List Outbox) (id : ℕ) (ev : MessageCreated)
    → IsRow (map key_of (select p rows)) id ev
    → IsRow (map key_of rows) id ev
unfolding select
IsRow-select p [] id ev h = h
IsRow-select p (row ∷ rows) id ev h = pick (IsRow-select p rows id ev) (p row) h
  where
    pick :
        (IsRow (map key_of (select p rows)) id ev → IsRow (map key_of rows) id ev)
        → (b : Bool) → IsRow (map key_of (if b then row ∷ select p rows else select p rows)) id ev
        → IsRow (map key_of (row ∷ rows)) id ev
    pick ih true (inl k) = inl k
    pick ih true (inr k) = inr (ih k)
    pick ih false k = inr (ih k)

pub IsRow-take :
    (n : ℕ) (rows : List Outbox) (id : ℕ) (ev : MessageCreated)
    → IsRow (map key_of (take n rows)) id ev
    → IsRow (map key_of rows) id ev
IsRow-take zero [] id ev h = h
IsRow-take zero (row ∷ rows) id ev h = absurd h
IsRow-take (suc n) [] id ev h = h
IsRow-take (suc n) (row ∷ rows) id ev (inl k) = inl k
IsRow-take (suc n) (row ∷ rows) id ev (inr k) = inr (IsRow-take n rows id ev k)

module _ {W : Type 0} {publish : Publish W} (carrier : Carrier publish) (table : List (ℕ × Payload))
    (admits : (id : ℕ) (ev : MessageCreated) → IsRow table id ev → carrier.Admits id ev) where
  all_admitted :
      (rows : List Outbox)
      → ((id : ℕ) (ev : MessageCreated) → IsRow (map key_of rows) id ev → IsRow table id ev)
      → AllAdmitted carrier rows
  all_admitted [] h = tt
  all_admitted (row ∷ rows) h = (
    λ ev e. admits row.id ev (h row.id ev (inl (refl, e))),
    all_admitted rows (λ id ev k. h id ev (inr k)),
  )

  -- The rows that a round reads are of the table.
  pub fetched_admitted :
      (weather : Weather) (high : ℕ) (r : Relay W)
      → InOrder r.db.tables high
      → keys r.db ≡ table
      → AllAdmitted carrier (rows_of carrier weather (fetch_outbox weather.fetch batch_size r.db).0)
  fetched_admitted weather high r h same = elim (Bool-cases (weather.fetch.fails 0)) [
    | inl broken ↦ subst (AllAdmitted carrier) (sym (none_read broken)) tt
    | inr fine ↦ subst (AllAdmitted carrier) (sym (fetched_rows carrier weather high r h fine)) (
        all_admitted (take batch_size (select is_pending r.db.tables.outbox)) (λ id ev k.
          subst (λ ks. IsRow ks id ev) same
            (IsRow-select is_pending r.db.tables.outbox id ev
              (IsRow-take batch_size (select is_pending r.db.tables.outbox) id ev k))))
  ]
    where
      none_read :
          weather.fetch.fails 0 ≡ true
          → rows_of carrier weather (fetch_outbox weather.fetch batch_size r.db).0 ≡ []
      none_read broken = unfold fetch_outbox in rw broken refl
