-- ===== src/Database/Messages/Gap.antt =====
-- The gap read, and the catching up of a client that was away (ListMessagesAfterSeq of
-- internal/database/conversations.go).
use go_chat_backend.Common.{
  ℕ, zero, suc, ◌-◌, ◌≡◌, refl, ap, sym, ◌∙◌, Bool, false, ◌&&◌, List, [], ◌∷◌, map, arith, ltb,
  inl, inr, Bool-cases, take, drop, drop-nil, range_from,
}
use go_chat_backend.Common.Rows.{select, Rising, Rising-lower, order_by-Rising}
use go_chat_backend.Database.{Message, Db, Env, ok}
use go_chat_backend.Database.Messages.{in_room, list_messages_after_seq}
use go_chat_backend.Database.Messages.Gapless.{IsGapless, last_seq_at, room_messages, seq_of}

abbrev after : ℕ → Message → Bool
after k m = ltb k m.seq

-- Two conditions of a query are one after the other.
select-and :
    (p q : Message → Bool) (ms : List Message)
    → select (λ m. p m && q m) ms ≡ select q (select p ms)
unfolding select
select-and p q [] = refl
select-and p q (m ∷ ms) = ground (arith, select-and p q ms)

-- Of rows numbered from `start`, those after `k` are the rows behind the first `k + 1 - start`.
select-after :
    (k start n : ℕ) (ms : List Message)
    → map seq_of ms ≡ range_from start n
    → select (after k) ms ≡ drop (suc k - start) ms
unfolding select
select-after k start n [] h = sym (drop-nil (suc k - start))
select-after k start zero (m ∷ ms) h = cc
select-after k start (suc n) (m ∷ ms) h =
    let e : m.seq ≡ start = cc in
    let rest : map seq_of ms ≡ range_from (suc start) n = cc in
    let ih = select-after k (suc start) n ms rest in
    elim (Bool-cases (ltb k m.seq)) [
      | inl new ↦
          let here : suc k - start ≡ 0 = ground arith in
          let next : suc k - suc start ≡ 0 = omega (arith, here) in
          rw (new, here) (ap (λ xs. m ∷ xs) (ih ∙ ap (λ j. drop j ms) next))
      | inr old ↦
          let here : suc k - start ≡ suc (suc k - suc start) = ground arith in rw (old, here) ih
    ]

numbered-Rising :
    (start n : ℕ) (ms : List Message) → map seq_of ms ≡ range_from start n → Rising seq_of start ms
numbered-Rising start n [] h = tt
numbered-Rising start zero (m ∷ ms) h = cc
numbered-Rising start (suc n) (m ∷ ms) h =
    let e : m.seq ≡ start = cc in
    let rest : map seq_of ms ≡ range_from (suc start) n = cc in
    (
      omega (arith, e),
      Rising-lower seq_of (suc start) m.seq ms (omega (arith, e))
          (numbered-Rising (suc start) n ms rest),
    )

Rising-drop {ℓ} :
    {A : Type ℓ} (key : A → ℕ) (k low : ℕ) (xs : List A)
    → Rising key low xs
    → Rising key low (drop k xs)
Rising-drop key zero low xs r = r
Rising-drop key (suc k) low [] r = r
Rising-drop key (suc k) low (x ∷ xs) r =
    Rising-lower key (key x) low _ r.0 (Rising-drop key k (key x) xs r.1)

-- The gap read of a room: the messages behind the first `after_seq`, in the order in which they were
-- sent, at most `limit` of them; and nothing else is read or changed.
pub list_messages_after_seq-drop :
    (env : Env) (n after_seq limit ids : ℕ) (db : Db)
    → env.fails 0 ≡ false
    → IsGapless db.tables ids
    → list_messages_after_seq env n after_seq limit db
      ≡ (ok (take limit (drop after_seq (room_messages n db.tables))), db)
unfolding list_messages_after_seq room_messages
list_messages_after_seq-drop env n after_seq limit ids db g h =
    let ms = select (in_room n) db.tables.messages in
    let numbers : map seq_of ms ≡ range_from 1 (last_seq_at n db.tables) =
      unfold room_messages in h.seqs n in
    let rows =
      select-and (in_room n) (after after_seq) db.tables.messages
      ∙ select-after after_seq 1 (last_seq_at n db.tables) ms numbers in
    let rising =
      Rising-drop seq_of after_seq 1 ms (numbered-Rising 1 (last_seq_at n db.tables) ms numbers) in
    let here : suc after_seq - 1 ≡ after_seq = omega arith in
    rw (g, rows, here)
      (ap (λ xs. (ok (take limit xs), db)) (order_by-Rising seq_of 1 (drop after_seq ms) rising))
