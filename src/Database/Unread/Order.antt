-- ===== src/Database/Unread/Order.antt =====
-- The order of the deliveries does not matter (ApplyUnread of internal/database/unread.go).
use mathlib.Core.Path.{fun_ext}
use mathlib.Core.Logic.{∥∥₁_elim}
use mathlib.Core.List.{Perm, Permᴰ}
use native.Mathlib.Nat.{ℕ_set}
use go_chat_backend.Common.{
  ℕ, ◌+◌, ◌≡◌, refl, ap, ap₂, sym, ◌∙◌, Bool, ◌||◌, List, ◌∷◌, arith, ◌==◌, ==→eq,
}
use go_chat_backend.Database.{Tables, Db}
use go_chat_backend.Database.Unread.{has_claim}
use go_chat_backend.Database.Unread.Once.{count_in}
use go_chat_backend.Database.Unread.Redelivery.{
  Delivery, deliver_all, unread_total, unread-deliver_all,
}

either_first : (m n k : ℕ) (b : Bool) → (m == k || (n == k || b)) ≡ (n == k || (m == k || b))
either_first m n k b = ground arith

module _ (room_of sender_of seq_of : ℕ → ℕ) (t : Tables) (c u : ℕ) where
  total : (ℕ → Bool) → List Delivery → ℕ
  total = unread_total room_of sender_of seq_of t c u

  -- Two deliveries next to one another may change places.
  total-swap :
      (d e : Delivery) (seen : ℕ → Bool) (ds : List Delivery)
      → total seen (d ∷ e ∷ ds) ≡ total seen (e ∷ d ∷ ds)
  unfolding total unread_total
  total-swap d e seen ds =
      let m = d.message_id in
      let n = e.message_id in
      let both : ◌≡◌ {A = ℕ → Bool} (λ k. n == k || (m == k || seen k))
          (λ k. m == k || (n == k || seen k)) =
        fun_ext (λ k. either_first n m k (seen k)) in
      ground (arith, ap (λ f. unread_total room_of sender_of seq_of t c u f ds) both, ==→eq m n)

  total-cons :
      (d : Delivery) (seen : ℕ → Bool) (ds es : List Delivery)
      → ((f : ℕ → Bool) → total f ds ≡ total f es)
      → total seen (d ∷ ds) ≡ total seen (d ∷ es)
  unfolding total unread_total
  total-cons d seen ds es h = ground (arith, h seen, h (λ k. d.message_id == k || seen k))

  total-permᴰ :
      {ds es : List Delivery} → Permᴰ ds es → (seen : ℕ → Bool) → total seen ds ≡ total seen es
  total-permᴰ Permᴰ.nil seen = refl
  total-permᴰ (Permᴰ.cons {a} {b} {l₁} {l₂} e p) seen =
      total-cons a seen l₁ l₂ (λ f. total-permᴰ p f) ∙ ap (λ x. total seen (x ∷ l₂)) e
  total-permᴰ (Permᴰ.swap {a} {b} {a'} {b'} {l} e f) seen =
      total-swap a b seen l ∙ ap₂ (λ (x y : Delivery). total seen (x ∷ y ∷ l)) f e
  total-permᴰ (Permᴰ.trans p q) seen = total-permᴰ p seen ∙ total-permᴰ q seen

-- Deliveries that come in another order, whatever their repeats and failures, leave every user's
-- counter in every room at the same value.
pub unread-perm :
    (room_of sender_of seq_of : ℕ → ℕ) (c u : ℕ) (ds es : List Delivery) (db : Db)
    → Perm ds es
    → count_in c u (deliver_all room_of sender_of seq_of ds db).tables.unread_counters
      ≡ count_in c u (deliver_all room_of sender_of seq_of es db).tables.unread_counters
unread-perm room_of sender_of seq_of c u ds es db p =
    unread-deliver_all room_of sender_of seq_of c u ds db
    ∙ ap (λ (n : ℕ). count_in c u db.tables.unread_counters + n) same_total
    ∙ sym (unread-deliver_all room_of sender_of seq_of c u es db)
  where
    same_total :
        unread_total room_of sender_of seq_of db.tables c u (λ k. has_claim k db.tables) ds
        ≡ unread_total room_of sender_of seq_of db.tables c u (λ k. has_claim k db.tables) es
    same_total = ∥∥₁_elim p (ℕ_set _ _) λ q.
        unfold total in
        total-permᴰ room_of sender_of seq_of db.tables c u q (λ k. has_claim k db.tables)
