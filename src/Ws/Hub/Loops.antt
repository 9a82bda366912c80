-- ===== src/Ws/Hub/Loops.antt =====
-- The loops over the sockets: no panic, and the counter of open sockets (internal/ws/hub.go).
use go_chat_backend.Common.{
  ℕ, ◌+◌, ◌≤◌, ◌≡◌, refl, true, false, not, ◌&&◌, Option, none, some, List, [], ◌∷◌, arith,
  if◌then◌else◌, ◌==◌, inl, inr, Bool-cases, length, length-append, ltb,
}
use go_chat_backend.Ws.Hub.{
  Socket, Counters, send_buffer, ◌>>=◌, remove_from, offer, deliver_user, deliver_users,
  close_all_from, shut_one,
}

module _ {P : Type 0} where
  -- A socket's channel is closed exactly when it has left the map, and holds at most a buffer.
  abbrev pub IsSound : Socket P → Type 0
  IsSound s = (s.is_closed ≡ not s.is_registered) × (length s.send ≤ send_buffer)

  abbrev pub AllSound : List (Socket P) → Type 0
  AllSound [] = Unit {0}
  AllSound (s ∷ ss) = IsSound s × AllSound ss

  abbrev pub place : Socket P → ℕ
  place s = if s.is_registered then 1 else 0

  -- How many sockets are in the map.
  abbrev pub registered : List (Socket P) → ℕ
  registered [] = 0
  registered (s ∷ ss) = place s + registered ss

  -- A result of a loop over sockets: there is one, and `k` sockets beside those of the list are open.
  abbrev pub Counted : ℕ → Option (List (Socket P) × Counters) → Type 0
  Counted k none = ⊥
  Counted k (some (ss, n)) = AllSound ss × (n.open_count ≡ k + registered ss)

  abbrev One : ℕ → Option (Socket P × Counters) → Type 0
  One k none = ⊥
  One k (some (s, n)) = IsSound s × (n.open_count ≡ k + place s)

  cons-Counted :
      (k : ℕ) (s : Socket P) (r : Option (List (Socket P) × Counters))
      → IsSound s
      → Counted (k + place s) r
      → Counted k (r >>= λ r. some (s ∷ r.0, r.1))
  cons-Counted k s none h c = absurd c
  cons-Counted k s (some (ss, n)) h c = ((h, c.0), omega (arith, c.1))

  loop-Counted :
      (k m : ℕ) (f : Counters → Option (List (Socket P) × Counters))
      (first : Option (Socket P × Counters))
      → One (k + m) first
      → ((s : Socket P) (n : Counters)
          → n.open_count ≡ (k + place s) + m
          → Counted (k + place s) (f n))
      → Counted k (first >>= λ a. f a.1 >>= λ r. some (a.0 ∷ r.0, r.1))
  loop-Counted k m f none one rest = absurd one
  loop-Counted k m f (some (s, n)) one rest =
      cons-Counted k s (f n) one.0 (rest s n (omega (arith, one.1)))

  offer-One :
      (k : ℕ) (p : P) (s : Socket P) (n : Counters)
      → IsSound s
      → s.is_registered ≡ true
      → n.open_count ≡ k + 1
      → One k (offer p s n)
  unfolding offer
  offer-One k p s n h r e =
      let live : s.is_closed ≡ false = ground (arith, h.0, r) in
      elim (Bool-cases (ltb (length s.send) send_buffer)) [
        | inl fits ↦
            rw (live, fits)
              ((ground (arith, r), ground (arith, length-append s.send (p ∷ []))), rw r e)
        | inr full ↦ rw (live, full) ((refl, h.1), omega arith)
      ]

  deliver_user-Counted :
      (k u : ℕ) (p : P) (ss : List (Socket P)) (n : Counters)
      → AllSound ss
      → n.open_count ≡ k + registered ss
      → Counted k (deliver_user u p ss n)
  unfolding deliver_user
  deliver_user-Counted k u p [] n h e = (tt, e)
  deliver_user-Counted k u p (s ∷ ss) n h e =
      loop-Counted k (registered ss) (deliver_user u p ss) _ first
        (λ s' n' e'. deliver_user-Counted (k + place s') u p ss n' h.1 e')
    where
      first :
          One
            (k + registered ss)
            (if s.user_id == u && s.is_registered then offer p s n else some (s, n))
      first = elim (Bool-cases (s.user_id == u && s.is_registered)) [
        | inl hit ↦
            let r : s.is_registered ≡ true = ground (arith, hit) in
            let one : place s ≡ 1 = rw r refl in
            rw hit (offer-One (k + registered ss) p s n h.0 r (omega arith))
        | inr miss ↦ rw miss (h.0, omega arith)
      ]

  bind-Counted :
      (k : ℕ) (r : Option (List (Socket P) × Counters))
      (f : List (Socket P) × Counters → Option (List (Socket P) × Counters))
      → Counted k r
      → ((ss : List (Socket P)) (n : Counters)
          → AllSound ss
          → n.open_count ≡ k + registered ss
          → Counted k (f (ss, n)))
      → Counted k (r >>= f)
  bind-Counted k none f c g = absurd c
  bind-Counted k (some (ss, n)) f c g = g ss n c.0 c.1

  pub deliver_users-Counted :
      (k : ℕ) (us : List ℕ) (p : P) (ss : List (Socket P)) (n : Counters)
      → AllSound ss
      → n.open_count ≡ k + registered ss
      → Counted k (deliver_users us p ss n)
  unfolding deliver_users
  deliver_users-Counted k [] p ss n h e = (h, e)
  deliver_users-Counted k (u ∷ us) p ss n h e =
      bind-Counted k (deliver_user u p ss n) (λ r. deliver_users us p r.0 r.1)
        (deliver_user-Counted k u p ss n h e) (deliver_users-Counted k us p)

  shut_one-One :
      (k : ℕ) (s : Socket P) (n : Counters)
      → IsSound s
      → n.open_count ≡ k + place s
      → One k (shut_one s n)
  unfolding shut_one
  shut_one-One k s n h e = elim (Bool-cases s.is_registered) [
    | inl r ↦
        let live : s.is_closed ≡ false = ground (arith, h.0, r) in
        let one : place s ≡ 1 = rw r refl in rw (r, live) ((refl, h.1), omega arith)
    | inr r ↦
        let shut : s.is_closed ≡ true = ground (arith, h.0, r) in
        let zero_ : place s ≡ 0 = rw r refl in rw r ((shut, h.1), omega arith)
  ]

  pub close_all_from-Counted :
      (k : ℕ) (ss : List (Socket P)) (n : Counters)
      → AllSound ss
      → n.open_count ≡ k + registered ss
      → Counted k (close_all_from ss n)
  unfolding close_all_from
  close_all_from-Counted k [] n h e = (tt, e)
  close_all_from-Counted k (s ∷ ss) n h e =
      loop-Counted k (registered ss) (close_all_from ss) (shut_one s n)
        (shut_one-One (k + registered ss) s n h.0 (omega arith))
        (λ s' n' e'. close_all_from-Counted (k + place s') ss n' h.1 e')

  pub remove_from-Counted :
      (k id : ℕ) (ss : List (Socket P)) (n : Counters)
      → AllSound ss
      → n.open_count ≡ k + registered ss
      → Counted k (remove_from id ss n)
  unfolding remove_from
  remove_from-Counted k id [] n h e = (tt, e)
  remove_from-Counted k id (s ∷ ss) n h e =
      let ih = remove_from-Counted (k + place s) id ss n h.1 (omega arith) in
      elim (Bool-cases (s.id == id && s.is_registered)) [
        | inl hit ↦
            let r : s.is_registered ≡ true = ground (arith, hit) in
            let live : s.is_closed ≡ false = ground (arith, h.0.0, r) in
            let one : place s ≡ 1 = rw r refl in rw (hit, live) (((refl, h.0.1), h.1), omega arith)
        | inr miss ↦ rw miss (cons-Counted k s (remove_from id ss n) h.0 ih)
      ]
