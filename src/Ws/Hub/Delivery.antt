-- ===== src/Ws/Hub/Delivery.antt =====
-- Who gets a payload, and who is dropped (internal/ws/hub.go).
use go_chat_backend.Common.{
  ℕ, ◌+◌, ◌-◌, ◌≡◌, refl, ap, ◌∙◌, Bool, false, ◌&&◌, Option, some, List, [], ◌∷◌, ◌++◌, map, arith,
  if◌then◌else◌, ◌==◌, inl, inr, Bool-cases, length, ltb,
}
use go_chat_backend.Ws.Hub.{
  Socket, Counters, send_buffer, ◌>>=◌, closed_socket, offer, deliver_user,
}
use go_chat_backend.Ws.Hub.Loops.{IsSound, AllSound}

module _ {P : Type 0} where
  -- In the map, under this user.
  abbrev pub listens : ℕ → Socket P → Bool
  listens u s = s.user_id == u && s.is_registered

  abbrev pub has_room : Socket P → Bool
  has_room s = ltb (length s.send) send_buffer

  -- The payload goes to the end of the buffer of a socket with room; without room the socket is
  -- closed and leaves the map; another user's socket, or one that has left, stays as it is.
  abbrev pub offered : ℕ → P → Socket P → Socket P
  offered u p s =
      if listens u s
      then if has_room s then record s { send = s.send ++ p ∷ [] } else closed_socket s
      else s

  abbrev pub counted_offer : ℕ → Socket P → Counters → Counters
  counted_offer u s n =
      if listens u s
      then if has_room s
        then record n { sent = n.sent + 1 }
        else record n { dropped = n.dropped + 1; open_count = n.open_count - 1 }
      else n

  unfoldable pub counted_offers : ℕ → List (Socket P) → Counters → Counters
  counted_offers u [] n = n
  counted_offers u (s ∷ ss) n = counted_offers u ss (counted_offer u s n)

  offer-offered :
      (u : ℕ) (p : P) (s : Socket P) (n : Counters)
      → IsSound s
      → ◌≡◌ {A = Option (Socket P × Counters)}
          (if listens u s then offer p s n else some (s, n))
          (some (offered u p s, counted_offer u s n))
  unfolding offer
  offer-offered u p s n h = elim (Bool-cases (listens u s)) [
    | inr other ↦ simp other refl
    | inl mine ↦
        let live : s.is_closed ≡ false = ground (arith, h.0, mine) in
        elim (Bool-cases (has_room s)) [
          | inl fits ↦ rw (mine, live, fits) refl
          | inr full ↦ rw (mine, live, full) refl
        ]
  ]

  offered-bind :
      (u : ℕ) (p : P) (s : Socket P) (ss : List (Socket P)) (n m : Counters)
      (first : Option (Socket P × Counters))
      → first ≡ some (offered u p s, m)
      → deliver_user u p ss m ≡ some (map (offered u p) ss, n)
      → ◌≡◌ {A = Option (List (Socket P) × Counters)}
          (first >>= λ a. deliver_user u p ss a.1 >>= λ r. some (a.0 ∷ r.0, r.1))
          (some (map (offered u p) (s ∷ ss), n))
  offered-bind u p s ss n m first e f =
      ap
        (λ (o : Option (Socket P × Counters)).
          o >>= λ a. deliver_user u p ss a.1 >>= λ r. some (a.0 ∷ r.0, r.1))
        e
      ∙ ap (λ (o : Option (List (Socket P) × Counters)). o >>= λ r. some (offered u p s ∷ r.0, r.1))
          f

-- The loop of one user over the sockets of the hub: each socket of the user that has room gets the
-- payload once, at the end of its buffer, each full one is closed and leaves the map, all others are
-- untouched, and the counters say how many of each there were.
pub deliver_user-offered :
    {P : Type 0} (u : ℕ) (p : P) (ss : List (Socket P)) (n : Counters)
    → AllSound ss
    → deliver_user u p ss n ≡ some (map (offered u p) ss, counted_offers u ss n)
unfolding deliver_user counted_offers
deliver_user-offered u p [] n h = refl
deliver_user-offered u p (s ∷ ss) n h =
    offered-bind u p s ss (counted_offers u ss (counted_offer u s n)) (counted_offer u s n) _
      (offer-offered u p s n h.0) (deliver_user-offered u p ss (counted_offer u s n) h.1)
