-- ===== src/Ws/Hub/Steps.antt =====
-- No panic, and the counter of open sockets is true, whatever the order of the requests
-- (internal/ws/hub.go).
use go_chat_backend.Common.{
  ℕ, ◌+◌, ◌≤◌, ◌≡◌, refl, ap, sym, subst, Bool, true, false, ◌||◌, Option, none, some, List, [],
  ◌∷◌, ◌++◌, arith, if◌then◌else◌, ◌==◌, inl, inr, Bool-cases, length, ltb, ◌&&◌, zero, suc, ◌-◌,
  ==→eq,
}
use go_chat_backend.Common.Rows.{update}
use go_chat_backend.Ws.Hub.{
  Socket, Envelope, Counters, Hub, Request, send_buffer, ◌>>=◌, new_hub, new_socket, add, remove,
  deliver, enqueue, test_done, stop, close, rest_of, deliver_next_of, is_empty, broadcast_buffer,
  deliver_next, write_one, step, run, adds, removes, writes, broadcasts, delivers, tests_done,
  closes,
}
use go_chat_backend.Ws.Hub.Loops.{
  IsSound, AllSound, place, registered, Counted, deliver_users-Counted, close_all_from-Counted,
  remove_from-Counted,
}

module _ {P : Type 0} where
  -- What holds of a hub between two requests, and that there was no panic on the way.
  abbrev pub IsTrue : Hub P → Type 0
  IsTrue h = AllSound h.sockets × (h.counters.open_count ≡ registered h.sockets)

  abbrev pub Survives : Option (Hub P) → Type 0
  Survives none = ⊥
  Survives (some h) = IsTrue h

  -- At most `n` calls of Close are between their two steps, and none after `done` is closed.
  abbrev IsApart : ℕ → Hub P → Type 0
  IsApart n h = (h.closing ≤ n) × (h.is_done ≡ true → h.closing ≡ 0)

  abbrev Goes : ℕ → Option (Hub P) → Type 0
  Goes n none = ⊥
  Goes n (some h) = IsTrue h × IsApart n h

  if-Goes :
      (n : ℕ) (b : Bool) (x y : Option (Hub P)) → Goes n x → Goes n y → Goes n (if b then x else y)
  if-Goes n true x y s t = s
  if-Goes n false x y s t = t

  finish-Goes :
      (k : ℕ) (g : List (Socket P) → Counters → Hub P) (r : Option (List (Socket P) × Counters))
      → ((ss : List (Socket P)) (n : Counters) → (g ss n).sockets ≡ ss)
      → ((ss : List (Socket P)) (n : Counters) → (g ss n).counters ≡ n)
      → ((ss : List (Socket P)) (n : Counters) → IsApart k (g ss n))
      → Counted 0 r
      → Goes k (r >>= λ r. some (g r.0 r.1))
  finish-Goes k g none a b d c = absurd c
  finish-Goes k g (some (ss, n)) a b d c = (
    (
      subst AllSound (sym (a ss n)) c.0,
      omega (arith, ap (λ (m : Counters). m.open_count) (b ss n), c.1, ap registered (a ss n)),
    ),
    d ss n,
  )

  AllSound-append :
      (ss : List (Socket P)) (s : Socket P)
      → AllSound ss
      → IsSound s
      → AllSound (ss ++ s ∷ []) × (registered (ss ++ s ∷ []) ≡ registered ss + place s)
  AllSound-append [] s h k = ((k, tt), omega arith)
  AllSound-append (x ∷ ss) s h k =
      let rest = AllSound-append ss s h.1 k in ((h.0, rest.0), omega (arith, rest.1))

  write_one-IsTrue :
      (id : ℕ) (ss : List (Socket P))
      → AllSound ss
      → AllSound (update (λ (s : Socket P). s.id == id) rest_of ss)
        × (registered (update (λ (s : Socket P). s.id == id) rest_of ss) ≡ registered ss)
  unfolding update
  write_one-IsTrue id [] h = (tt, refl)
  write_one-IsTrue id (s ∷ ss) h =
      let rest = write_one-IsTrue id ss h.1 in
      elim (Bool-cases (s.id == id)) [
        | inl hit ↦ rw hit (((h.0.0, shorter s.send h.0.1), rest.0), ap (λ k. place s + k) rest.1)
        | inr miss ↦ rw miss ((h.0, rest.0), ap (λ k. place s + k) rest.1)
      ]
    where
      shorter :
          (ps : List P)
          → length ps ≤ send_buffer
          → length (elim ps [ [] ↦ [] | p ∷ qs ↦ qs ]) ≤ send_buffer
      shorter [] k = omega arith
      shorter (p ∷ ps) k = omega arith

  deliver-Goes :
      (n : ℕ) (e : Envelope P) (h : Hub P) → IsTrue h → IsApart n h → Goes n (deliver e h)
  unfolding deliver
  deliver-Goes n e h t a =
      finish-Goes n (λ ss n. record h { sockets = ss; counters = n }) _ (λ ss n. refl)
        (λ ss n. refl) (λ ss n. a)
        (deliver_users-Counted 0 e.user_ids e.payload h.sockets h.counters t.0 (omega (arith, t.1)))

  deliver_next-Goes : (n : ℕ) (h : Hub P) → IsTrue h → IsApart n h → Goes n (deliver_next h)
  unfolding deliver_next
  deliver_next-Goes n h t a = split h.broadcast
    where
      split : (es : List (Envelope P)) → Goes n (deliver_next_of es h)
      split [] = (t, a)
      split (e ∷ es) =
          if-Goes n h.is_done _ _ (t, a) (deliver-Goes n e (record h { broadcast = es }) t a)

  add-IsTrue : (user_id : ℕ) (h : Hub P) → IsTrue h → IsTrue (add user_id h)
  unfolding add
  add-IsTrue user_id h t =
      let s = new_socket h.next_id user_id in
      let more = AllSound-append h.sockets s t.0 (refl, omega arith) in
      elim (Bool-cases h.is_done) [
        | inl over ↦ rw over t
        | inr on ↦ rw on (more.0, omega (arith, more.1, t.1))
      ]

  enqueue-IsTrue : (e : Envelope P) (h : Hub P) → IsTrue h → IsTrue (enqueue e h)
  unfolding enqueue
  enqueue-IsTrue e h t = elim (Bool-cases (is_empty e.user_ids || h.is_done)) [
    | inl over ↦ rw over t
    | inr on ↦ elim (Bool-cases (ltb (length h.broadcast) broadcast_buffer)) [
      | inl fits ↦ rw (on, fits) t
      | inr full ↦ rw (on, full) t
    ]
  ]

  if-IsApart :
      (n : ℕ) (b : Bool) (x y : Hub P) → IsApart n x → IsApart n y → IsApart n (if b then x else y)
  if-IsApart n true x y s t = s
  if-IsApart n false x y s t = t

  add-IsApart : (n user_id : ℕ) (h : Hub P) → IsApart n h → IsApart n (add user_id h)
  unfolding add
  add-IsApart n user_id h a = if-IsApart n h.is_done _ _ a a

  enqueue-IsApart : (n : ℕ) (e : Envelope P) (h : Hub P) → IsApart n h → IsApart n (enqueue e h)
  unfolding enqueue
  enqueue-IsApart n e h a =
      if-IsApart n _ _ _ a (if-IsApart n (ltb (length h.broadcast) broadcast_buffer) _ _ a a)

  -- No two calls of Close overlap; `n` tells whether one is between its steps.
  abbrev pub apart : ℕ → List (Request P) → Bool
  apart n [] = true
  apart n (tests_done ∷ rs) = n == 0 && apart 1 rs
  apart n (closes ∷ rs) = apart 0 rs
  apart n (adds user_id ∷ rs) = apart n rs
  apart n (removes id ∷ rs) = apart n rs
  apart n (writes id ∷ rs) = apart n rs
  apart n (broadcasts e ∷ rs) = apart n rs
  apart n (delivers ∷ rs) = apart n rs

  then_apart :
      (n : ℕ) (rs : List (Request P)) (o : Option (Hub P))
      → Goes n o
      → ((k : Hub P) → IsTrue k → IsApart n k → Survives (run rs k))
      → Survives (o >>= run rs)
  then_apart n rs none s f = absurd s
  then_apart n rs (some k) s f = f k s.0 s.1

  remove-Goes : (n id : ℕ) (h : Hub P) → IsTrue h → IsApart n h → Goes n (step (removes id) h)
  unfolding step remove
  remove-Goes n id h t a =
      if-Goes n h.is_done _ _ (t, a)
        (finish-Goes n (λ ss n. record h { sockets = ss; counters = n }) _ (λ ss n. refl)
          (λ ss n. refl) (λ ss n. a)
          (remove_from-Counted 0 id h.sockets h.counters t.0 (omega (arith, t.1))))

  test_done-Goes : (h : Hub P) → IsTrue h → IsApart 0 h → Goes 1 (some (test_done h))
  unfolding test_done
  test_done-Goes h t a = elim (Bool-cases h.is_done) [
    | inl over ↦ rw over (t, (omega (arith, a.0), λ e. a.1 over))
    | inr on ↦ rw on (t, (omega (arith, a.0), λ e. absurd (ground (arith, on, e))))
  ]

  close-Goes : (n : ℕ) (h : Hub P) → n ≤ 1 → IsTrue h → IsApart n h → Goes 0 (close h)
  unfolding close stop
  close-Goes n h b t a = elim (Bool-cases (h.closing == 0)) [
    | inl idle ↦ rw idle (t, (omega (arith, ==→eq h.closing 0 idle), a.1))
    | inr one ↦ elim (Bool-cases h.is_done) [
      | inl over ↦ absurd (ground (arith, one, a.1 over))
      | inr on ↦
          rw (one, on)
            (finish-Goes 0
              (λ ss n. record h {
                sockets = ss;
                counters = n;
                is_done = true;
                closing = h.closing - 1;
              })
              _ (λ ss n. refl) (λ ss n. refl)
              (λ ss n. (omega (arith, a.0, b), λ e. omega (arith, a.0, b)))
              (close_all_from-Counted 0 h.sockets h.counters t.0 (omega (arith, t.1))))
    ]
  ]

  run-Survives_from :
      (rs : List (Request P)) (n : ℕ) (h : Hub P)
      → n ≤ 1
      → apart n rs ≡ true
      → IsTrue h
      → IsApart n h
      → Survives (run rs h)
  unfolding run step write_one
  run-Survives_from [] n h b k t a = t
  run-Survives_from (adds user_id ∷ rs) n h b k t a =
      run-Survives_from rs n (add user_id h) b k (add-IsTrue user_id h t)
        (add-IsApart n user_id h a)
  run-Survives_from (writes id ∷ rs) n h b k t a =
      let kept = write_one-IsTrue id h.sockets t.0 in
      run-Survives_from rs n (write_one id h) b k (kept.0, omega (arith, kept.1, t.1)) a
  run-Survives_from (broadcasts e ∷ rs) n h b k t a =
      run-Survives_from rs n (enqueue e h) b k (enqueue-IsTrue e h t) (enqueue-IsApart n e h a)
  run-Survives_from (delivers ∷ rs) n h b k t a =
      then_apart n rs (deliver_next h) (deliver_next-Goes n h t a)
        (λ h'. run-Survives_from rs n h' b k)
  run-Survives_from (removes id ∷ rs) n h b k t a =
      then_apart n rs (step (removes id) h) (remove-Goes n id h t a)
        (λ h'. run-Survives_from rs n h' b k)
  run-Survives_from (tests_done ∷ rs) zero h b k t a =
      then_apart 1 rs (some (test_done h)) (test_done-Goes h t a)
        (λ h'. run-Survives_from rs 1 h' (omega arith) k)
  run-Survives_from (tests_done ∷ rs) (suc n) h b k t a = absurd (ground (arith, k))
  run-Survives_from (closes ∷ rs) n h b k t a =
      then_apart 0 rs (close h) (close-Goes n h b t a)
        (λ h'. run-Survives_from rs 0 h' (omega arith) k)

-- In whatever order sockets come and go, payloads are broadcast, delivered and written, slow sockets
-- are dropped and the hub is closed, once or again, as long as no two calls of Close overlap, there is
-- no send on a closed channel and no second close of one, `done` included; a channel is closed exactly
-- when its socket has left the map and never holds more than 16 payloads; and the counter of open
-- sockets counts those in the map.
pub run-Survives :
    {P : Type 0} (rs : List (Request P)) → apart 0 rs ≡ true → Survives (run rs new_hub)
run-Survives rs k =
    run-Survives_from rs 0 new_hub (omega arith) k (tt, refl) (omega arith, λ e. refl)
