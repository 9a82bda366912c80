-- ===== src/Ws/Pumps/Alive.antt =====
-- A client that answers its pings is not cut off (internal/ws/client.go).
use go_chat_backend.Common.{
  ℕ, ◌+◌, ◌≤◌, ◌<◌, ◌≡◌, refl, true, false, List, [], ◌∷◌, ◌++◌, arith, leb, inl, inr, Bool-cases,
}
use go_chat_backend.Ws.Pumps.{
  default_pong_wait, default_ping_period, Read, pong, message, fails, Reader, first_reader, stopped,
  read_turn, read_pump,
}

-- The pongs to the pings that go out each period, each after its delay.
abbrev pub answers : ℕ → ℕ → List ℕ → List Read
answers period start [] = []
answers period start (delay ∷ delays) =
    pong (start + period + delay) ∷ answers period (start + period) delays

abbrev pub AllWithin : ℕ → List ℕ → Type 0
AllWithin bound [] = Unit {0}
AllWithin bound (delay ∷ delays) = (delay ≤ bound) × AllWithin bound delays

module _ (pong_wait period : ℕ) where
  answers_kept :
      (start slack : ℕ) (delays : List ℕ) (r : Reader)
      → period + slack ≤ pong_wait
      → AllWithin slack delays
      → r.is_reading ≡ true
      → start + pong_wait ≤ r.deadline
      → (read_pump pong_wait (answers period start delays) r).is_reading ≡ true
  unfolding read_pump read_turn
  answers_kept start slack [] r h w on d = on
  answers_kept start slack (delay ∷ delays) r h (w, ws) on d =
      let now = start + period + delay in
      let moved : Reader = record { deadline = now + pong_wait; is_reading = true } in
      let ih = answers_kept (start + period) slack delays moved h ws refl (omega arith) in
      let in_time : leb now r.deadline ≡ true = ground (arith, h, w, d) in rw (on, in_time) ih

-- With the default times, a socket whose client answers each ping within the tenth of a minute that is
-- left until the deadline is never cut off for its silence, however long it is open.
pub answers-is_reading :
    (start : ℕ) (delays : List ℕ)
    → AllWithin 6_000_000_000 delays
    → (read_pump default_pong_wait
        (answers default_ping_period start delays)
        (first_reader default_pong_wait start)).is_reading
      ≡ true
answers-is_reading start delays w =
    answers_kept default_pong_wait default_ping_period start 6_000_000_000 delays
      (first_reader default_pong_wait start) (omega arith) w refl (omega arith)

abbrev pub IsMessage : Read → Type 0
IsMessage (message t) = Unit {0}
IsMessage e = ⊥

abbrev pub AllMessages : List Read → Type 0
AllMessages [] = Unit {0}
AllMessages (e ∷ es) = IsMessage e × AllMessages es

stopped_stays :
    (pong_wait : ℕ) (es : List Read) (r : Reader)
    → r.is_reading ≡ false
    → (read_pump pong_wait es r).is_reading ≡ false
unfolding read_pump
stopped_stays pong_wait [] r off = off
stopped_stays pong_wait (e ∷ es) r off = ground arith

-- A client that is silent, from which only messages come at most, is cut off at the first event after
-- the deadline.
pub silence :
    (pong_wait now : ℕ) (es : List Read) (r : Reader)
    → AllMessages es
    → r.deadline < now
    → (read_pump pong_wait (es ++ message now ∷ []) r).is_reading ≡ false
unfolding read_pump read_turn
silence pong_wait now [] r h late = ground arith
silence pong_wait now (message t ∷ es) r (h, hs) late = elim (Bool-cases (leb t r.deadline)) [
  | inl in_time ↦ rw in_time (ground (arith, silence pong_wait now es r hs late))
  | inr too_late ↦
      rw too_late
        (ground (arith, stopped_stays pong_wait (es ++ message now ∷ []) (stopped r) refl))
]
silence pong_wait now (pong t ∷ es) r (h, hs) late = absurd h
silence pong_wait now (fails t ∷ es) r (h, hs) late = absurd h
