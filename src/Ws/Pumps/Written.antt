-- ===== src/Ws/Pumps/Written.antt =====
-- What a socket's client is sent (writePump of internal/ws/client.go).
use go_chat_backend.Common.{
  ℕ, ◌+◌, ◌≡◌, refl, ap, ◌∙◌, Bool, true, false, not, ◌&&◌, ◌||◌, Option, List, [], ◌∷◌, ◌++◌,
  arith, inl, inr, Bool-cases, append_assoc, append-nil,
}
use go_chat_backend.Ws.Pumps.{
  Frame, text, ping, close_frame, Turn, payload, channel_closed, ticks, expires, Moment, Pump,
  is_due, started, written, ended, write_turn, write_pump, close_token_expired, close_going_away,
}

module _ {P : Type 0} where
  -- The payloads among the frames, and those that the channel gave.
  abbrev pub texts : List (Frame P) → List P
  texts [] = []
  texts (text x ∷ fs) = x ∷ texts fs
  texts (ping ∷ fs) = texts fs
  texts (close_frame code ∷ fs) = texts fs

  abbrev pub given : List (Moment P) → List P
  given [] = []
  given (m ∷ ms) = elim m.turn [
    | payload x ↦ x ∷ given ms
    | channel_closed ↦ given ms
    | ticks ↦ given ms
    | expires ↦ given ms
  ]

  abbrev pub is_close : Frame P → Bool
  is_close (text x) = false
  is_close ping = false
  is_close (close_frame code) = true

  abbrev pub has_close : List (Frame P) → Bool
  has_close [] = false
  has_close (f ∷ fs) = is_close f || has_close fs

  texts-append : (fs gs : List (Frame P)) → texts (fs ++ gs) ≡ texts fs ++ texts gs
  texts-append [] gs = refl
  texts-append (text x ∷ fs) gs = ap (λ l. x ∷ l) (texts-append fs gs)
  texts-append (ping ∷ fs) gs = texts-append fs gs
  texts-append (close_frame code ∷ fs) gs = texts-append fs gs

  texts-other :
      (fs : List (Frame P)) (f : Frame P) → texts (f ∷ []) ≡ [] → texts (fs ++ f ∷ []) ≡ texts fs
  texts-other fs f e = texts-append fs (f ∷ []) ∙ ap (λ l. texts fs ++ l) e ∙ append-nil (texts fs)

  write_pump-stopped :
      (expires_at : Option ℕ) (ms : List (Moment P)) (p : Pump P)
      → p.is_running ≡ false
      → write_pump expires_at ms p ≡ p
  unfolding write_pump
  write_pump-stopped expires_at [] p off = refl
  write_pump-stopped expires_at (m ∷ ms) p off = simp (off)

  -- The texts of a pump are the first of some payloads.
  Sends : Pump P → List P → Type 0
  Sends q offered = (rest : List P) × (texts q.frames ++ rest ≡ offered)

  module _ (expires_at : Option ℕ) (ms : List (Moment P)) where
    -- A pump that has ended with no further text.
    Sends-ended :
        (p q : Pump P) (more : List P)
        → q.is_running ≡ false
        → texts q.frames ≡ texts p.frames
        → Sends (write_pump expires_at ms q) (texts p.frames ++ more)
    unfolding Sends
    Sends-ended p q more off same = (
      more,
      ap (λ x. texts x.frames ++ more) (write_pump-stopped expires_at ms q off)
          ∙ ap (λ l. l ++ more) same,
    )

    turn-Sends :
        (turn : Turn P) (now : ℕ) (is_written : Bool) (p : Pump P)
        → ((q : Pump P) → Sends (write_pump expires_at ms q) (texts q.frames ++ given ms))
        → Sends
            (write_pump expires_at ms (
              write_turn expires_at (record { turn = turn; now = now; is_written = is_written }) p))
            (texts p.frames
              ++ given (record { turn = turn; now = now; is_written = is_written } ∷ ms))
    unfolding Sends write_turn
    turn-Sends (payload x) now true p ih =
        let (rest, e) = ih (record p { frames = p.frames ++ text x ∷ [] }) in
        (
          rest,
          e
              ∙ ap (λ l. l ++ given ms) (texts-append p.frames (text x ∷ []))
              ∙ append_assoc (texts p.frames) (x ∷ []) (given ms),
        )
    turn-Sends (payload x) now false p ih = Sends-ended p (ended p) (x ∷ given ms) refl refl
    turn-Sends ticks now true p ih =
        let (rest, e) = ih (record p { frames = p.frames ++ ping ∷ [] }) in
        (rest, e ∙ ap (λ l. l ++ given ms) (texts-other p.frames ping refl))
    turn-Sends ticks now false p ih = Sends-ended p (ended p) (given ms) refl refl
    turn-Sends channel_closed now true p ih =
        Sends-ended p _ (given ms) refl (texts-other p.frames (close_frame close_going_away) refl)
    turn-Sends channel_closed now false p ih = Sends-ended p _ (given ms) refl refl
    turn-Sends expires now is_written p ih = elim (Bool-cases (is_due expires_at now)) [
      | inl due ↦ rw due (expiry is_written)
      | inr early ↦ rw early (ih p)
    ]
      where
        counted : Pump P
        counted = record p { expired = p.expired + 1 }

        expiry :
            (b : Bool)
            → Sends
                (write_pump expires_at ms
                  (ended (written (close_frame close_token_expired) b counted)))
                (texts p.frames ++ given ms)
        expiry true =
            Sends-ended p _ (given ms) refl
              (texts-other p.frames (close_frame close_token_expired) refl)
        expiry false = Sends-ended p _ (given ms) refl refl

  pump-Sends :
      (expires_at : Option ℕ) (ms : List (Moment P)) (p : Pump P)
      → Sends (write_pump expires_at ms p) (texts p.frames ++ given ms)
  unfolding Sends write_pump
  pump-Sends expires_at [] p = ([], refl)
  pump-Sends expires_at (m ∷ ms) p = elim (Bool-cases p.is_running) [
    | inl on ↦
        simp (on)
          (turn-Sends expires_at ms m.turn m.now m.is_written p (λ q. pump-Sends expires_at ms q))
    | inr off ↦ simp (off) (given (m ∷ ms), refl)
  ]

  -- Nothing follows a close frame.
  abbrev pub closes_last : List (Frame P) → Bool
  closes_last [] = true
  closes_last (f ∷ []) = true
  closes_last (f ∷ g ∷ fs) = not (is_close f) && closes_last (g ∷ fs)

  has_close-append :
      (fs : List (Frame P)) (f : Frame P) → has_close (fs ++ f ∷ []) ≡ (has_close fs || is_close f)
  has_close-append [] f = ground arith
  has_close-append (g ∷ fs) f = ground (arith, has_close-append fs f)

  closes_last-append :
      (fs : List (Frame P)) (f : Frame P) → has_close fs ≡ false → closes_last (fs ++ f ∷ []) ≡ true
  closes_last-append [] f h = refl
  closes_last-append (g ∷ []) f h = ground arith
  closes_last-append (g ∷ g' ∷ fs) f h = ground (arith, closes_last-append (g' ∷ fs) f)

  -- A pump that goes on has written no close frame, and one that has ended nothing after it.
  record IsTidy (p : Pump P) : Type 0 where
    going : p.is_running ≡ true → has_close p.frames ≡ false
    last : closes_last p.frames ≡ true

  -- A turn of a pump that has written no close frame.
  turn-IsTidy :
      (expires_at : Option ℕ) (turn : Turn P) (now : ℕ) (is_written : Bool) (p : Pump P)
      → has_close p.frames ≡ false
      → IsTidy p
      → IsTidy
          (write_turn expires_at (record { turn = turn; now = now; is_written = is_written }) p)
  unfolding write_turn
  turn-IsTidy expires_at (payload x) now true p h t = record {
    going = λ on. has_close-append p.frames (text x) ∙ ground arith;
    last = closes_last-append p.frames (text x) h;
  }
  turn-IsTidy expires_at (payload x) now false p h t = record { going = λ on. h; last = t.last }
  turn-IsTidy expires_at ticks now true p h t = record {
    going = λ on. has_close-append p.frames ping ∙ ground arith;
    last = closes_last-append p.frames ping h;
  }
  turn-IsTidy expires_at ticks now false p h t = record { going = λ on. h; last = t.last }
  turn-IsTidy expires_at channel_closed now true p h t = record {
    going = λ on. absurd (cc);
    last = closes_last-append p.frames (close_frame close_going_away) h;
  }
  turn-IsTidy expires_at channel_closed now false p h t = record { going = λ on. h; last = t.last }
  turn-IsTidy expires_at expires now is_written p h t = elim (Bool-cases (is_due expires_at now)) [
    | inl due ↦ rw due (expiry is_written)
    | inr early ↦ rw early t
  ]
    where
      counted : Pump P
      counted = record p { expired = p.expired + 1 }

      expiry : (b : Bool) → IsTidy (ended (written (close_frame close_token_expired) b counted))
      expiry true = record {
        going = λ on. absurd (cc);
        last = closes_last-append p.frames (close_frame close_token_expired) h;
      }
      expiry false = record { going = λ on. h; last = t.last }

  pump-IsTidy :
      (expires_at : Option ℕ) (ms : List (Moment P)) (p : Pump P)
      → IsTidy p
      → IsTidy (write_pump expires_at ms p)
  unfolding write_pump
  pump-IsTidy expires_at [] p t = t
  pump-IsTidy expires_at (m ∷ ms) p t = elim (Bool-cases p.is_running) [
    | inl on ↦ simp (on) (
        pump-IsTidy expires_at ms (write_turn expires_at m p)
          (turn-IsTidy expires_at m.turn m.now m.is_written p (t.going on) t))
    | inr off ↦ simp (off) t
  ]

-- Whatever the select of a socket's write pump takes, and whatever writes fail: the client is sent the
-- first of the payloads that the hub queued for it, in their order and without a gap, and nothing
-- follows a close frame.
pub write_pump-frames :
    {P : Type 0} (expires_at : Option ℕ) (ms : List (Moment P))
    → ((rest : List P) × (texts (write_pump expires_at ms started).frames ++ rest ≡ given ms))
      × (closes_last (write_pump expires_at ms started).frames ≡ true)
unfolding Sends
write_pump-frames expires_at ms = (
  pump-Sends expires_at ms started,
  (pump-IsTidy expires_at ms started (record { going = λ on. refl; last = refl })).last,
)
