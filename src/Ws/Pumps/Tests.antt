-- ===== src/Ws/Pumps/Tests.antt =====
-- The pumps of a socket on short runs (internal/ws/client.go).
use go_chat_backend.Common.{ℕ, ◌≡◌, refl, true, false, none, some, List, [], ◌∷◌, ◌++◌, arith}
use go_chat_backend.Ws.Pumps.{
  Moment, payload, ticks, expires, text, ping, close_frame, close_token_expired, started,
  write_turn, write_pump, default_pong_wait, default_ping_period, read_pump, first_reader, message,
  Reader,
}
use go_chat_backend.Ws.Pumps.Written.{texts, given, closes_last, write_pump-frames}
use go_chat_backend.Ws.Pumps.Alive.{answers, answers-is_reading, silence}

-- Two payloads, a ping between them, the expiry, and a payload that comes too late.
abbrev moments : List (Moment ℕ)
moments =
    record { turn = payload 7; now = 1; is_written = true }
    ∷ record { turn = ticks; now = 2; is_written = true }
    ∷ record { turn = payload 8; now = 3; is_written = true }
    ∷ record { turn = expires; now = 5; is_written = true }
    ∷ record { turn = payload 9; now = 6; is_written = true }
    ∷ []

write_pump-frames_example :
    ((rest : List ℕ) × (texts (write_pump (some 5) moments started).frames ++ rest ≡ given moments))
    × (closes_last (write_pump (some 5) moments started).frames ≡ true)
write_pump-frames_example = write_pump-frames (some 5) moments

sent_frames :
    (write_pump (some 5) moments started).frames
    ≡ text 7 ∷ ping ∷ text 8 ∷ close_frame close_token_expired ∷ []
unfolding write_pump write_turn
sent_frames = refl

-- Without an expiry the timer never fires.
no_expiry : texts (write_pump none moments started).frames ≡ 7 ∷ 8 ∷ 9 ∷ []
unfolding write_pump write_turn
no_expiry = refl

answers-is_reading_example :
    (read_pump default_pong_wait
      (answers default_ping_period 0 (20 ∷ 6_000_000_000 ∷ []))
      (first_reader default_pong_wait 0)).is_reading
    ≡ true
answers-is_reading_example =
    answers-is_reading 0 (20 ∷ 6_000_000_000 ∷ []) (omega arith, (omega arith, tt))

-- A message does not stand in for a pong.
abbrev talking : Reader
talking = first_reader default_pong_wait 0

cut_off :
    (read_pump default_pong_wait (message 5 ∷ message 60_000_000_001 ∷ []) talking).is_reading
    ≡ false
cut_off = silence default_pong_wait 60_000_000_001 (message 5 ∷ []) talking (tt, tt) (omega arith)
