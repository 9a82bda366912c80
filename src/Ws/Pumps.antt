-- ===== src/Ws/Pumps.antt =====
-- The two goroutines of a socket (readPump, writePump and expiryTimer of internal/ws/client.go). What
-- the select of the write pump takes at each turn, and what the network does to a write, is given.
pub mod Written
pub mod Alive
mod Tests
use go_chat_backend.Common.{
  ℕ, ◌+◌, ◌*◌, ◌/◌, Bool, true, false, ◌&&◌, Option, none, some, List, [], ◌∷◌, ◌++◌, leb,
  if◌then◌else◌,
}

-- In nanoseconds.
abbrev pub default_write_wait : ℕ
default_write_wait = 10 * 1_000_000_000

abbrev pub default_pong_wait : ℕ
default_pong_wait = 60 * 1_000_000_000

abbrev pub default_ping_period : ℕ
default_ping_period = default_pong_wait * 9 / 10

abbrev pub close_token_expired : ℕ
close_token_expired = 4401

-- websocket.CloseGoingAway
abbrev pub close_going_away : ℕ
close_going_away = 1001

pub data Frame (P : Type 0) : Type 0 where
  text : P → Frame P
  ping : Frame P
  close_frame : ℕ → Frame P

-- What a turn of the write pump takes: from the channel of the socket a payload, or that the hub has
-- closed it; a tick of the pings; or the expiry.
pub data Turn (P : Type 0) : Type 0 where
  payload : P → Turn P
  channel_closed ticks expires : Turn P

-- A turn, when it is, and whether its write succeeds.
pub record Moment (P : Type 0) : Type 0 where
  pub turn : Turn P
  pub now : ℕ
  pub is_written : Bool

-- The socket as the write pump leaves it: what it has written, and whether the pump goes on.
pub record Pump (P : Type 0) : Type 0 where
  pub frames : List (Frame P)
  pub is_running : Bool
  pub expired : ℕ

-- The timer of expiryTimer can fire; without an expiry it never does.
abbrev pub is_due : Option ℕ → ℕ → Bool
is_due none now = false
is_due (some t) now = leb t now

module _ {P : Type 0} where
  abbrev pub started : Pump P
  started = record { frames = []; is_running = true; expired = 0 }

  abbrev pub written : Frame P → Bool → Pump P → Pump P
  written f true p = record p { frames = p.frames ++ f ∷ [] }
  written f false p = p

  abbrev pub ended : Pump P → Pump P
  ended p = record p { is_running = false }

  -- A write that fails ends the pump.
  abbrev pub write_or_end : Frame P → Bool → Pump P → Pump P
  write_or_end f true p = written f true p
  write_or_end f false p = ended p

  -- An expiry that is not due does not come.
  unfoldable pub write_turn : Option ℕ → Moment P → Pump P → Pump P
  write_turn expires_at m p = elim m.turn [
    | payload x ↦ write_or_end (text x) m.is_written p
    | channel_closed ↦ ended (written (close_frame close_going_away) m.is_written p)
    | ticks ↦ write_or_end ping m.is_written p
    | expires ↦
        if is_due expires_at m.now
        then ended (
            written (close_frame close_token_expired) m.is_written
              (record p { expired = p.expired + 1 }))
        else p
  ]

  -- The loop; its deferred calls end the connection.
  unfoldable pub write_pump : Option ℕ → List (Moment P) → Pump P → Pump P
  write_pump expires_at [] p = p
  write_pump expires_at (m ∷ ms) p =
      let rest = write_pump expires_at ms (write_turn expires_at m p) in
      if p.is_running then rest else p

-- What the read pump meets: a pong, a message that it throws away, or that the connection ends.
pub data Read : Type 0 where
  pong message fails : ℕ → Read

-- Its deadline, and whether it still reads.
pub record Reader : Type 0 where
  pub deadline : ℕ
  pub is_reading : Bool

abbrev pub first_reader : ℕ → ℕ → Reader
first_reader pong_wait now = record { deadline = now + pong_wait; is_reading = true }

abbrev pub stopped : Reader → Reader
stopped r = record r { is_reading = false }

unfoldable pub read_turn : ℕ → Read → Reader → Reader
read_turn pong_wait (pong now) r =
    if leb now r.deadline then record r { deadline = now + pong_wait } else stopped r
read_turn pong_wait (message now) r = if leb now r.deadline then r else stopped r
read_turn pong_wait (fails now) r = stopped r

unfoldable pub read_pump : ℕ → List Read → Reader → Reader
read_pump pong_wait [] r = r
read_pump pong_wait (e ∷ es) r =
    let rest = read_pump pong_wait es (read_turn pong_wait e r) in if r.is_reading then rest else r
