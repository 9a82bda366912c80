-- ===== src/Ws/Hub/Tests.antt =====
-- The hub's theorems at requests that exercise them (internal/ws/hub.go).
use Prim.Native.String.{String}
use go_chat_backend.Common.{◌≡◌, refl, true, false, List, [], ◌∷◌, arith, replicate, none}
use go_chat_backend.Ws.Hub.{
  Socket, Counters, Request, new_hub, adds, removes, writes, broadcasts, delivers, tests_done,
  closes, run, step, test_done, close, stop, close_all_from,
}
use go_chat_backend.Ws.Hub.Loops.{AllSound}
use go_chat_backend.Ws.Hub.Steps.{Survives, run-Survives}
use go_chat_backend.Ws.Hub.Delivery.{counted_offers}

-- A socket is dropped by its reader twice, and the hub is closed twice, one call after the other.
abbrev requests : List (Request String)
requests =
    adds 1
    ∷ adds 2
    ∷ broadcasts (record { user_ids = 1 ∷ 2 ∷ []; payload = "hi" })
    ∷ delivers
    ∷ removes 0
    ∷ removes 0
    ∷ writes 1
    ∷ tests_done
    ∷ closes
    ∷ tests_done
    ∷ closes
    ∷ []

run-Survives_example : Survives (run requests new_hub)
run-Survives_example = run-Survives requests refl

-- Two calls of Close that overlap panic.
overlapping_closes :
    run (tests_done ∷ tests_done ∷ closes ∷ closes ∷ []) (new_hub {P = String}) ≡ none
unfolding run step test_done close stop close_all_from
overlapping_closes = refl

-- A socket with room, a full one, and one of another user.
abbrev quick : Socket String
quick = record { id = 0; user_id = 1; is_registered = true; send = []; is_closed = false }

abbrev slow : Socket String
slow = record quick { id = 1; send = replicate 16 "old" }

abbrev stranger : Socket String
stranger = record quick { id = 2; user_id = 2 }

abbrev counters : Counters
counters = record { open_count = 3; sent = 16; dropped = 0 }

three-AllSound : AllSound (quick ∷ slow ∷ stranger ∷ [])
three-AllSound = ((refl, omega arith), ((refl, omega arith), ((refl, omega arith), tt)))

dropped_test :
    counted_offers 1 (quick ∷ slow ∷ stranger ∷ []) counters
    ≡ record { open_count = 2; sent = 17; dropped = 1 }
unfolding counted_offers
dropped_test = refl
