-- ===== src/Server/Logging/Tests.antt =====
-- Request ids and log lines (internal/server/logging.go).
use go_chat_backend.Common.{
  ℕ, ◌≡◌, refl, ◌⊎◌, List, [], ◌∷◌, arith, length, true, false, some, none,
}
use go_chat_backend.Server.Logging.{
  Random, request_id, new_request_id, valid_request_id, request_logger, quiet, failed, recovery,
  panics,
}
use go_chat_backend.Server.Logging.Safe.{IsPrintable, request_id-IsPrintable}

abbrev random : Random
random = record { b0 = 0; b1 = 16; b2 = 171; b3 = 255; b4 = 1; b5 = 2; b6 = 3; b7 = 9 }

-- "a", a line feed, and "b".
abbrev two_lines : List ℕ
two_lines = b'a' ∷ 10 ∷ b'b' ∷ []

request_id-IsPrintable_example :
    IsPrintable (request_id two_lines random)
    × ((request_id two_lines random ≡ two_lines) ⊎ (¬ IsPrintable two_lines))
request_id-IsPrintable_example = request_id-IsPrintable two_lines random (
  omega arith,
  (
    omega arith,
    (omega arith, (omega arith, (omega arith, (omega arith, (omega arith, (omega arith, tt)))))),
  ),
)

replaced : length (request_id two_lines random) ≡ 16
unfolding request_id valid_request_id new_request_id
replaced = refl

-- A probe is quiet only while it answers well.
probe_lines : (request_logger true 200 ≡ quiet) × (request_logger true 503 ≡ failed)
unfolding request_logger
probe_lines = (refl, refl)

panic_answers : (recovery (panics false) 4 ≡ (some 500, 5)) × (recovery (panics true) 4 ≡ (none, 4))
unfolding recovery
panic_answers = (refl, refl)
