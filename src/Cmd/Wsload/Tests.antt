-- ===== src/Cmd/Wsload/Tests.antt =====
-- The load tool's numbers on a few samples (cmd/wsload/main.go).
use go_chat_backend.Common.{
  ℕ, ◌≡◌, ◌≤◌, ◌<◌, ◌*◌, refl, some, List, [], ◌∷◌, arith, length, range_from,
}
use go_chat_backend.Cmd.Wsload.{percentile, pad, too_many, post_json}
use go_chat_backend.Cmd.Wsload.Rank.{at_most, below, percentile-rank}
use go_chat_backend.Cmd.Wsload.Patience.{IsWithin, post_json-IsWithin}

abbrev samples : List ℕ
samples = 3 ∷ 5 ∷ 5 ∷ 9 ∷ []

percentile-rank_example :
    (v : ℕ) × (percentile samples 50 ≡ some v)
    × (length samples * 50 ≤ at_most v samples * 100)
    × (below v samples * 100 < length samples * 50)
percentile-rank_example =
    percentile-rank 3 (5 ∷ 5 ∷ 9 ∷ []) 50
      (omega arith, (omega arith, (omega arith, (omega arith, tt)))) (omega arith) (omega arith)

-- p99 of 100 samples is the 99th.
p99 : percentile (range_from 1 100) 99 ≡ some 99
unfolding percentile
p99 = refl

padded : pad (b'h' ∷ b'i' ∷ []) 4 ≡ b'h' ∷ b'i' ∷ b'x' ∷ b'x' ∷ []
unfolding pad
padded = refl

-- A server that asks for an hour each time.
post_json-IsWithin_example :
    IsWithin 8 73_500_000_000 (post_json (λ n. too_many (3_600 * 1_000_000_000)) (λ n. 400_000_000))
post_json-IsWithin_example =
    post_json-IsWithin (λ n. too_many (3_600 * 1_000_000_000)) (λ n. 400_000_000) (λ n. omega arith)
