-- ===== src/Server/RateLimit/Keys.antt =====
-- The configuration of the limiters and the keys of their buckets (internal/server/ratelimit.go).
use Prim.Native.String.{String, ◌++◌}
use go_chat_backend.Common.{ℕ, zero, suc, ◌*◌, ◌/◌, ◌%◌, ◌||◌, ltb, if◌then◌else◌, ◌==◌}
use go_chat_backend.Server.RateLimit.{one_token}

-- The four limits, in the units of the limiter.
pub record RateLimits : Type 0 where
  pub auth_rps : ℕ
  pub auth_burst : ℕ
  pub api_rps : ℕ
  pub api_burst : ℕ

-- A pair of which one is missing becomes the default pair.
unfoldable pub or_defaults : RateLimits → RateLimits
or_defaults l = record {
  auth_rps = if (l.auth_rps == 0) || (l.auth_burst == 0) then 5_000 else l.auth_rps;
  auth_burst = if (l.auth_rps == 0) || (l.auth_burst == 0) then 20 * one_token else l.auth_burst;
  api_rps = if (l.api_rps == 0) || (l.api_burst == 0) then 20_000 else l.api_rps;
  api_burst = if (l.api_rps == 0) || (l.api_burst == 0) then 40 * one_token else l.api_burst;
}

-- strconv.FormatUint, with a bound on the digits.
abbrev digit : ℕ → String
digit d =
    if d == 0
    then "0"
    else if d == 1
    then "1"
    else if d == 2
    then "2"
    else if d == 3
    then "3"
    else if d == 4
    then "4"
    else if d == 5
    then "5"
    else if d == 6
    then "6"
    else if d == 7
    then "7"
    else if d == 8
    then "8"
    else "9"

digits : ℕ → ℕ → String
digits zero n = ""
digits (suc f) n =
    let rest = digits f (n / 10) in if ltb n 10 then digit n else rest ++ digit (n % 10)

abbrev format_uint : ℕ → String
format_uint n = digits (suc n) n

unfoldable pub ip_key : String → String
ip_key ip = "ip:" ++ ip

unfoldable pub user_key : ℕ → String → String
unfolding digits
user_key user_id ip = if user_id == 0 then ip_key ip else "user:" ++ format_uint user_id
