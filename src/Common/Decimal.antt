-- ===== src/Common/Decimal.antt =====
-- Numbers in decimal, as strconv.FormatUint and strconv.ParseUint write and read them in base 10 with
-- 64 bits. A text is the list of its code points.
pub mod RoundTrip
use go_chat_backend.Common.{
  ℕ, zero, suc, ◌+◌, ◌-◌, ◌*◌, ◌/◌, ◌%◌, ◌^◌, Bool, ◌&&◌, Option, none, some, List, [], ◌∷◌, ltb,
  leb, if◌then◌else◌,
}

abbrev pub max_uint64 : ℕ
max_uint64 = 2 ^ 64 - 1

abbrev pub is_digit : ℕ → Bool
is_digit c = leb b'0' c && leb c b'9'

-- The digits of a number below the fuel, in front of a text.
unfoldable pub format_from : ℕ → ℕ → List ℕ → List ℕ
format_from zero n out = out
format_from (suc fuel) n out =
    let longer = format_from fuel (n / 10) ((b'0' + n % 10) ∷ out) in
    if ltb n 10 then (b'0' + n) ∷ out else longer

abbrev pub format_uint : ℕ → List ℕ
format_uint n = format_from (suc n) n []

-- The number that the digits spell behind `n`; it has to fit in 64 bits at each digit.
unfoldable pub read_from : List ℕ → ℕ → Option ℕ
read_from [] n = some n
read_from (c ∷ cs) n =
    let rest = read_from cs (n * 10 + (c - b'0')) in
    if is_digit c then (if ltb max_uint64 (n * 10 + (c - b'0')) then none else rest) else none

unfoldable pub parse_uint : List ℕ → Option ℕ
parse_uint [] = none
parse_uint (c ∷ cs) = read_from (c ∷ cs) 0
