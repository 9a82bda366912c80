-- ===== src/Common/Decimal/RoundTrip.antt =====
-- A number reads back from its decimal digits.
use go_chat_backend.Common.{
  ℕ, zero, suc, ◌+◌, ◌*◌, ◌/◌, ◌%◌, ◌<◌, ◌≤◌, ◌≡◌, refl, ap, ◌∙◌, true, some, List, [], ◌∷◌, arith,
  ltb, inl, inr, Bool-cases,
}
use go_chat_backend.Common.Decimal.{
  max_uint64, is_digit, format_from, format_uint, read_from, parse_uint,
}

abbrev pub AllDigits : List ℕ → Type 0
AllDigits [] = Unit {0}
AllDigits (c ∷ cs) = (is_digit c ≡ true) × AllDigits cs

pub format_from-AllDigits :
    (fuel n : ℕ) (out : List ℕ) → AllDigits out → AllDigits (format_from fuel n out)
unfolding format_from
format_from-AllDigits zero n out h = h
format_from-AllDigits (suc fuel) n out h =
    let ih = format_from-AllDigits fuel (n / 10) ((b'0' + n % 10) ∷ out) (ground arith, h) in
    elim (Bool-cases (ltb n 10)) [ inl last ↦ rw last (ground arith, h) | inr more ↦ rw more ih ]

read_from-digit :
    (d n : ℕ) (out : List ℕ)
    → d < 10
    → n * 10 + d ≤ max_uint64
    → read_from ((b'0' + d) ∷ out) n ≡ read_from out (n * 10 + d)
unfolding read_from
read_from-digit d n out h fits = ground arith

read_from-format_from :
    (fuel n : ℕ) (out : List ℕ)
    → n < fuel
    → n ≤ max_uint64
    → read_from (format_from fuel n out) 0 ≡ read_from out n
unfolding format_from
read_from-format_from zero n out h fits = absurd (omega arith)
read_from-format_from (suc fuel) n out h fits = elim (Bool-cases (ltb n 10)) [
  | inl last ↦
      rw last
        (read_from-digit n 0 out (ground arith) (omega arith) ∙ ap (read_from out) (omega arith))
  | inr more ↦ rw more (
      read_from-format_from fuel (n / 10) ((b'0' + n % 10) ∷ out) (ground arith) (omega arith)
      ∙ read_from-digit (n % 10) (n / 10) out (omega arith) (omega arith)
      ∙ ap (read_from out) (omega arith))
]

format_from-cons :
    (fuel n : ℕ) (out : List ℕ)
    → n < fuel
    → (c : ℕ) × (cs : List ℕ) × (format_from fuel n out ≡ c ∷ cs)
unfolding format_from
format_from-cons zero n out h = absurd (omega arith)
format_from-cons (suc fuel) n out h = elim (Bool-cases (ltb n 10)) [
  | inl last ↦ (b'0' + n, out, rw last refl)
  | inr more ↦
      let ih = format_from-cons fuel (n / 10) ((b'0' + n % 10) ∷ out) (ground arith) in
      (ih.0, ih.1, rw more ih.2)
]

parse_uint-cons : (t : List ℕ) (c : ℕ) (cs : List ℕ) → t ≡ c ∷ cs → parse_uint t ≡ read_from t 0
unfolding parse_uint
parse_uint-cons t c cs h = rw h refl

pub parse_uint-format_uint : (n : ℕ) → n ≤ max_uint64 → parse_uint (format_uint n) ≡ some n
parse_uint-format_uint n fits =
    let some_digit = format_from-cons (suc n) n [] (omega arith) in
    parse_uint-cons (format_uint n) some_digit.0 some_digit.1 some_digit.2
    ∙ read_from-format_from (suc n) n [] (omega arith) fits
    ∙ unfold read_from in refl
