-- ===== src/Cmd/Wsload/Rank.antt =====
-- The percentile of the load tool is a nearest rank (cmd/wsload/main.go).
use native.Mathlib.Nat.{mul-le-mul_left, mul-le-mul}
use go_chat_backend.Common.{
  ℕ, zero, suc, ◌+◌, ◌-◌, ◌*◌, ◌/◌, ◌≡◌, ◌≤◌, ◌<◌, refl, ap, ◌∙◌, some, List, [], ◌∷◌, ltb, leb,
  arith, if◌then◌else◌, length, min,
}
use go_chat_backend.Common.Rows.{Rising}
use go_chat_backend.Cmd.Wsload.{nth, before_last, percentile}

-- The samples are sorted.
abbrev pub IsSorted : List ℕ → Type 0
IsSorted xs = Rising (λ x. x) 0 xs

abbrev pub at_most : ℕ → List ℕ → ℕ
at_most v [] = 0
at_most v (x ∷ xs) = (if leb x v then 1 else 0) + at_most v xs

abbrev pub below : ℕ → List ℕ → ℕ
below v [] = 0
below v (x ∷ xs) = (if ltb x v then 1 else 0) + below v xs

nth-low : (low i v : ℕ) (xs : List ℕ) → Rising (λ x. x) low xs → nth i xs ≡ some v → low ≤ v
nth-low low i v [] r h = absurd (cc)
nth-low low zero v (x ∷ xs) r h = let e : x ≡ v = cc in omega (arith, r.0, e)
nth-low low (suc i) v (x ∷ xs) r h = omega (arith, r.0, nth-low x i v xs r.1 h)

nth-at_most :
    (low i v : ℕ) (xs : List ℕ) → Rising (λ x. x) low xs → nth i xs ≡ some v → i < at_most v xs
nth-at_most low i v [] r h = absurd (cc)
nth-at_most low zero v (x ∷ xs) r h = let e : x ≡ v = cc in ground (arith, e)
nth-at_most low (suc i) v (x ∷ xs) r h =
    let x_le = nth-low x i v xs r.1 h in
    let ih = nth-at_most x i v xs r.1 h in ground (arith, x_le, ih)

below-none : (low v : ℕ) (xs : List ℕ) → Rising (λ x. x) low xs → v ≤ low → below v xs ≡ 0
below-none low v [] r h = refl
below-none low v (x ∷ xs) r h = ground (arith, r.0, below-none x v xs r.1)

nth-below :
    (low i v : ℕ) (xs : List ℕ) → Rising (λ x. x) low xs → nth i xs ≡ some v → below v xs ≤ i
nth-below low i v [] r h = absurd (cc)
nth-below low zero v (x ∷ xs) r h =
    let e : x ≡ v = cc in ground (arith, e, below-none x v xs r.1 (omega (arith, e)))
nth-below low (suc i) v (x ∷ xs) r h = ground (arith, nth-below x i v xs r.1 h)

nth-some : (i : ℕ) (xs : List ℕ) → i < length xs → (v : ℕ) × (nth i xs ≡ some v)
nth-some i [] h = absurd (omega arith)
nth-some zero (x ∷ xs) h = (x, refl)
nth-some (suc i) (x ∷ xs) h = nth-some i xs (omega arith)

-- The place that the tool computes for `n` samples, counted from 0.
place :
    (n p : ℕ)
    → 1 ≤ n
    → 1 ≤ p
    → p ≤ 100
    → (k : ℕ) × (min ((n * p + 99) / 100) n ≡ suc k)
      × (k < n)
      × (n * p ≤ suc k * 100)
      × (k * 100 < n * p)
place n p some_ low high =
    let m = n * p in
    let upper : m ≤ n * 100 = mul-le-mul_left n high in
    let lower : 1 * 1 ≤ m = mul-le-mul some_ low in
    (
      (m + 99) / 100 - 1,
      omega (arith, upper, lower),
      omega (arith, upper, lower),
      omega (arith, upper, lower),
      omega (arith, upper, lower),
    )

-- Of sorted samples, and for a rank from 1 to 100, the percentile is a value such that at least that
-- share of the samples is at most the value, and less than that share is below it. No index is out of
-- range on the way.
pub percentile-rank :
    (x : ℕ) (xs : List ℕ) (p : ℕ)
    → IsSorted (x ∷ xs)
    → 1 ≤ p
    → p ≤ 100
    → (v : ℕ) × (percentile (x ∷ xs) p ≡ some v)
      × (length (x ∷ xs) * p ≤ at_most v (x ∷ xs) * 100)
      × (below v (x ∷ xs) * 100 < length (x ∷ xs) * p)
unfolding percentile
percentile-rank x xs p sorted low high =
    let all = x ∷ xs in
    let (k, at, inside, reaches, short) = place (length all) p (omega arith) low high in
    let (v, found) = nth-some k all inside in
    let enough = nth-at_most 0 k v all sorted found in
    let few = nth-below 0 k v all sorted found in
    (
      v,
      ap (λ i. before_last i all) at ∙ found,
      omega (arith, reaches, enough),
      omega (arith, short, few),
    )
