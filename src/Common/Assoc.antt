-- ===== src/Common/Assoc.antt =====
-- Go maps as association lists. A write replaces in place, so no key stands twice.
use Prim.Native.String.{String}
use text.Mathlib.Text.{◌==◌ as str_eq}
use text.Mathlib.TextEquality.{eq_iff}
use go_chat_backend.Common.{
  ℕ, ◌≡◌, refl, ◌↔◌, ◌≢◌, Bool, true, false, Option, none, some, List, [], ◌∷◌, arith,
  if◌then◌else◌, ◌==◌ as nat_eq, Bool-cases, inl, inr,
}

-- The keys of a map: a test and what it decides.
pub record Key {ℓ} (K : Type ℓ) : Type ℓ where
  pub same : K → K → Bool
  pub same_iff : (a b : K) → (same a b ≡ true) ↔ (a ≡ b)

nat_iff : (a b : ℕ) → (nat_eq a b ≡ true) ↔ (a ≡ b)
nat_iff a b = ground arith

instance abbrev pub nat_key : Key ℕ
unfolding nat_iff
nat_key = record { same = nat_eq; same_iff = nat_iff }

instance abbrev pub string_key : Key String
string_key = record { same = str_eq; same_iff = eq_iff }

pub same_refl {ℓ} : {K : Type ℓ} ⦃e : Key K⦄ (k : K) → e.same k k ≡ true
same_refl ⦃e⦄ k = (e.same_iff k k).1 refl

pub same_ne {ℓ} : {K : Type ℓ} ⦃e : Key K⦄ (k j : K) → k ≢ j → e.same k j ≡ false
same_ne ⦃e⦄ k j h = ground (arith, e.same_iff k j)

module _ {ℓ κ} {K : Type ℓ} {V : Type κ} ⦃e : Key K⦄ where
  unfoldable pub lookup : K → List (K × V) → Option V
  lookup k [] = none
  lookup k ((j, v) ∷ m) = if e.same j k then some v else lookup k m

  unfoldable pub put : K → V → List (K × V) → List (K × V)
  put k v [] = (k, v) ∷ []
  put k v ((j, w) ∷ m) = if e.same j k then (k, v) ∷ m else (j, w) ∷ put k v m

  -- Keeps the entries that pass a test, as a loop that deletes the others does.
  unfoldable pub retain : (K → V → Bool) → List (K × V) → List (K × V)
  retain p [] = []
  retain p ((j, v) ∷ m) = let rest = retain p m in if p j v then (j, v) ∷ rest else rest

  pub lookup-put :
      (k j : K) (v : V) (m : List (K × V))
      → lookup j (put k v m) ≡ (if e.same k j then some v else lookup j m)
  unfolding lookup put
  lookup-put k j v [] = refl
  lookup-put k j v ((i, w) ∷ m) =
      ground (arith, e.same_iff i k, e.same_iff i j, e.same_iff k j, lookup-put k j v m)

  -- No key stands twice.
  abbrev pub Distinct : List (K × V) → Type κ
  Distinct [] = Unit
  Distinct ((j, v) ∷ m) = (lookup j m ≡ none) × Distinct m

  pub put-Distinct : (k : K) (v : V) (m : List (K × V)) → Distinct m → Distinct (put k v m)
  unfolding put lookup
  put-Distinct k v [] d = (refl, tt)
  put-Distinct k v ((j, w) ∷ m) d =
      ground (arith, e.same_iff j k, e.same_iff k j, lookup-put k j v m, put-Distinct k v m d.1)

  lookup-retain-none :
      (p : K → V → Bool) (k : K) (m : List (K × V))
      → lookup k m ≡ none
      → lookup k (retain p m) ≡ none
  unfolding retain lookup
  lookup-retain-none p k [] h = refl
  lookup-retain-none p k ((j, w) ∷ m) h = ground (arith, lookup-retain-none p k m)

  pub retain-Distinct : (p : K → V → Bool) (m : List (K × V)) → Distinct m → Distinct (retain p m)
  unfolding retain
  retain-Distinct p [] d = tt
  retain-Distinct p ((j, w) ∷ m) d = elim (Bool-cases (p j w)) [
    | inl kept ↦ rw kept (lookup-retain-none p j m d.0, retain-Distinct p m d.1)
    | inr gone ↦ rw gone (retain-Distinct p m d.1)
  ]

  -- What is left under a key: its value, if that passes.
  abbrev pub passing : (K → V → Bool) → K → Option V → Option V
  passing p k none = none
  passing p k (some v) = if p k v then some v else none

  pub lookup-retain :
      (p : K → V → Bool) (k : K) (m : List (K × V))
      → Distinct m
      → lookup k (retain p m) ≡ passing p k (lookup k m)
  unfolding retain lookup
  lookup-retain p k [] d = refl
  lookup-retain p k ((j, w) ∷ m) d =
      ground (arith, e.same_iff j k, lookup-retain p k m d.1, lookup-retain-none p k m)
