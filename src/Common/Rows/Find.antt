-- ===== src/Common/Rows/Find.antt =====
-- What a search finds after an update or an insertion, and keys that never stand twice.
use go_chat_backend.Common.{
  ℕ, suc, ◌≤◌, ◌<◌, ◌≡◌, refl, Bool, true, Option, none, some, List, [], ◌∷◌, ◌++◌, arith,
  if◌then◌else◌, ◌==◌, inl, inr, Bool-cases,
}
use go_chat_backend.Common.Rows.{find, update}

module _ {ℓ} {A : Type ℓ} where
  abbrev pub or_else : Option A → Option A → Option A
  or_else none o = o
  or_else (some a) o = some a

  pub find-append :
      (p : A → Bool) (xs ys : List A) → find p (xs ++ ys) ≡ or_else (find p xs) (find p ys)
  unfolding find
  find-append p [] ys = refl
  find-append p (x ∷ xs) ys = ground (arith, find-append p xs ys)

  abbrev pub changed : (A → Bool) → (A → A) → Option A → Option A
  changed q f none = none
  changed q f (some x) = some (if q x then f x else x)

  -- An update that the search does not look at.
  pub find-update :
      (p q : A → Bool) (f : A → A)
      → ((x : A) → p (f x) ≡ p x)
      → (xs : List A) → find p (update q f xs) ≡ changed q f (find p xs)
  unfolding find update
  find-update p q f same [] = refl
  find-update p q f same (x ∷ xs) = ground (arith, same x, find-update p q f same xs)

  pub find-holds : (p : A → Bool) (xs : List A) {x : A} → find p xs ≡ some x → p x ≡ true
  unfolding find
  find-holds p [] h = cc
  find-holds p (y ∷ ys) {x} h = ground (arith, find-holds p ys {x = x})

  -- The keys rise from `low` and stay below `high`, so that none stands twice.
  abbrev pub Between : (A → ℕ) → ℕ → List A → ℕ → Type 0
  Between key low [] high = low ≤ high
  Between key low (x ∷ xs) high = (low ≤ key x) × Between key (suc (key x)) xs high

  pub Between-append :
      (key : A → ℕ) (low : ℕ) (xs : List A) (high : ℕ) (x : A)
      → Between key low xs high
      → high ≤ key x
      → Between key low (xs ++ x ∷ []) (suc (key x))
  Between-append key low [] high x b h = (omega arith, omega arith)
  Between-append key low (y ∷ ys) high x b h =
      (b.0, Between-append key (suc (key y)) ys high x b.1 h)

  pub Between-update :
      (key : A → ℕ) (p : A → Bool) (f : A → A)
      → ((x : A) → key (f x) ≡ key x)
      → (low : ℕ) (xs : List A) (high : ℕ) → Between key low xs high
      → Between key low (update p f xs) high
  unfolding update
  Between-update key p f same low [] high b = b
  Between-update key p f same low (x ∷ xs) high b = elim (Bool-cases (p x)) [
    | inl hit ↦ rw (hit, same x) (b.0, Between-update key p f same (suc (key x)) xs high b.1)
    | inr miss ↦ rw miss (b.0, Between-update key p f same (suc (key x)) xs high b.1)
  ]

  pub Between-higher :
      (key : A → ℕ) (low : ℕ) (xs : List A) (high high' : ℕ)
      → high ≤ high'
      → Between key low xs high
      → Between key low xs high'
  Between-higher key low [] high high' h b = omega arith
  Between-higher key low (x ∷ xs) high high' h b =
      (b.0, Between-higher key (suc (key x)) xs high high' h b.1)

  pub find_above :
      (key : A → ℕ) (p : A → Bool) (k low : ℕ) (xs : List A) (high : ℕ)
      → ((x : A) → p x ≡ true → key x ≡ k)
      → Between key low xs high
      → k < low
      → find p xs ≡ none
  unfolding find
  find_above key p k low [] high only b h = refl
  find_above key p k low (x ∷ xs) high only b h =
      ground (arith, only x, find_above key p k (suc (key x)) xs high only)

  -- Where keys do not repeat, a search for a key finds the row that a narrower search finds.
  pub find_by_key :
      (key : A → ℕ) (p : A → Bool) (k low : ℕ) (xs : List A) (high : ℕ) {x : A}
      → ((y : A) → p y ≡ true → key y ≡ k)
      → Between key low xs high
      → find p xs ≡ some x
      → find (λ y. key y == k) xs ≡ some x
  unfolding find
  find_by_key key p k low [] high only b h = cc
  find_by_key key p k low (y ∷ ys) high {x} only b h = elim (Bool-cases (p y)) [
    | inl hit ↦ ground (arith, only y)
    | inr miss ↦ elim (Bool-cases (key y == k)) [
      | inr other ↦ rw other (find_by_key key p k (suc (key y)) ys high only b.1 (ground arith))
      | inl same ↦ ground (arith, find_above key p k (suc (key y)) ys high only b.1)
    ]
  ]
