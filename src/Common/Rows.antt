-- ===== src/Common/Rows.antt =====
-- Tables as lists of rows, oldest first, and what the queries do to them.

pub mod Find
use go_chat_backend.Common.{
  ℕ, ◌≤◌, ◌≡◌, refl, Bool, Option, none, some, List, [], ◌∷◌, ◌++◌, arith, leb, if◌then◌else◌,
  length, inl, inr, Bool-cases,
}

module _ {ℓ} {A : Type ℓ} where
  -- SELECT ... WHERE p
  unfoldable pub select : (A → Bool) → List A → List A
  select p [] = []
  select p (x ∷ xs) = let rest = select p xs in if p x then x ∷ rest else rest

  -- The first row that passes.
  unfoldable pub find : (A → Bool) → List A → Option A
  find p [] = none
  find p (x ∷ xs) = if p x then some x else find p xs

  -- UPDATE ... SET f WHERE p
  unfoldable pub update : (A → Bool) → (A → A) → List A → List A
  update p f [] = []
  update p f (x ∷ xs) = (if p x then f x else x) ∷ update p f xs

  -- ORDER BY key ASC, by insertion; rows of one key stay in their order.
  unfoldable pub insert_by : (A → ℕ) → A → List A → List A
  insert_by key x [] = x ∷ []
  insert_by key x (y ∷ ys) = if leb (key x) (key y) then x ∷ y ∷ ys else y ∷ insert_by key x ys

  unfoldable pub order_by : (A → ℕ) → List A → List A
  unfolding insert_by
  order_by key [] = []
  order_by key (x ∷ xs) = insert_by key x (order_by key xs)

  pub select-append :
      (p : A → Bool) (xs ys : List A) → select p (xs ++ ys) ≡ select p xs ++ select p ys
  unfolding select
  select-append p [] ys = refl
  select-append p (x ∷ xs) ys = ground (arith, select-append p xs ys)

  pub length-select-le : (p : A → Bool) (xs : List A) → length (select p xs) ≤ length xs
  unfolding select
  length-select-le p [] = omega arith
  length-select-le p (x ∷ xs) = ground (arith, length-select-le p xs)

  -- The keys rise along the list.
  abbrev pub Rising : (A → ℕ) → ℕ → List A → Type 0
  Rising key low [] = Unit {0}
  Rising key low (x ∷ xs) = (low ≤ key x) × Rising key (key x) xs

  insert_by-low :
      (key : A → ℕ) (x : A) (xs : List A) → Rising key (key x) xs → insert_by key x xs ≡ x ∷ xs
  unfolding insert_by
  insert_by-low key x [] r = refl
  insert_by-low key x (y ∷ ys) r = ground arith

  -- Rows that stand in the order of their keys are left as they are.
  pub order_by-Rising :
      (key : A → ℕ) (low : ℕ) (xs : List A) → Rising key low xs → order_by key xs ≡ xs
  unfolding order_by
  order_by-Rising key low [] r = refl
  order_by-Rising key low (x ∷ xs) r =
      rw (order_by-Rising key (key x) xs r.1) (insert_by-low key x xs r.1)

  pub Rising-lower :
      (key : A → ℕ) (low low' : ℕ) (xs : List A)
      → low' ≤ low
      → Rising key low xs
      → Rising key low' xs
  Rising-lower key low low' [] h r = tt
  Rising-lower key low low' (x ∷ xs) h r = (omega arith, r.1)

  pub select-Rising :
      (key : A → ℕ) (p : A → Bool) (low : ℕ) (xs : List A)
      → Rising key low xs
      → Rising key low (select p xs)
  unfolding select
  select-Rising key p low [] r = tt
  select-Rising key p low (x ∷ xs) r = elim (Bool-cases (p x)) [
    | inl kept ↦ rw kept (r.0, select-Rising key p (key x) xs r.1)
    | inr gone ↦ rw gone (Rising-lower key (key x) low _ r.0 (select-Rising key p (key x) xs r.1))
  ]
