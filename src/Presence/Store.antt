-- ===== src/Presence/Store.antt =====
-- Who is online (internal/presence/store.go). The sorted set of Redis is a parameter. Times are whole
-- seconds, a member of the set is a user on a node, and a failed command changes nothing here.
pub mod Online
pub mod Samples
mod Tests
use Prim.Native.String.{String}
use text.Mathlib.Text.{◌==◌ as str_eq}
use go_chat_backend.Common.{
  ℕ, ◌+◌, ◌-◌, ◌≡◌, Bool, true, false, not, ◌&&◌, ◌||◌, Option, none, some, List, [], ◌∷◌, ltb, leb,
  if◌then◌else◌, ◌==◌,
}
use go_chat_backend.Common.Rows.{select}

-- A user and a node.
abbrev pub Member : Type 0
Member = ℕ × String

abbrev pub same_member : Member → Member → Bool
same_member (u, n) (v, m) = u == v && str_eq n m

abbrev pub is_member : Member → List Member → Bool
is_member k [] = false
is_member k (j ∷ js) = same_member j k || is_member k js

-- The score is above the bound.
abbrev pub above_bound : ℕ → Option ℕ → Bool
above_bound b none = false
above_bound b (some s) = ltb b s

-- ZADD, ZREMRANGEBYSCORE from -inf to an excluded bound, and ZRANGEBYSCORE from an excluded bound to
-- +inf, with what they do to the scores.
pub record SortedSet (S : Type 0) : Type 0 where
  pub empty : S
  pub add : Member → ℕ → S → S
  pub trim : ℕ → S → S
  pub above : ℕ → S → List Member
  pub score : Member → S → Option ℕ
  pub score-empty : (k : Member) → score k empty ≡ none
  pub score-add :
      (k m : Member) (s : ℕ) (z : S)
      → score k (add m s z) ≡ (if same_member m k then some s else score k z)
  pub score-trim :
      (k : Member) (b : ℕ) (z : S)
      → score k (trim b z)
        ≡ elim (score k z) [ none ↦ none | some s ↦ if ltb s b then none else some s ]
  pub above-score :
      (k : Member) (b : ℕ) (z : S) → is_member k (above b z) ≡ above_bound b (score k z)

-- A user who was not heard of for this long is offline.
abbrev pub ttl : ℕ
ttl = 30

pub record Store (S : Type 0) : Type 0 where
  pub set : S
  pub failures : ℕ

module _ {S : Type 0} (redis : SortedSet S) where
  abbrev pub add_all : ℕ → String → List ℕ → S → S
  add_all now node [] z = z
  add_all now node (u ∷ us) z = add_all now node us (redis.add (u, node) now z)

  -- The pipeline fails or not; whether it is done is the answer.
  unfoldable pub heartbeat : Bool → ℕ → String → List ℕ → Store S → Bool × Store S
  heartbeat fails now node users st =
      if fails
      then (false, record st { failures = st.failures + 1 })
      else (true, record st { set = redis.trim (now - ttl) (add_all now node users st.set) })

  -- Some node holds the user.
  abbrev pub is_held : ℕ → List Member → Bool
  is_held u [] = false
  is_held u ((v, n) ∷ ms) = v == u || is_held u ms

  abbrev no_users : List ℕ → Bool
  no_users [] = true
  no_users (u ∷ us) = false

  -- The users asked about that are online.
  unfoldable pub online : Bool → ℕ → List ℕ → Store S → Option (List ℕ) × Store S
  online fails now users st =
      if no_users users
      then (some [], st)
      else if fails
      then (none, record st { failures = st.failures + 1 })
      else (some (select (λ u. is_held u (redis.above (now - ttl) st.set)) users), st)
