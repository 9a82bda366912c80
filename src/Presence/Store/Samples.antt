-- ===== src/Presence/Store/Samples.antt =====
-- A sorted set of keys and scores, and some heartbeats, for tests (internal/presence/store.go).
use Prim.Native.String.{String}
use text.Mathlib.Text.{◌==◌ as str_eq}
use go_chat_backend.Common.{
  ℕ, ◌≡◌, refl, ap, ap₂, Bool, true, false, ◌&&◌, Option, none, some, List, [], ◌∷◌, arith, ltb,
  if◌then◌else◌, inl, inr, Bool-cases,
}
use go_chat_backend.Common.Assoc.{string_key}
use go_chat_backend.Common.Rows.{select}
use go_chat_backend.Presence.Store.{Member, same_member, is_member, above_bound, SortedSet}
use go_chat_backend.Presence.Store.Online.{Beat}

-- The members that were ever added, with the score of each.
abbrev pub Keyed : Type 0
Keyed = List Member × (Member → Option ℕ)

abbrev pub score_in : Member → Keyed → Option ℕ
score_in k (ks, f) = if is_member k ks then f k else none

abbrev pub trimmed : ℕ → Option ℕ → Option ℕ
trimmed b o = elim o [ none ↦ none | some s ↦ if ltb s b then none else some s ]

same_member-eq : (j k : Member) → same_member j k ≡ true → j ≡ k
same_member-eq (u, n) (v, m) h =
    let a : u ≡ v = ground (arith, h) in
    let t : str_eq n m ≡ true = ground (arith, h) in
    let b : n ≡ m = (string_key.same_iff n m).0 t in ap₂ (λ (x : ℕ) (y : String). (x, y)) a b

is_member-select :
    (p : Member → Bool) (k : Member) (ks : List Member)
    → is_member k (select p ks) ≡ (is_member k ks && p k)
unfolding select
is_member-select p k [] = refl
is_member-select p k (j ∷ ks) = elim (Bool-cases (same_member j k)) [
  | inl here ↦
      let e : p j ≡ p k = ap p (same_member-eq j k here) in
      ground (arith, e, here, is_member-select p k ks)
  | inr other ↦ ground (arith, other, is_member-select p k ks)
]

pub score_in-add :
    (k m : Member) (s : ℕ) (z : Keyed)
    → score_in k (m ∷ z.0, λ j. if same_member m j then some s else z.1 j)
      ≡ (if same_member m k then some s else score_in k z)
score_in-add k m s z = ground arith

pub score_in-trim :
    (k : Member) (b : ℕ) (z : Keyed)
    → score_in k (z.0, λ j. trimmed b (z.1 j)) ≡ trimmed b (score_in k z)
score_in-trim k b z = ground arith

pub above-score_in :
    (k : Member) (b : ℕ) (z : Keyed)
    → is_member k (select (λ j. above_bound b (z.1 j)) z.0) ≡ above_bound b (score_in k z)
above-score_in k b z = ground (arith, is_member-select (λ j. above_bound b (z.1 j)) k z.0)

abbrev pub keyed_set : SortedSet Keyed
keyed_set = record {
  empty = ([], λ k. none);
  add = λ m s z. (m ∷ z.0, λ k. if same_member m k then some s else z.1 k);
  trim = λ b z. (z.0, λ k. trimmed b (z.1 k));
  above = λ b z. select (λ k. above_bound b (z.1 k)) z.0;
  score = score_in;
  score-empty = λ k. refl;
  score-add = score_in-add;
  score-trim = score_in-trim;
  above-score = above-score_in;
}

-- Two nodes, a beat that Redis lost, and a user who was last named too long ago.
abbrev pub beats : List Beat
beats =
    record { fails = false; at = 100; node = "a"; users = 1 ∷ 2 ∷ [] }
    ∷ record { fails = false; at = 110; node = "b"; users = 1 ∷ 3 ∷ [] }
    ∷ record { fails = true; at = 120; node = "a"; users = 2 ∷ [] }
    ∷ []
