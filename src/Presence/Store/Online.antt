-- ===== src/Presence/Store/Online.antt =====
-- Online means heard of within the last 30 seconds (internal/presence/store.go).
use Prim.Native.String.{String}
use mathlib.Core.Path.{fun_ext}
use text.Mathlib.Text.{◌==◌ as str_eq}
use text.Mathlib.TextPositions.{eq_refl}
use go_chat_backend.Common.{
  ℕ, ◌+◌, ◌-◌, ◌≤◌, ◌≡◌, refl, ap, sym, ◌∙◌, Bool, true, false, not, ◌&&◌, ◌||◌, Option, none, some,
  List, [], ◌∷◌, arith, ltb, if◌then◌else◌, ◌==◌, inl, inr, Bool-cases,
}
use go_chat_backend.Common.Rows.{select}
use go_chat_backend.Presence.Store.{
  Member, is_member, above_bound, SortedSet, ttl, Store, add_all, heartbeat, is_held, online,
}

-- One heartbeat of a node: whether Redis fails, when it is, and the users that the node holds.
pub record Beat : Type 0 where
  pub fails : Bool
  pub at : ℕ
  pub node : String
  pub users : List ℕ

-- The beats come in the order of their times, between `start` and `end`.
abbrev pub Within : ℕ → List Beat → ℕ → Type 0
Within start [] end = start ≤ end
Within start (b ∷ bs) end = (start ≤ b.at) × Within b.at bs end

Within-le : (start : ℕ) (bs : List Beat) (end : ℕ) → Within start bs end → start ≤ end
Within-le start [] end w = w
Within-le start (b ∷ bs) end w = omega (arith, w.0, Within-le b.at bs end w.1)

abbrev pub has_user : List ℕ → ℕ → Bool
has_user [] u = false
has_user (v ∷ vs) u = v == u || has_user vs u

-- A beat that was written after `c` and names the user.
abbrev pub names : ℕ → ℕ → Beat → Bool
names c u b = not b.fails && (ltb c b.at && has_user b.users u)

abbrev pub heard_of : ℕ → ℕ → List Beat → Bool
heard_of c u [] = false
heard_of c u (b ∷ bs) = names c u b || heard_of c u bs

-- The same, from one node.
abbrev heard_from : ℕ → Member → List Beat → Bool
heard_from c k [] = false
heard_from c k (b ∷ bs) = (str_eq b.node k.1 && names c k.0 b) || heard_from c k bs

bool_iff : (a b : Bool) → (a ≡ true → b ≡ true) → (b ≡ true → a ≡ true) → a ≡ b
bool_iff true true f g = refl
bool_iff false false f g = refl
bool_iff true false f g = sym (f refl)
bool_iff false true f g = g refl

heard_from-some :
    (c u : ℕ) (bs : List Beat)
    → heard_of c u bs ≡ true
    → (n : String) × (heard_from c (u, n) bs ≡ true)
heard_from-some c u [] h = cc
heard_from-some c u (b ∷ bs) h = elim (Bool-cases (names c u b)) [
  | inl here ↦ (b.node, rw (eq_refl b.node, here) refl)
  | inr other ↦
      let rest = heard_from-some c u bs (ap (λ x. x || heard_of c u bs) (sym other) ∙ h) in
      (rest.0, ground (arith, rest.1))
]

heard_of-some :
    (c u : ℕ) (n : String) (bs : List Beat) → heard_from c (u, n) bs ≡ true → heard_of c u bs ≡ true
heard_of-some c u n [] h = cc
heard_of-some c u n (b ∷ bs) h = ground (arith, h, heard_of-some c u n bs)

module _ {S : Type 0} (redis : SortedSet S) where
  unfoldable pub run : List Beat → Store S → Store S
  run [] st = st
  run (b ∷ bs) st = run bs (heartbeat redis b.fails b.at b.node b.users st).1

  is_held-some :
      (u : ℕ) (ms : List Member)
      → is_held redis u ms ≡ true
      → (n : String) × (is_member (u, n) ms ≡ true)
  is_held-some u [] h = cc
  is_held-some u ((v, m) ∷ ms) h = elim (Bool-cases (v == u)) [
    | inl here ↦ (m, rw (here, eq_refl m) refl)
    | inr other ↦
        let rest = is_held-some u ms (ap (λ x. x || is_held redis u ms) (sym other) ∙ h) in
        (rest.0, ground (arith, rest.1))
  ]

  held-is_member :
      (u : ℕ) (n : String) (ms : List Member)
      → is_member (u, n) ms ≡ true
      → is_held redis u ms ≡ true
  held-is_member u n [] h = cc
  held-is_member u n ((v, m) ∷ ms) h = ground (arith, h, held-is_member u n ms)

  score-add_all :
      (now u : ℕ) (node n : String) (us : List ℕ) (z : S)
      → redis.score (u, n) (add_all redis now node us z)
        ≡ (if str_eq node n && has_user us u then some now else redis.score (u, n) z)
  score-add_all now u node n [] z = ground arith
  score-add_all now u node n (v ∷ us) z =
      score-add_all now u node n us (redis.add (v, node) now z)
      ∙ ground (arith, redis.score-add (u, n) (v, node) now z)

  -- A heartbeat leaves each score that is above a bound no earlier than the cutoff as the beats say.
  live-trim :
      (b c : ℕ) (k : Member) (z : S)
      → b ≤ c
      → above_bound c (redis.score k (redis.trim b z)) ≡ above_bound c (redis.score k z)
  live-trim b c k z h = ap (above_bound c) (redis.score-trim k b z) ∙ old (redis.score k z)
    where
      old :
          (o : Option ℕ)
          → above_bound c (elim o [ none ↦ none | some s ↦ if ltb s b then none else some s ])
            ≡ above_bound c o
      old none = refl
      old (some s) = ground arith

  live_now :
      (c now : ℕ) (hit : Bool) (o : Option ℕ)
      → above_bound now o ≡ false
      → above_bound c (if hit then some now else o) ≡ (above_bound c o || (hit && ltb c now))
  live_now c now hit none p = ground arith
  live_now c now hit (some s) p = ground arith

  heartbeat-live :
      (b : Beat) (c u : ℕ) (n : String) (st : Store S)
      → b.at ≤ c + ttl
      → above_bound b.at (redis.score (u, n) st.set) ≡ false
      → above_bound c (redis.score (u, n) (heartbeat redis b.fails b.at b.node b.users st).1.set)
        ≡ (above_bound c (redis.score (u, n) st.set) || (str_eq b.node n && names c u b))
  unfolding heartbeat
  heartbeat-live b c u n st near past = elim (Bool-cases b.fails) [
    | inl broken ↦ rw broken (ground arith)
    | inr fine ↦ rw fine (
        live-trim (b.at - ttl) c (u, n) (add_all redis b.at b.node b.users st.set) (omega arith)
        ∙ ap (above_bound c) (score-add_all b.at u b.node n b.users st.set)
        ∙ live_now c b.at (str_eq b.node n && has_user b.users u) (redis.score (u, n) st.set) past
        ∙ ground arith)
  ]

  later_past : (c d : ℕ) (o : Option ℕ) → c ≤ d → above_bound c o ≡ false → above_bound d o ≡ false
  later_past c d none h p = refl
  later_past c d (some s) h p = ground arith

  run-live :
      (bs : List Beat) (start end c u : ℕ) (n : String) (st : Store S)
      → Within start bs end
      → end ≤ c + ttl
      → above_bound start (redis.score (u, n) st.set) ≡ false
      → above_bound c (redis.score (u, n) (run bs st).set)
        ≡ (above_bound c (redis.score (u, n) st.set) || heard_from c (u, n) bs)
  unfolding run
  run-live [] start end c u n st w near past = ground arith
  run-live (b ∷ bs) start end c u n st w near past =
      let st' = (heartbeat redis b.fails b.at b.node b.users st).1 in
      let last = Within-le b.at bs end w.1 in
      let past' = later_past start b.at (redis.score (u, n) st.set) w.0 past in
      let here = heartbeat-live b c u n st (omega arith) past' in
      let soon : above_bound b.at (redis.score (u, n) st'.set) ≡ false =
        heartbeat-live b b.at u n st (omega arith) past' ∙ ground (arith, past') in
      run-live bs b.at end c u n st' w.1 near soon
      ∙ ap (λ x. x || heard_from c (u, n) bs) here
      ∙ ground arith

  -- The set is empty at first.
  abbrev pub new_store : Store S
  new_store = record { set = redis.empty; failures = 0 }

  held-heard :
      (bs : List Beat) (now c u : ℕ)
      → Within 0 bs now
      → now ≤ c + ttl
      → is_held redis u (redis.above c (run bs new_store).set) ≡ heard_of c u bs
  held-heard bs now c u w near =
      bool_iff _ _
        (λ h.
          let held = is_held-some u (redis.above c (run bs new_store).set) h in
          heard_of-some c u held.0 bs (sym (one held.0) ∙ held.1))
        (λ h.
          let heard = heard_from-some c u bs h in
          held-is_member u heard.0 (redis.above c (run bs new_store).set) (one heard.0 ∙ heard.1))
    where
      one :
          (n : String)
          → is_member (u, n) (redis.above c (run bs new_store).set) ≡ heard_from c (u, n) bs
      one n =
          redis.above-score (u, n) c (run bs new_store).set
          ∙ run-live bs 0 now c u n new_store w near (ap (above_bound 0) (redis.score-empty (u, n)))
          ∙ ap (λ o. above_bound c o || heard_from c (u, n) bs) (redis.score-empty (u, n))

-- Whatever heartbeats came in the order of their times, of any nodes, some of them lost to Redis, the
-- answer to a question is exactly the users asked about whom a heartbeat that was written named within
-- the last 30 seconds. Dropping old entries at each beat is not to be seen.
pub online-heard :
    {S : Type 0} (redis : SortedSet S) (bs : List Beat) (now u : ℕ) (users : List ℕ)
    → Within 0 bs now
    → ttl ≤ now
    → (online redis false now (u ∷ users) (run redis bs (new_store redis))).0
      ≡ some (select (λ v. heard_of (now - ttl) v bs) (u ∷ users))
unfolding online
online-heard redis bs now u users w late =
    let same : ◌≡◌ {A = ℕ → Bool}
        (λ v. is_held redis v (redis.above (now - ttl) (run redis bs (new_store redis)).set))
        (λ v. heard_of (now - ttl) v bs) =
      fun_ext (λ v. held-heard redis bs now (now - ttl) v w (omega arith)) in
    ap (λ p. some (select p (u ∷ users))) same
