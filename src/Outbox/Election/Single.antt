-- ===== src/Outbox/Election/Single.antt =====
-- There is one relay at a time, as long as no leader loses the connection of its lock
-- (internal/outbox/relay.go and internal/database/outbox.go).
use go_chat_backend.Common.{
  ℕ, ◌≡◌, refl, Bool, true, false, Option, none, some, List, [], ◌∷◌, arith, ap, ◌∙◌,
}
use go_chat_backend.Outbox.Election.{
  Phase, asking, asleep, ended, leading, Cluster, initial, set_phase, ask, let_go, kept, Event,
  tries, wakes, ends, dies, disconnects, try_at, wake_at, end_at, die_at, step, run,
}

-- The session that a node locks with, as a leader or after an unlock that failed.
abbrev session_of : Phase → Option ℕ
session_of (leading s) = some s
session_of (kept s) = some s
session_of asking = none
session_of asleep = none
session_of ended = none

-- A session that a node locks with has the lock, and no two nodes lock with one session.
pub record IsSound (c : Cluster) : Type 0 where
  pub held : (i s : ℕ) → session_of (c.phases i) ≡ some s → c.lock ≡ some s
  pub one :
      (i j s : ℕ) → session_of (c.phases i) ≡ some s → session_of (c.phases j) ≡ some s → i ≡ j

-- A node that turns to a phase with no session.
set_phase-IsSound :
    (i : ℕ) (p : Phase) (c : Cluster) → session_of p ≡ none → IsSound c → IsSound (set_phase i p c)
set_phase-IsSound i p c idle v = record {
  held = λ j s h. ground (arith, v.held j s, idle);
  one = λ j k s h h'. ground (arith, v.one j k s, idle);
}

ask-IsSound : (i : ℕ) (o : Option ℕ) (c : Cluster) → c.lock ≡ o → IsSound c → IsSound (ask i o c)
ask-IsSound i none c free v = record {
  held = λ j s h. ground (arith, v.held j s);
  one = λ j k s h h'. ground (arith, v.held j s, v.held k s);
}
ask-IsSound i (some t) c taken v = record {
  held = λ j s h. ground (arith, v.held j s);
  one = λ j k s h h'. ground (arith, v.one j k s);
}

-- A node gives its lock back.
let_go-IsSound :
    (i s : ℕ) (c : Cluster)
    → session_of (c.phases i) ≡ some s
    → IsSound c
    → IsSound (set_phase i ended (let_go s c))
let_go-IsSound i s c has v = record {
  held = λ j t h. ground (arith, v.held j t, v.held i s, v.one i j s);
  one = λ j k t h h'. ground (arith, v.one j k t);
}

-- A leader ends and keeps its lock.
keep-IsSound :
    (i s : ℕ) (c : Cluster)
    → session_of (c.phases i) ≡ some s
    → IsSound c
    → IsSound (set_phase i (kept s) c)
keep-IsSound i s c has v = record {
  held = λ j t h. ground (arith, v.held j t, v.held i s);
  one = λ j k t h h'. ground (arith, v.one j k t, v.one i k t, v.one j i t);
}

try_at-IsSound :
    (p : Phase) (i : ℕ) (fails : Bool) (c : Cluster) → IsSound c → IsSound (try_at p i fails c)
try_at-IsSound asking i true c v = set_phase-IsSound i asleep c refl v
try_at-IsSound asking i false c v = ask-IsSound i c.lock c refl v
try_at-IsSound asleep i fails c v = v
try_at-IsSound ended i fails c v = v
try_at-IsSound (leading s) i fails c v = v
try_at-IsSound (kept s) i fails c v = v

wake_at-IsSound : (p : Phase) (i : ℕ) (c : Cluster) → IsSound c → IsSound (wake_at p i c)
wake_at-IsSound asleep i c v = set_phase-IsSound i asking c refl v
wake_at-IsSound asking i c v = v
wake_at-IsSound ended i c v = v
wake_at-IsSound (leading s) i c v = v
wake_at-IsSound (kept s) i c v = v

end_at-IsSound :
    (p : Phase) (i : ℕ) (fails : Bool) (c : Cluster)
    → c.phases i ≡ p
    → IsSound c
    → IsSound (end_at p i fails c)
end_at-IsSound asking i fails c e v = set_phase-IsSound i ended c refl v
end_at-IsSound asleep i fails c e v = set_phase-IsSound i ended c refl v
end_at-IsSound ended i fails c e v = set_phase-IsSound i ended c refl v
end_at-IsSound (leading s) i true c e v = keep-IsSound i s c (ap session_of e) v
end_at-IsSound (leading s) i false c e v = let_go-IsSound i s c (ap session_of e) v
end_at-IsSound (kept s) i fails c e v = v

die_at-IsSound :
    (p : Phase) (i : ℕ) (c : Cluster) → c.phases i ≡ p → IsSound c → IsSound (die_at p i c)
die_at-IsSound asking i c e v = set_phase-IsSound i ended c refl v
die_at-IsSound asleep i c e v = set_phase-IsSound i ended c refl v
die_at-IsSound ended i c e v = set_phase-IsSound i ended c refl v
die_at-IsSound (leading s) i c e v = let_go-IsSound i s c (ap session_of e) v
die_at-IsSound (kept s) i c e v = let_go-IsSound i s c (ap session_of e) v

-- No connection is lost under a living leader.
abbrev pub Stays : Event → Type 0
Stays (disconnects i) = ⊥
Stays e = Unit {0}

abbrev pub AllStay : List Event → Type 0
AllStay [] = Unit {0}
AllStay (e ∷ es) = Stays e × AllStay es

step-IsSound : (e : Event) (c : Cluster) → Stays e → IsSound c → IsSound (step e c)
unfolding step
step-IsSound (tries i fails) c k v = try_at-IsSound (c.phases i) i fails c v
step-IsSound (wakes i) c k v = wake_at-IsSound (c.phases i) i c v
step-IsSound (ends i fails) c k v = end_at-IsSound (c.phases i) i fails c refl v
step-IsSound (dies i) c k v = die_at-IsSound (c.phases i) i c refl v
step-IsSound (disconnects i) c k v = absurd k

pub run-IsSound : (es : List Event) (c : Cluster) → AllStay es → IsSound c → IsSound (run es c)
unfolding run
run-IsSound [] c k v = v
run-IsSound (e ∷ es) c k v = run-IsSound es (step e c) k.1 (step-IsSound e c k.0 v)

pub initial-IsSound : IsSound initial
initial-IsSound = record { held = λ i s h. absurd (cc); one = λ i j s h h'. absurd (cc) }

pub leading-lock : (c : Cluster) (i s : ℕ) → IsSound c → c.phases i ≡ leading s → c.lock ≡ some s
leading-lock c i s v leads = v.held i s (ap session_of leads)

-- In whatever order the nodes ask for the lock, fail to, wake, end, fail to give the lock back and die, there is never more than
-- one node that drains the outbox, and it has the lock; as long as no leader loses the connection of
-- its lock.
pub single_leader :
    (es : List Event) (i j s t : ℕ)
    → AllStay es
    → (run es initial).phases i ≡ leading s
    → (run es initial).phases j ≡ leading t
    → (i ≡ j) × ((run es initial).lock ≡ some s)
single_leader es i j s t k h h' =
    let v = run-IsSound es initial k initial-IsSound in
    let a = leading-lock _ i s v h in
    let b = leading-lock _ j t v h' in
    let same : s ≡ t = ground (arith, a, b) in
    (v.one i j s (ap session_of h) (ap session_of h' ∙ rw same refl), a)
