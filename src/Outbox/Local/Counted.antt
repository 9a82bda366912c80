-- ===== src/Outbox/Local/Counted.antt =====
-- What the unread counters hold after some work: each message that was newly claimed, once
-- (internal/database/unread.go).
use go_chat_backend.Common.{
  ℕ, ◌+◌, ◌≡◌, refl, ap, sym, ◌∙◌, Bool, true, false, not, ◌||◌, List, [], ◌∷◌, ◌++◌, arith, ◌==◌,
  if◌then◌else◌, inl, inr, Bool-cases,
}
use go_chat_backend.Event.{MessageCreated}
use go_chat_backend.Database.{Tables, Db, Env, ok}
use go_chat_backend.Database.Unread.{receivers, has_claim, claim, bump_unread, apply_unread}
use go_chat_backend.Database.Unread.Once.{count_in, occurrences, count_in-bump_all}
use go_chat_backend.Database.Unread.Redelivery.{
  takes_effect, counted, apply_unread-tables, has_claim-counted,
}
use go_chat_backend.Outbox.Local.{apply_event}

-- A message is among the events.
abbrev pub is_among : List MessageCreated → ℕ → Bool
is_among [] k = false
is_among (ev ∷ evs) k = ev.message_id == k || is_among evs k

-- What an event adds to a user's counter in a room: one for each row that makes the user a member of
-- the event's room, and nothing for the sender.
abbrev pub share : Tables → ℕ → ℕ → MessageCreated → ℕ
share t c u ev =
    if ev.conversation_id == c
    then occurrences u (receivers ev.conversation_id ev.sender_id t)
    else 0

abbrev pub tally : Tables → ℕ → ℕ → List MessageCreated → ℕ
tally t c u [] = 0
tally t c u (ev ∷ evs) = share t c u ev + tally t c u evs

-- None of the messages was seen before, and none stands twice.
abbrev pub Fresh : (ℕ → Bool) → List MessageCreated → Type 0
Fresh seen [] = Unit {0}
Fresh seen (ev ∷ evs) = (seen ev.message_id ≡ false) × Fresh (λ k. seen k || ev.message_id == k) evs

-- Each of the events is one for which this holds.
abbrev pub AllEvents : (MessageCreated → Type 0) → List MessageCreated → Type 0
AllEvents p [] = Unit {0}
AllEvents p (ev ∷ evs) = p ev × AllEvents p evs

pub AllEvents-append :
    (p : MessageCreated → Type 0) (a b : List MessageCreated)
    → AllEvents p a
    → AllEvents p b
    → AllEvents p (a ++ b)
AllEvents-append p [] b s t = t
AllEvents-append p (ev ∷ a) b s t = (s.0, AllEvents-append p a b s.1 t)

pub AllEvents-imp :
    (p q : MessageCreated → Type 0) (a : List MessageCreated)
    → ((ev : MessageCreated) → p ev → q ev)
    → AllEvents p a
    → AllEvents q a
AllEvents-imp p q [] f s = tt
AllEvents-imp p q (ev ∷ a) f s = (f ev s.0, AllEvents-imp p q a f s.1)

pub record Counted (t t' : Tables) (evs : List MessageCreated) : Type 0 where
  pub claims : (k : ℕ) → has_claim k t' ≡ (has_claim k t || is_among evs k)
  pub once : Fresh (λ k. has_claim k t) evs
  pub counts :
      (c u : ℕ) → count_in c u t'.unread_counters ≡ count_in c u t.unread_counters + tally t c u evs
  pub members : t'.conversation_members ≡ t.conversation_members

pub Counted-refl : (t : Tables) → Counted t t []
Counted-refl t = record {
  claims = λ k. ground arith;
  once = tt;
  counts = λ c u. omega arith;
  members = refl;
}

is_among-append :
    (a b : List MessageCreated) (k : ℕ) → is_among (a ++ b) k ≡ (is_among a k || is_among b k)
is_among-append [] b k = refl
is_among-append (ev ∷ a) b k = ground (arith, is_among-append a b k)

Fresh-same :
    (p q : ℕ → Bool) (evs : List MessageCreated) → ((k : ℕ) → p k ≡ q k) → Fresh p evs → Fresh q evs
Fresh-same p q [] h f = tt
Fresh-same p q (ev ∷ evs) h f = (
  sym (h ev.message_id) ∙ f.0,
  Fresh-same (λ k. p k || ev.message_id == k) (λ k. q k || ev.message_id == k) evs
      (λ k. ap (λ b. b || ev.message_id == k) (h k)) f.1,
)

Fresh-append :
    (seen : ℕ → Bool) (a b : List MessageCreated)
    → Fresh seen a
    → Fresh (λ k. seen k || is_among a k) b
    → Fresh seen (a ++ b)
Fresh-append seen [] b f g = Fresh-same _ _ b (λ k. ground arith) g
Fresh-append seen (ev ∷ a) b f g = (
  f.0,
  Fresh-append (λ k. seen k || ev.message_id == k) a b f.1 (Fresh-same _ _ b (λ k. ground arith) g),
)

tally-append :
    (t : Tables) (c u : ℕ) (a b : List MessageCreated)
    → tally t c u (a ++ b) ≡ tally t c u a + tally t c u b
tally-append t c u [] b = omega arith
tally-append t c u (ev ∷ a) b = omega (arith, tally-append t c u a b)

tally-members :
    (t t' : Tables) (c u : ℕ) (evs : List MessageCreated)
    → t'.conversation_members ≡ t.conversation_members
    → tally t' c u evs ≡ tally t c u evs
tally-members t t' c u evs h = ap (λ ms. tally (record t { conversation_members = ms }) c u evs) h

pub Counted-trans :
    (t t' t'' : Tables) (a b : List MessageCreated)
    → Counted t t' a
    → Counted t' t'' b
    → Counted t t'' (a ++ b)
Counted-trans t t' t'' a b x y = record {
  claims = λ k. ground (arith, x.claims k, y.claims k, is_among-append a b k);
  once = Fresh-append _ a b x.once (Fresh-same _ _ b x.claims y.once);
  counts = λ c u. omega (
    arith,
    x.counts c u,
    y.counts c u,
    tally-append t c u a b,
    tally-members t t' c u b x.members,
  );
  members = y.members ∙ x.members;
}

-- The events that one call counts.
abbrev pub counted_by : Env → MessageCreated → Db → List MessageCreated
counted_by env ev db =
    if has_claim ev.message_id db.tables || not (takes_effect env) then [] else ev ∷ []

pub counted_by-AllEvents :
    (p : MessageCreated → Type 0) (env : Env) (ev : MessageCreated) (db : Db)
    → p ev
    → AllEvents p (counted_by env ev db)
counted_by-AllEvents p env ev db h =
    pick (has_claim ev.message_id db.tables || not (takes_effect env))
  where
    pick : (b : Bool) → AllEvents p (if b then [] else ev ∷ [])
    pick true = tt
    pick false = (h, tt)

counted-Counted :
    (now : ℕ) (ev : MessageCreated) (t : Tables)
    → has_claim ev.message_id t ≡ false
    → Counted t (counted now ev.message_id ev.conversation_id ev.sender_id ev.seq t) (ev ∷ [])
counted-Counted now ev t new = record {
  claims = λ k.
      has_claim-counted (λ m. 0) (λ m. 0) (λ m. 0) now ev.message_id k ev.conversation_id
        ev.sender_id ev.seq t
      ∙ ground arith;
  once = (new, tt);
  counts = λ c u.
      count_in-bump_all now ev.seq ev.conversation_id c u
        (receivers ev.conversation_id ev.sender_id t) t.unread_counters
      ∙ omega arith;
  members = refl;
}

pub apply-Counted :
    (env : Env) (ev : MessageCreated) (db : Db)
    → Counted db.tables (apply_event env ev db).1.tables (counted_by env ev db)
unfolding apply_event
apply-Counted env ev db =
    elim (Bool-cases (has_claim ev.message_id db.tables || not (takes_effect env))) [
      | inl skip ↦
          rw (apply_unread-tables env ev.message_id ev.conversation_id ev.sender_id ev.seq db, skip)
            (Counted-refl db.tables)
      | inr new ↦
          rw (apply_unread-tables env ev.message_id ev.conversation_id ev.sender_id ev.seq db, new)
            (counted-Counted env.now ev db.tables (ground arith))
    ]

apply-takes_effect :
    (env : Env) (ev : MessageCreated) (db : Db) (n : ℕ)
    → (apply_event env ev db).0 ≡ ok n
    → has_claim ev.message_id db.tables ≡ false
    → takes_effect env ≡ true
unfolding apply_event apply_unread claim bump_unread
apply-takes_effect env ev db n h new = ground arith

-- A call that reports no error leaves the message claimed.
pub apply-claimed :
    (env : Env) (ev : MessageCreated) (db : Db) (n : ℕ)
    → (apply_event env ev db).0 ≡ ok n
    → has_claim ev.message_id (apply_event env ev db).1.tables ≡ true
apply-claimed env ev db n h = elim (Bool-cases (has_claim ev.message_id db.tables)) [
  | inl old ↦ (apply-Counted env ev db).claims ev.message_id ∙ rw old refl
  | inr new ↦
      (apply-Counted env ev db).claims ev.message_id
      ∙ rw (new, apply-takes_effect env ev db n h new) (ground arith)
]
