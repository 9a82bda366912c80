-- ===== src/Broker/Consume/Fate.antt =====
-- What becomes of a message (internal/broker/consume.go).
use go_chat_backend.Common.{
  ℕ, zero, suc, ◌+◌, ◌≤◌, ◌≡◌, ◌⊎◌, refl, sym, ◌∙◌, subst, inl, inr, true, false, List, [], ◌∷◌,
  ◌++◌, arith, if◌then◌else◌, append_assoc, append-nil, ap,
}
use go_chat_backend.Broker.Consume.{
  Weather, Verdict, acked, ack_lost, terminated, term_lost, no_answer, nakked, Reason, DeadLetter,
  Broker, max_deliver, comes_back, deliver_one, deliveries_from, deliveries,
}
use go_chat_backend.Broker.Consume.Verdicts.{
  IsUp, IsReason, IsWorked, Delivered, deliver_one-Delivered,
}

-- Dead letters of deliveries whose Term was lost.
abbrev pub AllLost : (ℕ → Weather) → List DeadLetter → Type 0
AllLost ws [] = Unit {0}
AllLost ws (d ∷ ds) = ((ws d.delivered).term_arrives ≡ false) × AllLost ws ds

AllLost-append :
    (ws : ℕ → Weather) (a b : List DeadLetter) → AllLost ws a → AllLost ws b → AllLost ws (a ++ b)
AllLost-append ws [] b s t = t
AllLost-append ws (d ∷ a) b s t = (s.0, AllLost-append ws a b s.1 t)

-- The last dead letter is for the `n`-th delivery; the Terms of those before it were lost.
pub record IsLaidOut (ws : ℕ → Weather) (n : ℕ) (news : List DeadLetter) : Type 0 where
  pub reason : Reason
  pub older : List DeadLetter
  pub why : IsReason (ws n) n reason
  pub all : news ≡ older ++ record { reason = reason; delivered = n } ∷ []
  pub lost : AllLost ws older

abbrev pub IsSettled : (ℕ → Weather) → ℕ → List DeadLetter → Verdict → Type 0
IsSettled ws n news acked = IsWorked (ws n) × AllLost ws news
IsSettled ws n news ack_lost = IsWorked (ws n) × AllLost ws news
IsSettled ws n news terminated = IsLaidOut ws n news
IsSettled ws n news term_lost = IsLaidOut ws n news
IsSettled ws n news (nakked delay) = ⊥
IsSettled ws n news no_answer = ⊥

-- The last delivery that was made, the `n`-th, and the dead letters of all of them.
pub record Ended (ws : ℕ → Weather) (dead : List DeadLetter) (r : Verdict × Broker) : Type 0 where
  pub n : ℕ
  pub first : 1 ≤ n
  pub last : n ≤ max_deliver
  pub over : (comes_back r.0 ≡ false) ⊎ (n ≡ max_deliver)
  pub news : List DeadLetter
  pub added : r.1.dead ≡ dead ++ news
  pub settled : IsSettled ws n news r.0

settle_later :
    (ws : ℕ → Weather) (n : ℕ) (a news : List DeadLetter) (v : Verdict)
    → AllLost ws a
    → IsSettled ws n news v
    → IsSettled ws n (a ++ news) v
settle_later ws n a news acked l s = (s.0, AllLost-append ws a news l s.1)
settle_later ws n a news ack_lost l s = (s.0, AllLost-append ws a news l s.1)
settle_later ws n a news terminated l s = record {
  reason = s.reason;
  older = a ++ s.older;
  why = s.why;
  all = ap (λ x. a ++ x) s.all ∙ sym (append_assoc a s.older _);
  lost = AllLost-append ws a s.older l s.lost;
}
settle_later ws n a news term_lost l s = record {
  reason = s.reason;
  older = a ++ s.older;
  why = s.why;
  all = ap (λ x. a ++ x) s.all ∙ sym (append_assoc a s.older _);
  lost = AllLost-append ws a s.older l s.lost;
}
settle_later ws n a news (nakked delay) l s = s
settle_later ws n a news no_answer l s = s

Ended-later :
    (ws : ℕ → Weather) (dead a : List DeadLetter) (r : Verdict × Broker)
    → AllLost ws a
    → Ended ws (dead ++ a) r
    → Ended ws dead r
Ended-later ws dead a r l e = record {
  n = e.n;
  first = e.first;
  last = e.last;
  over = e.over;
  news = a ++ e.news;
  added = e.added ∙ append_assoc dead a e.news;
  settled = settle_later ws e.n a e.news r.0 l e.settled;
}

abbrev what_news :
    (ws : ℕ → Weather) (n : ℕ) (dead : List DeadLetter) (r : Verdict × Broker)
    → Delivered (ws n) n dead r
    → List DeadLetter
what_news ws n dead (acked, b) d = []
what_news ws n dead (ack_lost, b) d = []
what_news ws n dead (terminated, b) d = record { reason = d.0; delivered = n } ∷ []
what_news ws n dead (term_lost, b) d = record { reason = d.1.0; delivered = n } ∷ []
what_news ws n dead (nakked delay, b) d = []
what_news ws n dead (no_answer, b) d = []

added-what_news :
    (ws : ℕ → Weather) (n : ℕ) (dead : List DeadLetter) (r : Verdict × Broker)
    (d : Delivered (ws n) n dead r)
    → r.1.dead ≡ dead ++ what_news ws n dead r d
added-what_news ws n dead (acked, b) d = d.1 ∙ sym (append-nil dead)
added-what_news ws n dead (ack_lost, b) d = d.1 ∙ sym (append-nil dead)
added-what_news ws n dead (terminated, b) d = d.2
added-what_news ws n dead (term_lost, b) d = d.1.2
added-what_news ws n dead (nakked delay, b) d = d.1 ∙ sym (append-nil dead)
added-what_news ws n dead (no_answer, b) d = d.1 ∙ sym (append-nil dead)

what_news-IsSettled :
    (ws : ℕ → Weather) (n : ℕ) (dead : List DeadLetter) (r : Verdict × Broker)
    → ((comes_back r.0 ≡ false) ⊎ ((n ≡ max_deliver) × ((ws n).survives ≡ true)))
    → (d : Delivered (ws n) n dead r) → IsSettled ws n (what_news ws n dead r d) r.0
what_news-IsSettled ws n dead (acked, b) over d = (d.0, tt)
what_news-IsSettled ws n dead (ack_lost, b) over d = (d.0, tt)
what_news-IsSettled ws n dead (terminated, b) over d = record {
  reason = d.0;
  older = [];
  why = d.1;
  all = refl;
  lost = tt;
}
what_news-IsSettled ws n dead (term_lost, b) over d = record {
  reason = d.1.0;
  older = [];
  why = d.1.1;
  all = refl;
  lost = tt;
}
what_news-IsSettled ws n dead (nakked delay, b) over d = absurd (ground (arith, over, d.0))
what_news-IsSettled ws n dead (no_answer, b) over d = absurd (ground (arith, over, d.0))

-- The `n`-th delivery, if no other follows it.
stops_here :
    (ws : ℕ → Weather) (n : ℕ) (dead : List DeadLetter) (r : Verdict × Broker)
    → 1 ≤ n
    → n ≤ max_deliver
    → ((comes_back r.0 ≡ false) ⊎ ((n ≡ max_deliver) × ((ws n).survives ≡ true)))
    → Delivered (ws n) n dead r
    → Ended ws dead r
stops_here ws n dead r lo hi over d = record {
  n = n;
  first = lo;
  last = hi;
  over = elim over [ inl x ↦ inl x | inr (x, _) ↦ inr x ];
  news = what_news ws n dead r d;
  added = added-what_news ws n dead r d;
  settled = what_news-IsSettled ws n dead r over d;
}

again_or_end :
    (ws : ℕ → Weather) (n : ℕ) (dead : List DeadLetter) (now later : Verdict × Broker)
    → 1 ≤ n
    → n ≤ max_deliver
    → Delivered (ws n) n dead now
    → Ended ws now.1.dead later
    → Ended ws dead (if comes_back now.0 then later else now)
again_or_end ws n dead (acked, b) later lo hi d h =
    stops_here ws n dead (acked, b) lo hi (inl refl) d
again_or_end ws n dead (terminated, b) later lo hi d h =
    stops_here ws n dead (terminated, b) lo hi (inl refl) d
again_or_end ws n dead (ack_lost, b) later lo hi d h = subst (λ ds. Ended ws ds later) d.1 h
again_or_end ws n dead (nakked delay, b) later lo hi d h = subst (λ ds. Ended ws ds later) d.1 h
again_or_end ws n dead (no_answer, b) later lo hi d h = subst (λ ds. Ended ws ds later) d.1 h
again_or_end ws n dead (term_lost, b) later lo hi d h =
    Ended-later ws dead (record { reason = d.1.0; delivered = n } ∷ []) later (d.0, tt)
      (subst (λ ds. Ended ws ds later) d.1.2 h)

deliveries_from-Ended :
    (ws : ℕ → Weather) (left n : ℕ) (b : Broker)
    → ((k : ℕ) → IsUp (ws k))
    → (ws max_deliver).survives ≡ true
    → 1 ≤ n
    → n + left ≡ max_deliver
    → Ended ws b.dead (deliveries_from ws left n b)
unfolding deliveries_from
deliveries_from-Ended ws zero n b up alive lo all =
    let here : n ≡ max_deliver = omega (arith, all) in
    stops_here ws n b.dead _ lo (omega (arith, all)) (inr (here, rw here alive))
      (deliver_one-Delivered (ws n) n b (up n))
deliveries_from-Ended ws (suc left) n b up alive lo all =
    let now = deliver_one (ws n) n b in
    again_or_end ws n b.dead now (deliveries_from ws left (n + 1) now.1) lo (omega (arith, all))
      (deliver_one-Delivered (ws n) n b (up n))
      (deliveries_from-Ended ws left (n + 1) now.1 up alive (omega arith) (omega (arith, all)))

-- No message is lost, if each delivery has its metadata, the dead-letter stream takes every copy, and
-- the node lives through the fifth delivery, the last that JetStream makes; acks and Terms may be lost
-- and nodes die. At the last delivery that was made, the work was done; or the message went to the
-- dead letters, because it cannot be read, or because its work failed at the fifth. It is never left
-- put off. If JetStream has not heard of the end, that was the fifth delivery. All other dead letters
-- of the message are of deliveries whose Term was lost.
pub deliveries-Ended :
    (ws : ℕ → Weather) (b : Broker)
    → ((k : ℕ) → IsUp (ws k))
    → (ws max_deliver).survives ≡ true
    → Ended ws b.dead (deliveries ws b)
deliveries-Ended ws b up alive = deliveries_from-Ended ws 4 1 b up alive (omega arith) (omega arith)
