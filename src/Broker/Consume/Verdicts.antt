-- ===== src/Broker/Consume/Verdicts.antt =====
-- What one delivery of a message comes to (internal/broker/consume.go).
use go_chat_backend.Common.{
  ℕ, ◌+◌, ◌≤◌, ◌<◌, ◌≡◌, refl, subst, inl, inr, Bool, true, false, List, [], ◌∷◌, ◌++◌, arith, leb,
  ltb, if◌then◌else◌, Bool-cases,
}
use go_chat_backend.Broker.Consume.{
  Weather, Verdict, acked, ack_lost, terminated, term_lost, no_answer, nakked, Reason,
  decode_envelope, apply_failed, DeadLetter, Broker, max_deliver, dead_letter, handle_unread,
  count_redelivery, after_metadata, after_apply, deliver_one,
}

-- JetStream's metadata is there and the dead-letter stream takes every copy.
pub record IsUp (w : Weather) : Type 0 where
  pub metadata : w.has_metadata ≡ true
  pub dead_letters : w.dead_letters ≡ true

-- Why a message went to the dead letters at its `n`-th delivery.
abbrev pub IsReason : Weather → ℕ → Reason → Type 0
IsReason w n decode_envelope = w.parses ≡ false
IsReason w n apply_failed = (w.parses ≡ true) × (w.applies ≡ false) × (max_deliver ≤ n)

abbrev pub IsDead : Weather → ℕ → List DeadLetter → Broker → Type 0
IsDead w n dead b =
    (reason : Reason) × IsReason w n reason
    × (b.dead ≡ dead ++ record { reason = reason; delivered = n } ∷ [])

abbrev pub IsWorked : Weather → Type 0
IsWorked w = (w.parses ≡ true) × (w.applies ≡ true)

-- One delivery.
abbrev pub Delivered : Weather → ℕ → List DeadLetter → Verdict × Broker → Type 0
Delivered w n dead (acked, b) = IsWorked w × (b.dead ≡ dead)
Delivered w n dead (ack_lost, b) = IsWorked w × (b.dead ≡ dead)
Delivered w n dead (terminated, b) = IsDead w n dead b
Delivered w n dead (term_lost, b) = (w.term_arrives ≡ false) × IsDead w n dead b
Delivered w n dead (nakked delay, b) = (n < max_deliver) × (b.dead ≡ dead)
Delivered w n dead (no_answer, b) = (w.survives ≡ false) × (b.dead ≡ dead)

count_redelivery-dead : (n : ℕ) (b : Broker) → (count_redelivery n b).dead ≡ b.dead
count_redelivery-dead n b = elim (Bool-cases (ltb 1 n)) [
  | inl again ↦ rw again refl
  | inr new ↦ rw new refl
]

if_both :
    {A : Type 0} (P : A → Type 0) (c : Bool) (x y : A)
    → (c ≡ true → P x)
    → (c ≡ false → P y)
    → P (if c then x else y)
if_both P true x y s t = s refl
if_both P false x y s t = t refl

dead_letter-Delivered :
    (w : Weather) (n : ℕ) (reason : Reason) (b : Broker)
    → w.dead_letters ≡ true
    → IsReason w n reason
    → Delivered w n b.dead (dead_letter w n reason b)
unfolding dead_letter
dead_letter-Delivered w n reason b up why =
    if_both (Delivered w n b.dead) w.dead_letters _ _
      (λ took.
        if_both
          (λ v. Delivered w n b.dead (
            v,
            record b {
              dead_lettered = b.dead_lettered + 1;
              dead = b.dead ++ record { reason = reason; delivered = n } ∷ [];
            },
          ))
          w.term_arrives _ _ (λ told. (reason, why, refl)) (λ lost. (lost, (reason, why, refl))))
      (λ refused. absurd (ground (arith, refused, up)))

after_apply-Delivered :
    (w : Weather) (n : ℕ) (b : Broker)
    → w.dead_letters ≡ true
    → w.parses ≡ true
    → Delivered w n b.dead (after_apply w n b)
after_apply-Delivered w n b up good =
    if_both (Delivered w n b.dead) w.applies _ _
      (λ done.
        if_both (Delivered w n b.dead) w.ack_arrives _ _ (λ told. ((good, done), refl))
          (λ lost. ((good, done), refl)))
      (λ failed.
        if_both (Delivered w n b.dead) (leb max_deliver n) _ _
          (λ spent.
            dead_letter-Delivered w n apply_failed b up (good, failed, ground (arith, spent)))
          (λ more. (ground (arith, more), refl)))

after_metadata-Delivered :
    (w : Weather) (n : ℕ) (b : Broker)
    → w.dead_letters ≡ true
    → Delivered w n b.dead (after_metadata w n b)
after_metadata-Delivered w n b up =
    if_both (Delivered w n b.dead) w.parses _ _ (λ good. after_apply-Delivered w n b up good)
      (λ bad. dead_letter-Delivered w n decode_envelope b up bad)

pub deliver_one-Delivered :
    (w : Weather) (n : ℕ) (b : Broker) → IsUp w → Delivered w n b.dead (deliver_one w n b)
unfolding deliver_one handle_unread
deliver_one-Delivered w n b up =
    if_both (Delivered w n b.dead) w.survives _ _
      (λ alive.
        if_both (Delivered w n b.dead) w.has_metadata _ _
          (λ there.
            subst (λ ds. Delivered w n ds (after_metadata w n (count_redelivery n b)))
              (count_redelivery-dead n b)
              (after_metadata-Delivered w n (count_redelivery n b) up.dead_letters))
          (λ bare. absurd (ground (arith, bare, up.metadata))))
      (λ gone. (gone, refl))
