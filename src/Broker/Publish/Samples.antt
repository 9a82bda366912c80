-- ===== src/Broker/Publish/Samples.antt =====
-- A stream with a duplicate window that is always reachable, for the tests of what is published to it
-- (internal/broker/broker.go).

use go_chat_backend.Common.{
  ℕ, ◌≡◌, refl, true, List, [], ◌∷◌, ◌++◌, arith, inl, inr, Bool-cases, if◌then◌else◌,
}
use go_chat_backend.Broker.Publish.{Stored, JetStream, same_text, has_message, is_recent}

abbrev pub keep : Stored → List Stored → List Stored
keep m ms = if is_recent m.stored_at m.message_id ms then ms else ms ++ m ∷ []

same_text-refl : (t : List ℕ) → same_text t t ≡ true
same_text-refl [] = refl
same_text-refl (c ∷ cs) = ground (arith, same_text-refl cs)

has_message-recent :
    (now : ℕ) (id : List ℕ) (ms : List Stored)
    → is_recent now id ms ≡ true
    → has_message id ms ≡ true
has_message-recent now id [] h = h
has_message-recent now id (m ∷ ms) h = ground (arith, has_message-recent now id ms)

has_message-last : (m : Stored) (ms : List Stored) → has_message m.message_id (ms ++ m ∷ []) ≡ true
has_message-last m [] = rw (same_text-refl m.message_id) refl
has_message-last m (n ∷ ms) = ground (arith, has_message-last m ms)

unfoldable pub memory : JetStream (List Stored)
unfolding same_text-refl has_message-recent has_message-last
memory = record {
  publish_msg = λ m ms. (true, keep m ms);
  stored = λ ms. ms;
  stored-publish_msg = λ m ms. elim (Bool-cases (is_recent m.stored_at m.message_id ms)) [
    | inl again ↦ inl (rw again refl)
    | inr new ↦ inr (rw new refl)
  ];
  acked-publish_msg = λ m ms h. elim (Bool-cases (is_recent m.stored_at m.message_id ms)) [
    | inl again ↦ rw again (has_message-recent m.stored_at m.message_id ms again)
    | inr new ↦ rw new (has_message-last m ms)
  ];
  recent-publish_msg = λ m ms h. rw h refl;
}
