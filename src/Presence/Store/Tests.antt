-- ===== src/Presence/Store/Tests.antt =====
-- The theorem on who is online, at a sorted set of keys and scores (internal/presence/store.go).

use go_chat_backend.Common.{◌-◌, ◌≡◌, refl, [], ◌∷◌}
use go_chat_backend.Common.Assoc.{string_key}
use go_chat_backend.Common.Rows.{select}
use go_chat_backend.Presence.Store.{ttl}
use go_chat_backend.Presence.Store.Online.{heard_of}
use go_chat_backend.Presence.Store.Samples.{beats}

heard_test : select (λ v. heard_of (135 - ttl) v beats) (1 ∷ 2 ∷ 3 ∷ []) ≡ 1 ∷ 3 ∷ []
unfolding select
heard_test = refl
