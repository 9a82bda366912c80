-- ===== src/Presence/Service.antt =====
-- The presence service behind gRPC (internal/presence/service.go).
use Prim.Native.String.{String}
use text.Mathlib.Text.{◌==◌ as str_eq}
use go_chat_backend.Common.{
  ℕ, Bool, true, false, Option, none, some, List, [], ltb, if◌then◌else◌, length,
}
use go_chat_backend.Presence.Client.{Status}
use go_chat_backend.Presence.Store.{SortedSet, Store, heartbeat, online}

abbrev pub max_users_per_call : ℕ
max_users_per_call = 10_000

module _ {S : Type 0} (redis : SortedSet S) where
  abbrev pub heartbeat_status : Bool × Store S → Status × Store S
  heartbeat_status (true, st) = (Status.ok, st)
  heartbeat_status (false, st) = (Status.unavailable, st)

  -- A request that cannot be right is InvalidArgument, which is one of the `other` codes.
  unfoldable pub heartbeat_rpc : Bool → ℕ → String → List ℕ → Store S → Status × Store S
  heartbeat_rpc fails now node users st =
      if str_eq node ""
      then (Status.other, st)
      else if ltb max_users_per_call (length users)
      then (Status.other, st)
      else heartbeat_status (heartbeat redis fails now node users st)

  abbrev pub online_status : Option (List ℕ) × Store S → Status × List ℕ × Store S
  online_status (none, st) = (Status.unavailable, [], st)
  online_status (some users, st) = (Status.ok, users, st)

  unfoldable pub online_rpc : Bool → ℕ → List ℕ → Store S → Status × List ℕ × Store S
  online_rpc fails now users st =
      if ltb max_users_per_call (length users)
      then (Status.other, [], st)
      else online_status (online redis fails now users st)
