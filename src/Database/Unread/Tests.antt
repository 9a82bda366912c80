-- ===== src/Database/Unread/Tests.antt =====
-- The theorems on the counters at deliveries that exercise them (internal/database/unread.go).

use go_chat_backend.Common.{ℕ, ◌≡◌, ◌+◌, refl, List, [], ◌∷◌}
use go_chat_backend.Common.Rows.{select, find, update}
use go_chat_backend.Database.{lost, refused}
use go_chat_backend.Database.Samples.{calm, two_members}
use go_chat_backend.Database.Unread.{has_claim, apply_unread, claim, bump_unread, bump_all}
use go_chat_backend.Database.Unread.Once.{count_in}
use go_chat_backend.Database.Unread.Redelivery.{
  Delivery, deliver_all, unread_total, unread-deliver_all,
}

-- The first try of message 7 loses its answer, the second is a repeat; message 8 is refused once.
abbrev first_try : Delivery
first_try = record { env = record (calm 10) { commit = lost }; message_id = 7 }

abbrev repeat : Delivery
repeat = record { env = calm 20; message_id = 7 }

abbrev refused_try : Delivery
refused_try = record { env = record (calm 30) { commit = refused }; message_id = 8 }

abbrev late : Delivery
late = record { env = calm 40; message_id = 8 }

abbrev four_deliveries : List Delivery
four_deliveries = first_try ∷ repeat ∷ refused_try ∷ late ∷ []

abbrev in_room_1 : ℕ → ℕ
in_room_1 m = 1

deliveries_test :
    count_in 1 2
      (deliver_all in_room_1 in_room_1 (λ m. m) four_deliveries two_members).tables.unread_counters
    ≡ 2
unfolding deliver_all apply_unread claim bump_unread bump_all find select update
deliveries_test = refl

unread-deliver_all_example :
    count_in 1 2
      (deliver_all in_room_1 in_room_1 (λ m. m) four_deliveries two_members).tables.unread_counters
    ≡ count_in 1 2 two_members.tables.unread_counters
      + unread_total in_room_1 in_room_1
          (λ m. m)
          two_members.tables
          1
          2
          (λ k. has_claim k two_members.tables)
          four_deliveries
unread-deliver_all_example =
    unread-deliver_all in_room_1 in_room_1 (λ m. m) 1 2 four_deliveries two_members
