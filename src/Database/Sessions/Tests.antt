-- ===== src/Database/Sessions/Tests.antt =====
-- The theorems on users and sessions at calls that exercise them (internal/database/refresh_tokens.go
-- and internal/database/database.go).

use go_chat_backend.Common.Assoc.{string_key}
use go_chat_backend.Common.{◌≡◌, refl, none, [], ◌∷◌}
use go_chat_backend.Common.Rows.{find}
use go_chat_backend.Database.{User, RefreshToken, Db, ok, empty}
use go_chat_backend.Database.Samples.{calm, two_members}
use go_chat_backend.Database.Sessions.{insert_user, create_user, revoke_refresh_token}

abbrev session : RefreshToken
session = record {
  id = 1;
  user_id = 1;
  token_hash = "h1";
  expires_at = 100;
  created_at = 5;
  revoked_at = none;
}

-- One session that lives until 100 and one that ended at 50.
abbrev logged_in : Db
logged_in = record two_members {
  tables = record two_members.tables {
    refresh_tokens = session ∷ record session { id = 2; token_hash = "h2"; expires_at = 50 } ∷ [];
  };
}

revoke_done : (revoke_refresh_token (calm 60) "h1" logged_in).0 ≡ ok tt
unfolding revoke_refresh_token
revoke_done = refl

abbrev first_user : User
first_user = record { id = 1; username = "ann"; password_hash = "x" }

made : (create_user (calm 5) "ann" "x" empty).0 ≡ ok first_user
unfolding create_user insert_user find
made = refl
