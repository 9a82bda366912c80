-- ===== src/Database/Sessions.antt =====
-- Users and login sessions (CreateUser, GetUserByUsername and GetUserByID of
-- internal/database/database.go, and internal/database/refresh_tokens.go).
pub mod Lifetime
mod Tests
use Prim.Native.String.{String}
use text.Mathlib.Text.{◌==◌ as str_eq}
use go_chat_backend.Common.{
  ℕ, ◌+◌, Bool, true, false, not, ◌&&◌, ◌||◌, Option, none, some, List, [], ◌∷◌, ◌++◌, ltb, leb,
  if◌then◌else◌, ◌==◌,
}
use go_chat_backend.Common.Rows.{select, find, update}
use go_chat_backend.Database.{
  User, RefreshToken, Tables, Db, Env, Error, Result, ok, err, Exec, pure, raise, statement, gets,
  transaction, ◌>>=◌, ◌>>◌, continue, failed, duplicated_key, user_exists, user_not_found,
  refresh_token_not_found,
}
use go_chat_backend.Database.Messages.{is_some, is_none}

abbrev pub by_username : String → User → Bool
by_username username u = str_eq u.username username

-- The unique index on the name refuses the row, and its id stays used.
unfoldable pub insert_user : String → String → Exec User
insert_user username password_hash db =
    let u : User = record {
      id = db.serials.users;
      username = username;
      password_hash = password_hash;
    } in
    let used = record db.serials { users = db.serials.users + 1 } in
    if is_some (find (by_username username) db.tables.users)
    then (err duplicated_key, record db { serials = used })
    else (
      ok u,
      record { tables = record db.tables { users = db.tables.users ++ u ∷ [] }; serials = used },
    )

-- gorm.ErrDuplicatedKey becomes ErrUserExists.
abbrev pub as_user_exists : {A : Type 0} → Result A × Db → Result A × Db
as_user_exists (err duplicated_key, db) = (err user_exists, db)
as_user_exists r = r

unfoldable pub create_user : Env → String → String → Exec User
create_user env username password_hash db =
    as_user_exists (transaction env (statement env 0 >> insert_user username password_hash) db)

-- gorm.ErrRecordNotFound becomes the error given.
abbrev pub or_missing : {A : Type 0} → Error → Option A → Exec A
or_missing e none = raise e
or_missing e (some a) = pure a

unfoldable pub get_user_by_username : Env → String → Exec User
get_user_by_username env username = do
  statement env 0
  found ← gets (λ t. find (by_username username) t.users)
  or_missing user_not_found found

unfoldable pub get_user_by_id : Env → ℕ → Exec User
get_user_by_id env id = do
  statement env 0
  found ← gets (λ t. find (λ (u : User). u.id == id) t.users)
  or_missing user_not_found found

abbrev pub by_hash : String → RefreshToken → Bool
by_hash token_hash t = str_eq t.token_hash token_hash

-- The unique index on the hash.
unfoldable pub insert_token : Env → ℕ → String → ℕ → Exec RefreshToken
insert_token env user_id token_hash expires_at db =
    let t : RefreshToken = record {
      id = db.serials.refresh_tokens;
      user_id = user_id;
      token_hash = token_hash;
      expires_at = expires_at;
      created_at = env.now;
      revoked_at = none;
    } in
    let used = record db.serials { refresh_tokens = db.serials.refresh_tokens + 1 } in
    if is_some (find (by_hash token_hash) db.tables.refresh_tokens)
    then (err duplicated_key, record db { serials = used })
    else if is_none (find (λ (u : User). u.id == user_id) db.tables.users)
    then (err failed, record db { serials = used })
    else (
      ok t,
      record {
        tables = record db.tables { refresh_tokens = db.tables.refresh_tokens ++ t ∷ [] };
        serials = used;
      },
    )

unfoldable pub create_refresh_token : Env → ℕ → String → ℕ → Exec RefreshToken
create_refresh_token env user_id token_hash expires_at =
    transaction env (statement env 0 >> insert_token env user_id token_hash expires_at)

-- revoked_at IS NULL AND expires_at > now
abbrev pub is_live : ℕ → RefreshToken → Bool
is_live now t = is_none t.revoked_at && ltb now t.expires_at

unfoldable pub get_valid_refresh_token : Env → String → Exec RefreshToken
get_valid_refresh_token env token_hash = do
  statement env 0
  found ←
      gets (λ t.
        find (λ (r : RefreshToken). by_hash token_hash r && is_live env.now r) t.refresh_tokens)
  or_missing refresh_token_not_found found

abbrev pub set_tokens : (List RefreshToken → List RefreshToken) → Exec (Unit {0})
set_tokens f db =
    (ok tt, record db { tables = record db.tables { refresh_tokens = f db.tables.refresh_tokens } })

abbrev pub revoked : ℕ → RefreshToken → RefreshToken
revoked now t = record t { revoked_at = some now }

unfoldable pub revoke_refresh_token : Env → String → Exec (Unit {0})
revoke_refresh_token env token_hash = transaction env (
    statement env 0
    >> set_tokens (
        update (λ (t : RefreshToken). by_hash token_hash t && is_none t.revoked_at)
          (revoked env.now)))

-- user_id = ? AND (expires_at <= now OR revoked_at IS NOT NULL)
abbrev pub is_dead_of : ℕ → ℕ → RefreshToken → Bool
is_dead_of user_id now t = t.user_id == user_id && (leb t.expires_at now || is_some t.revoked_at)

unfoldable pub purge_expired_refresh_tokens : Env → ℕ → Exec (Unit {0})
purge_expired_refresh_tokens env user_id = transaction env (
    statement env 0
    >> set_tokens (select (λ (t : RefreshToken). not (is_dead_of user_id env.now t))))
