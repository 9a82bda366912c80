-- ===== src/Server/Auth.antt =====
-- Accounts, sessions and access tokens (internal/server/auth.go and internal/server/refresh.go).
-- bcrypt, SHA-256 and the JWT library are parameters, and so are the random bytes of a new session. A
-- time is a count of nanoseconds.

pub mod Accounts
pub mod Samples
pub mod Opened
pub mod Session
pub mod Logout
mod Tests
use Prim.Native.Char.{code}
use Prim.Native.String.{String}
use go_chat_backend.Common.{
  ℕ, ◌+◌, ◌*◌, Bool, true, false, not, ◌&&◌, ◌||◌, Option, none, some, List, [], ◌∷◌, leb,
  if◌then◌else◌, ◌==◌, length,
}
use go_chat_backend.Common.Rows.{find}
use go_chat_backend.Database.{
  User, RefreshToken, Db, Env, Error, Result, ok, err, Exec, pure, statement, gets, user_exists,
  user_not_found, refresh_token_not_found, failed, ◌>>=◌, ◌>>◌, continue,
}
use go_chat_backend.Database.Messages.{is_none}
use go_chat_backend.Database.Sessions.{
  create_user, get_user_by_username, create_refresh_token, get_valid_refresh_token,
  revoke_refresh_token, purge_expired_refresh_tokens,
}
use go_chat_backend.Server.Bearer.{Text, bearer_token}

pub record Claims : Type 0 where
  pub user_id : ℕ
  pub username : String
  pub subject : String
  pub issued_at : ℕ
  pub expires_at : ℕ

-- The libraries: bcrypt, whose hashing may refuse a password, SHA-256, and JWTs with the server's
-- key. `numeric_date` is the precision of a time in a token.
pub record Crypto : Type 0 where
  pub hash_password : String → Option String
  pub matches : String → String → Bool
  pub dummy_hash : String
  pub hash_refresh_token : Text → String
  pub sign : Claims → Option Text
  pub parse : ℕ → Text → Option Claims
  pub numeric_date : ℕ → ℕ

abbrev pub refresh_ttl : ℕ
refresh_ttl = 7 * 24 * 3600 * 1_000_000_000

-- The time of the request, and the life of an access token.
pub record Clock : Type 0 where
  pub now : ℕ
  pub token_ttl : ℕ

-- How the database behaves at each call of a handler.
pub record Weather : Type 0 where
  pub user : Env
  pub purge : Env
  pub session : Env

pub record Credentials : Type 0 where
  pub username : String
  pub password : String

-- The length of a text, as the validator counts it.
abbrev codes : String → List ℕ
codes String.[] = []
codes (String.◌∷◌ c s) = code c ∷ codes s

abbrev between : ℕ → ℕ → ℕ → Bool
between lo hi n = leb lo n && leb n hi

-- The binding tags; what cannot be read as credentials fails too.
unfoldable pub bind : Option Credentials → Option Credentials
bind none = none
bind (some c) =
    if between 3 64 (length (codes c.username)) && between 8 72 (length (codes c.password))
    then some c
    else none

abbrev pub registered : Result User × Db → ℕ × Db
registered (ok u, db) = (201, db)
registered (err user_exists, db) = (409, db)
registered (err e, db) = (500, db)

abbrev pub register_hashed : Env → String → Option String → Db → ℕ × Db
register_hashed env username none db = (500, db)
register_hashed env username (some hash) db = registered (create_user env username hash db)

abbrev pub register_bound : Crypto → Env → Option Credentials → Db → ℕ × Db
register_bound x env none db = (400, db)
register_bound x env (some c) db = register_hashed env c.username (x.hash_password c.password) db

-- The status of the answer.
unfoldable pub register_handler : Crypto → Env → Option Credentials → Db → ℕ × Db
register_handler x env body db = register_bound x env (bind body) db

-- What a response does to the refresh cookie of the browser.
pub data Cookie : Type 0 where
  keeps clears : Cookie
  sets : Text → Cookie

-- The answer of the routes of a session: an access token, or none.
pub record Reply : Type 0 where
  pub status : ℕ
  pub token : Option Text
  pub cookie : Cookie

abbrev pub refuses : ℕ → Cookie → Db → Reply × Db
refuses status cookie db = (record { status = status; token = none; cookie = cookie }, db)

unfoldable pub claims_of : Crypto → Clock → ℕ → String → Claims
claims_of x t user_id username = record {
  user_id = user_id;
  username = username;
  subject = username;
  issued_at = x.numeric_date t.now;
  expires_at = x.numeric_date (t.now + t.token_ttl);
}

unfoldable pub sign_access_token : Crypto → Clock → ℕ → String → Option Text
sign_access_token x t user_id username = x.sign (claims_of x t user_id username)

-- The random bytes as text, with their hash, or the failure of their source.
unfoldable pub new_refresh_token : Crypto → Option Text → Option (Text × String)
new_refresh_token x none = none
new_refresh_token x (some token) = some (token, x.hash_refresh_token token)

abbrev pub opened : Text → Result RefreshToken × Db → Result Text × Db
opened token (ok _, db) = (ok token, db)
opened token (err e, db) = (err e, db)

-- A failed purge is only logged.
abbrev pub open_session : Clock → Weather → ℕ → Option (Text × String) → Db → Result Text × Db
open_session t w user_id none db = (err failed, db)
open_session t w user_id (some (token, hash)) db = opened token (
    create_refresh_token w.session user_id hash (t.now + refresh_ttl)
      (purge_expired_refresh_tokens w.purge user_id db).1)

-- The token of the cookie that is set.
unfoldable pub issue_refresh_session :
    Crypto → Clock → Weather → Option Text → ℕ → Db → Result Text × Db
issue_refresh_session x t w random user_id db =
    open_session t w user_id (new_refresh_token x random) db

abbrev pub logged_in : Text → Result Text × Db → Reply × Db
logged_in access (ok token, db) =
    (record { status = 200; token = some access; cookie = sets token }, db)
logged_in access (err e, db) = refuses 500 keeps db

abbrev pub login_signed : Crypto → Clock → Weather → Option Text → ℕ → Option Text → Db → Reply × Db
login_signed x t w random user_id none db = refuses 500 keeps db
login_signed x t w random user_id (some access) db =
    logged_in access (issue_refresh_session x t w random user_id db)

-- A missing user costs a comparison too, with the dummy hash.
abbrev pub stored_hash : Crypto → Option User → String
stored_hash x none = x.dummy_hash
stored_hash x (some u) = u.password_hash

-- Without a user this would be a panic, which the recovery answers.
abbrev pub login_user : Crypto → Clock → Weather → Option Text → Option User → Db → Reply × Db
login_user x t w random none db = refuses 500 keeps db
login_user x t w random (some u) db =
    login_signed x t w random u.id (sign_access_token x t u.id u.username) db

abbrev pub check_password :
    Crypto → Clock → Weather → Option Text → String → Option User → Db → Reply × Db
check_password x t w random password user db =
    if not (x.matches (stored_hash x user) password) || is_none user
    then refuses 401 keeps db
    else login_user x t w random user db

abbrev pub after_lookup :
    Crypto → Clock → Weather → Option Text → String → Result User × Db → Reply × Db
after_lookup x t w random password (ok u, db) = check_password x t w random password (some u) db
after_lookup x t w random password (err user_not_found, db) =
    check_password x t w random password none db
after_lookup x t w random password (err e, db) = refuses 500 keeps db

abbrev pub login_bound :
    Crypto → Clock → Weather → Option Text → Option Credentials → Db → Reply × Db
login_bound x t w random none db = refuses 400 keeps db
login_bound x t w random (some c) db =
    after_lookup x t w random c.password (get_user_by_username w.user c.username db)

unfoldable pub login_handler :
    Crypto → Clock → Weather → Option Text → Option Credentials → Db → Reply × Db
login_handler x t w random body db = login_bound x t w random (bind body) db

-- A cookie that is not there, or is empty, is none.
abbrev pub cookie_token : Option Text → Option Text
cookie_token none = none
cookie_token (some []) = none
cookie_token (some (c ∷ cs)) = some (c ∷ cs)

-- The user that GORM loads beside the session, by a statement of its own.
abbrev pub name_of : Option User → String
name_of none = ""
name_of (some u) = u.username

abbrev pub session_user : Env → RefreshToken → Exec (ℕ × String)
session_user env r = do
  statement env 1
  found ← gets (λ t. find (λ (u : User). u.id == r.user_id) t.users)
  pure (r.user_id, name_of found)

abbrev pub minted : Option Text → Db → Reply × Db
minted none db = refuses 500 keeps db
minted (some access) db = (record { status = 200; token = some access; cookie = keeps }, db)

abbrev pub refreshed : Crypto → Clock → Result (ℕ × String) × Db → Reply × Db
refreshed x t (ok (user_id, username), db) = minted (sign_access_token x t user_id username) db
refreshed x t (err refresh_token_not_found, db) = refuses 401 clears db
refreshed x t (err e, db) = refuses 500 keeps db

abbrev pub refresh_with : Crypto → Clock → Env → Option Text → Db → Reply × Db
refresh_with x t env none db = refuses 401 keeps db
refresh_with x t env (some token) db =
    refreshed x t
      ((get_valid_refresh_token env (x.hash_refresh_token token) >>= session_user env) db)

unfoldable pub refresh_handler : Crypto → Clock → Env → Option Text → Db → Reply × Db
refresh_handler x t env cookie db = refresh_with x t env (cookie_token cookie) db

abbrev pub logged_out : Result (Unit {0}) × Db → ℕ × Cookie × Db
logged_out (ok _, db) = (200, clears, db)
logged_out (err e, db) = (500, keeps, db)

abbrev pub logout_with : Crypto → Env → Option Text → Db → ℕ × Cookie × Db
logout_with x env none db = (200, clears, db)
logout_with x env (some token) db =
    logged_out (revoke_refresh_token env (x.hash_refresh_token token) db)

-- The status, the cookie and the database.
unfoldable pub logout_handler : Crypto → Env → Option Text → Db → ℕ × Cookie × Db
logout_handler x env cookie db = logout_with x env (cookie_token cookie) db

-- The library checks the signature, the algorithm and that the token has an expiry to come.
unfoldable pub parse_access_token : Crypto → ℕ → Text → Option Claims
parse_access_token x now token = x.parse now token

abbrev pub identify : Crypto → ℕ → Option Text → Option Claims
identify x now none = none
identify x now (some token) = parse_access_token x now token

-- The caller that the handlers behind the check see; without one the answer is 401.
unfoldable pub auth_middleware : Crypto → ℕ → Text → Option Claims
auth_middleware x now header = identify x now (bearer_token header)

abbrev pub socket_token : Option Text → Text → Option Text
socket_token (some token) query = some token
socket_token none [] = none
socket_token none (c ∷ cs) = some (c ∷ cs)

-- A header first, and then the query, of a request for a socket.
unfoldable pub ws_access_token : Text → Text → Option Text
ws_access_token header query = socket_token (bearer_token header) query
