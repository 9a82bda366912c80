-- ===== src/Server/Auth/Accounts.antt =====
-- Who can sign in (RegisterHandler and LoginHandler of internal/server/auth.go).
use Prim.Native.String.{String}
use go_chat_backend.Common.{
  ℕ, ◌≡◌, ◌⊎◌, refl, ap, ◌∙◌, true, false, Option, none, some, List, [], ◌∷◌, ◌++◌, arith, inl, inr,
  Option-cases, ◌==◌,
}
use go_chat_backend.Common.Rows.{find}
use go_chat_backend.Database.{User, Db, Env, ok, done, Result-cases}
use go_chat_backend.Database.Sessions.{
  by_username, by_hash, get_user_by_username, create_user, insert_user,
}
use go_chat_backend.Server.Bearer.{Text}
use go_chat_backend.Server.Auth.{
  Crypto, Clock, Weather, Credentials, keeps, sets, bind, login_handler, register_handler,
  issue_refresh_session, sign_access_token, refuses, after_lookup,
}
use go_chat_backend.Database.Messages.{is_none}
use go_chat_backend.Server.Auth.Opened.{issue_refresh_session-done}
use go_chat_backend.Database.Sessions.Lifetime.{with_user, create_user-ok, find-with_user}

-- Nobody of this name is there, or the password is not theirs.
abbrev pub IsStranger : Crypto → String → Option User → Type 0
IsStranger x password none = Unit {0}
IsStranger x password (some u) = x.matches u.password_hash password ≡ false

stranger-after_lookup :
    (x : Crypto) (t : Clock) (w : Weather) (random : Option Text) (c : Credentials) (db : Db)
    → w.user.fails 0 ≡ false
    → IsStranger x c.password (find (by_username c.username) db.tables.users)
    → after_lookup x t w random c.password (get_user_by_username w.user c.username db)
      ≡ refuses 401 keeps db
unfolding get_user_by_username
stranger-after_lookup x t w random c db g h = ground arith

-- A caller with a name that nobody has, and one with a wrong password, get the same 401 with no token
-- and no cookie, and the database is left as it was, also if the password is that of the dummy hash.
pub login-stranger :
    (x : Crypto) (t : Clock) (w : Weather) (random : Option Text) (c : Credentials) (db : Db)
    → bind (some c) ≡ some c
    → w.user.fails 0 ≡ false
    → IsStranger x c.password (find (by_username c.username) db.tables.users)
    → login_handler x t w random (some c) db ≡ refuses 401 keeps db
unfolding login_handler
login-stranger x t w random c db b g h = rw b (stranger-after_lookup x t w random c db g h)

bind-cases : (c : Credentials) → (bind (some c) ≡ none) ⊎ (bind (some c) ≡ some c)
unfolding bind
bind-cases c = ground arith

-- What a registration that was answered with 201 did.
register-ok :
    (x : Crypto) (env : Env) (c : Credentials) (db : Db)
    → (register_handler x env (some c) db).0 ≡ 201
    → (bind (some c) ≡ some c)
      × ((hash : String) × (x.hash_password c.password ≡ some hash)
          × ((register_handler x env (some c) db).1 ≡ (create_user env c.username hash db).1)
          × ((u : User) × ((create_user env c.username hash db).0 ≡ ok u)))
unfolding register_handler
register-ok x env c db h = elim (bind-cases c) [
  | inl bad ↦ absurd (ground arith)
  | inr good ↦ elim (Option-cases (x.hash_password c.password)) [
    | inl bad ↦ absurd (ground arith)
    | inr (hash, hashed) ↦ elim (Result-cases (create_user env c.username hash db).0) [
      | inl (u, made) ↦ (good, (hash, hashed, rw (good, hashed) (ground arith), (u, made)))
      | inr (e, bad) ↦ absurd (ground arith)
    ]
  ]
]

create_user-tokens :
    (env : Env) (username hash : String) (db : Db)
    → (create_user env username hash db).1.tables.refresh_tokens ≡ db.tables.refresh_tokens
unfolding create_user insert_user
create_user-tokens env username hash db = ground arith

known-append :
    (id : ℕ) (us : List User) (u : User)
    → u.id ≡ id
    → is_none (find (λ (v : User). v.id == id) (us ++ u ∷ [])) ≡ false
unfolding find
known-append id [] u h = ground arith
known-append id (v ∷ us) u h = ground (arith, known-append id us u h)

-- A login with the right password, from the rows that it needs.
login-known :
    (x : Crypto) (t : Clock) (w : Weather) (token access : Text) (c : Credentials) (u : User)
    (db : Db)
    → bind (some c) ≡ some c
    → w.user.fails 0 ≡ false
    → find (by_username c.username) db.tables.users ≡ some u
    → x.matches u.password_hash c.password ≡ true
    → sign_access_token x t u.id u.username ≡ some access
    → (issue_refresh_session x t w (some token) u.id db).0 ≡ ok token
    → (login_handler x t w (some token) (some c) db).0
      ≡ record { status = 200; token = some access; cookie = sets token }
unfolding login_handler get_user_by_username
login-known x t w token access c u db b g there right signed issued =
    rw (b, g, there, right, signed, issued) refl

module _ (x : Crypto) (t : Clock) (w : Weather) (env : Env) (token access : Text) (c : Credentials)
    (db : Db) (honest : (p h : String) → x.hash_password p ≡ some h → x.matches h p ≡ true)
    (registered : (register_handler x env (some c) db).0 ≡ 201) (g : w.user.fails 0 ≡ false)
    (g' : w.session.fails 0 ≡ false) (commits : w.session.commit ≡ done)
    (fresh : find (by_hash (x.hash_refresh_token token)) db.tables.refresh_tokens ≡ none)
    (signed : sign_access_token x t db.serials.users c.username ≡ some access) where
  -- Whoever registered, with an answer of 201, can log in with the same name and password: the answer
  -- is 200 with an access token for the new user's id and name, and the cookie of a new session; given
  -- that bcrypt accepts the password that it hashed, that the random token is new, that the access
  -- token can be signed and that the database answers.
  pub register-login :
      (login_handler x t w (some token) (some c) (register_handler x env (some c) db).1).0
      ≡ record { status = 200; token = some access; cookie = sets token }
  unfolding with_user
  register-login =
      let after = (register_handler x env (some c) db).1 in
      let r = register-ok x env c db registered in
      let hash = r.1.0 in
      let made = create_user-ok env c.username hash db r.1.3.0 r.1.3.1 in
      let users : after.tables.users ≡ with_user c.username hash db =
        ap (λ (d : Db). d.tables.users) r.1.2 ∙ made.0 in
      let u : User = record {
        id = db.serials.users;
        username = c.username;
        password_hash = hash;
      } in
      login-known x t w token access c u after r.0 g
        (ap (find (by_username c.username)) users ∙ find-with_user c.username hash db made.1)
        (honest c.password hash r.1.1) signed
        (issue_refresh_session-done x t w token u.id after g' commits
          (ap (λ (d : Db). find (by_hash (x.hash_refresh_token token)) d.tables.refresh_tokens)
              r.1.2
            ∙ ap (find (by_hash (x.hash_refresh_token token)))
                (create_user-tokens env c.username hash db)
            ∙ fresh)
          (ap (λ us. is_none (find (λ (v : User). v.id == u.id) us)) users
            ∙ known-append u.id db.tables.users u refl))
