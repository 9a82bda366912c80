-- ===== src/Server/Auth/Session.antt =====
-- The life of a session, from login to its end (internal/server/refresh.go and
-- internal/database/refresh_tokens.go).
use Prim.Native.String.{String}
use go_chat_backend.Common.{
  ℕ, ◌+◌, ◌≡◌, refl, ap, sym, ◌∙◌, false, none, some, ◌∷◌, arith, inl, inr, Bool-cases,
  Option-cases, ltb, ◌==◌, if◌then◌else◌,
}
use go_chat_backend.Common.Rows.{find}
use go_chat_backend.Database.{User, RefreshToken, Db, Env, Result, ok}
use go_chat_backend.Database.Sessions.{
  by_username, create_refresh_token, get_valid_refresh_token, purge_expired_refresh_tokens,
  get_user_by_username,
}
use go_chat_backend.Database.Sessions.Lifetime.{valid}
use go_chat_backend.Server.Bearer.{Text}
use go_chat_backend.Server.Auth.{
  Crypto, Clock, Weather, Credentials, clears, bind, login_handler, after_lookup, login_bound,
  issue_refresh_session, new_refresh_token, sign_access_token, refuses, refresh_handler, minted,
  refresh_ttl, name_of,
}
use go_chat_backend.Server.Auth.Opened.{
  row_of, create_refresh_token-ok, purge-users, create_refresh_token-cases, find-session,
}

bind-same : (c c' : Credentials) → bind (some c) ≡ some c' → c' ≡ c
unfolding bind
bind-same c c' h = ground arith

-- The session that a login writes.
abbrev session_of : Crypto → Clock → Weather → Text → ℕ → Db → Result RefreshToken × Db
session_of x t w token user_id db =
    create_refresh_token w.session user_id (x.hash_refresh_token token) (t.now + refresh_ttl)
      (purge_expired_refresh_tokens w.purge user_id db).1

after_lookup-ok :
    (x : Crypto) (t : Clock) (w : Weather) (token : Text) (password : String) (u : User)
    (username : String) (db : Db)
    → (after_lookup x t w (some token) password (get_user_by_username w.user username db)).0.status
      ≡ 200
    → find (by_username username) db.tables.users ≡ some u
    → ((after_lookup x t w (some token) password (get_user_by_username w.user username db)).1
        ≡ (session_of x t w token u.id db).1)
      × ((session_of x t w token u.id db).0
          ≡ ok (
              row_of w.session u.id
                (x.hash_refresh_token token)
                (t.now + refresh_ttl)
                (purge_expired_refresh_tokens w.purge u.id db).1))
unfolding get_user_by_username issue_refresh_session new_refresh_token
after_lookup-ok x t w token password u username db h there =
    elim (create_refresh_token-cases w.session u.id (x.hash_refresh_token token)
      (t.now + refresh_ttl) (purge_expired_refresh_tokens w.purge u.id db).1) [
        | inl fine ↦ (ground arith, fine)
        | inr (e, bad) ↦ absurd (ground arith)
      ]

login-ok :
    (x : Crypto) (t : Clock) (w : Weather) (token : Text) (c : Credentials) (u : User) (db : Db)
    → (login_handler x t w (some token) (some c) db).0.status ≡ 200
    → find (by_username c.username) db.tables.users ≡ some u
    → ((login_handler x t w (some token) (some c) db).1 ≡ (session_of x t w token u.id db).1)
      × ((session_of x t w token u.id db).0
          ≡ ok (
              row_of w.session u.id
                (x.hash_refresh_token token)
                (t.now + refresh_ttl)
                (purge_expired_refresh_tokens w.purge u.id db).1))
unfolding login_handler
login-ok x t w token c u db h there = elim (Option-cases (bind (some c))) [
  | inl bad ↦ absurd (ground arith)
  | inr (c', good) ↦ rw (good) (
      after_lookup-ok x t w token c'.password u c'.username db
        (ap (λ b. (login_bound x t w (some token) b db).0.status) (sym good) ∙ h)
        (ap (λ d. find (by_username d.username) db.tables.users) (bind-same c c' good) ∙ there))
]

pub refresh-found :
    (x : Crypto) (t : Clock) (env : Env) (ch : ℕ) (chars : Text) (r : RefreshToken) (db : Db)
    → env.fails 0 ≡ false
    → env.fails 1 ≡ false
    → find (valid (x.hash_refresh_token (ch ∷ chars)) env.now) db.tables.refresh_tokens ≡ some r
    → refresh_handler x t env (some (ch ∷ chars)) db
      ≡ minted
          (sign_access_token x t r.user_id
            (name_of (find (λ (v : User). v.id == r.user_id) db.tables.users)))
          db
unfolding refresh_handler get_valid_refresh_token
refresh-found x t env ch chars r db g g' there = rw (g, there, g') refl

pub refresh-gone :
    (x : Crypto) (t : Clock) (env : Env) (ch : ℕ) (chars : Text) (db : Db)
    → env.fails 0 ≡ false
    → find (valid (x.hash_refresh_token (ch ∷ chars)) env.now) db.tables.refresh_tokens ≡ none
    → refresh_handler x t env (some (ch ∷ chars)) db ≡ refuses 401 clears db
unfolding refresh_handler get_valid_refresh_token
refresh-gone x t env ch chars db g gone = rw (g, gone) refl

module _ (x : Crypto) (t later : Clock) (w : Weather) (env : Env) (ch : ℕ) (chars : Text)
    (c : Credentials) (u : User) (db : Db) where
  -- After a login that was answered with 200, the cookie that it set is worth a new access token of
  -- the same user at any time in the next seven days, and from then on a 401 that clears the cookie;
  -- provided that ids of users do not repeat and the database answers.
  pub login-refresh :
      let after = (login_handler x t w (some (ch ∷ chars)) (some c) db).1 in
      (login_handler x t w (some (ch ∷ chars)) (some c) db).0.status ≡ 200
      → find (by_username c.username) db.tables.users ≡ some u
      → find (λ (v : User). v.id == u.id) db.tables.users ≡ some u
      → env.fails 0 ≡ false
      → env.fails 1 ≡ false
      → refresh_handler x later env (some (ch ∷ chars)) after ≡ (
          if ltb env.now (t.now + refresh_ttl)
          then minted (sign_access_token x later u.id u.username) after
          else refuses 401 clears after)
  login-refresh h named known g g' =
      let hash = x.hash_refresh_token (ch ∷ chars) in
      let expires_at : ℕ = t.now + refresh_ttl in
      let before = (purge_expired_refresh_tokens w.purge u.id db).1 in
      let after = (login_handler x t w (some (ch ∷ chars)) (some c) db).1 in
      let made = login-ok x t w (ch ∷ chars) c u db h named in
      let found =
        ap (λ (d : Db). find (valid hash env.now) d.tables.refresh_tokens) made.0
        ∙ find-session hash env.now u.id expires_at w.session before made.1 in
      let users : after.tables.users ≡ db.tables.users =
        ap (λ (d : Db). d.tables.users) made.0
        ∙ (create_refresh_token-ok w.session u.id hash expires_at before _ made.1).2
        ∙ purge-users w.purge u.id db in
      elim (Bool-cases (ltb env.now expires_at)) [
        | inl live ↦ rw live (
            refresh-found x later env ch chars (row_of w.session u.id hash expires_at before) after
              g g' (found ∙ rw live refl)
            ∙ ap (λ o. minted (sign_access_token x later u.id (name_of o)) after)
                (ap (find (λ (v : User). v.id == u.id)) users ∙ known))
        | inr over ↦ rw over (refresh-gone x later env ch chars after g (found ∙ rw over refl))
      ]
