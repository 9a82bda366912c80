-- ===== src/Server/Auth/Logout.antt =====
-- The end of a session (LogoutHandler of internal/server/refresh.go).
use Prim.Native.String.{String}
use go_chat_backend.Common.{
  ℕ, ◌≡◌, ◌≢◌, ap, sym, ◌∙◌, false, Option, some, ◌∷◌, arith, inl, inr, Option-cases, ◌==◌,
}
use go_chat_backend.Common.Rows.{find}
use go_chat_backend.Database.{User, Db, Env, ok}
use go_chat_backend.Database.Sessions.{revoke_refresh_token}
use go_chat_backend.Database.Sessions.Lifetime.{
  valid, revoke-tokens, find-revoked_same, find-revoked_other, distinct_hashes,
}
use go_chat_backend.Server.Bearer.{Text}
use go_chat_backend.Server.Auth.{
  Crypto, Clock, clears, refuses, refresh_handler, minted, logout_handler, sign_access_token,
  name_of,
}
use go_chat_backend.Server.Auth.Session.{refresh-found, refresh-gone}

logout-revoke :
    (x : Crypto) (env : Env) (ch : ℕ) (chars : Text) (db : Db)
    → (logout_handler x env (some (ch ∷ chars)) db).0 ≡ 200
    → ((revoke_refresh_token env (x.hash_refresh_token (ch ∷ chars)) db).0 ≡ ok tt)
      × ((logout_handler x env (some (ch ∷ chars)) db).2
          ≡ (revoke_refresh_token env (x.hash_refresh_token (ch ∷ chars)) db).1)
unfolding logout_handler
logout-revoke x env ch chars db h = ground arith

revoke-users :
    (env : Env) (hash : String) (db : Db)
    → (revoke_refresh_token env hash db).1.tables.users ≡ db.tables.users
unfolding revoke_refresh_token
revoke-users env hash db = ground arith

-- The answer to a refresh goes by the row of the session and the row of its user.
refresh-same :
    (x : Crypto) (t : Clock) (env : Env) (ch : ℕ) (chars : Text) (db db' : Db)
    → env.fails 0 ≡ false
    → env.fails 1 ≡ false
    → find (valid (x.hash_refresh_token (ch ∷ chars)) env.now) db'.tables.refresh_tokens
      ≡ find (valid (x.hash_refresh_token (ch ∷ chars)) env.now) db.tables.refresh_tokens
    → db'.tables.users ≡ db.tables.users
    → (refresh_handler x t env (some (ch ∷ chars)) db').0
      ≡ (refresh_handler x t env (some (ch ∷ chars)) db).0
refresh-same x t env ch chars db db' g g' same users =
    elim (Option-cases
      (find (valid (x.hash_refresh_token (ch ∷ chars)) env.now) db.tables.refresh_tokens)) [
        | inl gone ↦
            ap (λ r. r.0) (refresh-gone x t env ch chars db' g (same ∙ gone))
            ∙ sym (ap (λ r. r.0) (refresh-gone x t env ch chars db g gone))
        | inr (r, there) ↦
            ap (λ r. r.0) (refresh-found x t env ch chars r db' g g' (same ∙ there))
            ∙ minted-same
                (sign_access_token x t r.user_id
                  (name_of (find (λ (v : User). v.id == r.user_id) db'.tables.users)))
                (sign_access_token x t r.user_id
                  (name_of (find (λ (v : User). v.id == r.user_id) db.tables.users)))
                db' db
                (ap
                  (λ us.
                    sign_access_token x t r.user_id
                      (name_of (find (λ (v : User). v.id == r.user_id) us)))
                  users)
            ∙ sym (ap (λ r. r.0) (refresh-found x t env ch chars r db g g' there))
      ]
  where
    minted-same : (a b : Option Text) (d e : Db) → a ≡ b → (minted a d).0 ≡ (minted b e).0
    minted-same a b d e h = ground arith

module _ (x : Crypto) (later : Clock) (env env' : Env) (ch c : ℕ) (chars other : Text) (db : Db)
    (done : (logout_handler x env (some (ch ∷ chars)) db).0 ≡ 200) (g : env'.fails 0 ≡ false)
    (g' : env'.fails 1 ≡ false)
    (differ : x.hash_refresh_token (ch ∷ chars) ≢ x.hash_refresh_token (c ∷ other)) where
  -- Once a logout was answered with 200, its cookie is worth nothing: a refresh with it, at whatever
  -- time, is answered with 401 and clears the cookie. Any other session, that is one whose token has
  -- another hash, gets the answer that it would have got before. The database answers both.
  pub logout-refresh :
      let after = (logout_handler x env (some (ch ∷ chars)) db).2 in
      (refresh_handler x later env' (some (ch ∷ chars)) after ≡ refuses 401 clears after)
      × ((refresh_handler x later env' (some (c ∷ other)) after).0
          ≡ (refresh_handler x later env' (some (c ∷ other)) db).0)
  logout-refresh =
      let hash = x.hash_refresh_token (ch ∷ chars) in
      let kept = x.hash_refresh_token (c ∷ other) in
      let after = (logout_handler x env (some (ch ∷ chars)) db).2 in
      let out = logout-revoke x env ch chars db done in
      let tokens =
        ap (λ (d : Db). d.tables.refresh_tokens) out.1 ∙ revoke-tokens env hash db out.0 in
      (
        refresh-gone x later env' ch chars after g (
            ap (find (valid hash env'.now)) tokens
            ∙ find-revoked_same hash env.now env'.now db.tables.refresh_tokens),
        refresh-same x later env' c other db after g g'
            (ap (find (valid kept env'.now)) tokens
              ∙ find-revoked_other hash kept env.now env'.now db.tables.refresh_tokens
                  (λ y e. distinct_hashes hash kept y differ e))
            (ap (λ (d : Db). d.tables.users) out.1 ∙ revoke-users env hash db),
      )
