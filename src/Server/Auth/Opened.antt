-- ===== src/Server/Auth/Opened.antt =====
-- A new session in the table of refresh tokens (issueRefreshSession of internal/server/refresh.go over
-- internal/database/refresh_tokens.go).
use Prim.Native.String.{String}
use text.Mathlib.TextPositions.{eq_refl}
use go_chat_backend.Common.{
  ℕ, ◌+◌, ◌≡◌, ◌⊎◌, refl, ap, ◌∙◌, Bool, false, none, some, List, [], ◌∷◌, ◌++◌, arith, inl, inr,
  ltb, ◌==◌, if◌then◌else◌,
}
use go_chat_backend.Common.Rows.{find, select}
use go_chat_backend.Common.Rows.Find.{find-append}
use go_chat_backend.Database.{User, RefreshToken, Db, Env, ok, err, done, Error, Result-cases}
use go_chat_backend.Database.Messages.{is_none}
use go_chat_backend.Database.Sessions.{
  by_hash, insert_token, create_refresh_token, purge_expired_refresh_tokens,
}
use go_chat_backend.Database.Sessions.Lifetime.{valid, purge-tokens}
use go_chat_backend.Server.Bearer.{Text}
use go_chat_backend.Server.Auth.{
  Crypto, Clock, Weather, issue_refresh_session, new_refresh_token, refresh_ttl,
}

-- The row of a new session.
abbrev pub row_of : Env → ℕ → String → ℕ → Db → RefreshToken
row_of env user_id hash expires_at db = record {
  id = db.serials.refresh_tokens;
  user_id = user_id;
  token_hash = hash;
  expires_at = expires_at;
  created_at = env.now;
  revoked_at = none;
}

pub create_refresh_token-ok :
    (env : Env) (user_id : ℕ) (hash : String) (expires_at : ℕ) (db : Db) (r : RefreshToken)
    → (create_refresh_token env user_id hash expires_at db).0 ≡ ok r
    → (find (by_hash hash) db.tables.refresh_tokens ≡ none)
      × ((create_refresh_token env user_id hash expires_at db).1.tables.refresh_tokens
          ≡ db.tables.refresh_tokens ++ row_of env user_id hash expires_at db ∷ [])
      × ((create_refresh_token env user_id hash expires_at db).1.tables.users ≡ db.tables.users)
unfolding create_refresh_token insert_token
create_refresh_token-ok env user_id hash expires_at db r h = ground arith

create_refresh_token-done :
    (env : Env) (user_id : ℕ) (hash : String) (expires_at : ℕ) (db : Db)
    → env.fails 0 ≡ false
    → env.commit ≡ done
    → find (by_hash hash) db.tables.refresh_tokens ≡ none
    → is_none (find (λ (u : User). u.id == user_id) db.tables.users) ≡ false
    → (create_refresh_token env user_id hash expires_at db).0
      ≡ ok (row_of env user_id hash expires_at db)
unfolding create_refresh_token insert_token
create_refresh_token-done env user_id hash expires_at db g d fresh there =
    rw (g, d, fresh, there) refl

pub purge-users :
    (env : Env) (user_id : ℕ) (db : Db)
    → (purge_expired_refresh_tokens env user_id db).1.tables.users ≡ db.tables.users
unfolding purge_expired_refresh_tokens
purge-users env user_id db = ground arith

find-select-none :
    (p q : RefreshToken → Bool) (xs : List RefreshToken)
    → find p xs ≡ none
    → find p (select q xs) ≡ none
unfolding find select
find-select-none p q [] h = refl
find-select-none p q (x ∷ xs) h = ground (arith, find-select-none p q xs)

purge-fresh :
    (env : Env) (user_id : ℕ) (hash : String) (db : Db)
    → find (by_hash hash) db.tables.refresh_tokens ≡ none
    → find (by_hash hash) (purge_expired_refresh_tokens env user_id db).1.tables.refresh_tokens
      ≡ none
purge-fresh env user_id hash db h = elim (purge-tokens env user_id db) [
  | inl kept ↦ ap (find (by_hash hash)) kept ∙ h
  | inr purged ↦ ap (find (by_hash hash)) purged ∙ find-select-none (by_hash hash) _ _ h
]

-- A token whose hash is not in the table, for a user who is, opens a session.
pub issue_refresh_session-done :
    (x : Crypto) (t : Clock) (w : Weather) (token : Text) (user_id : ℕ) (db : Db)
    → w.session.fails 0 ≡ false
    → w.session.commit ≡ done
    → find (by_hash (x.hash_refresh_token token)) db.tables.refresh_tokens ≡ none
    → is_none (find (λ (u : User). u.id == user_id) db.tables.users) ≡ false
    → (issue_refresh_session x t w (some token) user_id db).0 ≡ ok token
unfolding issue_refresh_session new_refresh_token
issue_refresh_session-done x t w token user_id db g d fresh there =
    rw
      (create_refresh_token-done w.session user_id (x.hash_refresh_token token)
        (t.now + refresh_ttl) (purge_expired_refresh_tokens w.purge user_id db).1 g d
        (purge-fresh w.purge user_id _ db fresh)
        (ap (λ us. is_none (find (λ (u : User). u.id == user_id) us))
            (purge-users w.purge user_id db)
          ∙ there))
      refl

-- The lookup in a table to which a session was added.
find-by_hash-none :
    (hash : String) (now : ℕ) (xs : List RefreshToken)
    → find (by_hash hash) xs ≡ none
    → find (valid hash now) xs ≡ none
unfolding find
find-by_hash-none hash now [] h = refl
find-by_hash-none hash now (x ∷ xs) h = ground (arith, find-by_hash-none hash now xs)

create_refresh_token-row :
    (env : Env) (user_id : ℕ) (hash : String) (expires_at : ℕ) (db : Db) (r : RefreshToken)
    → (create_refresh_token env user_id hash expires_at db).0 ≡ ok r
    → r ≡ row_of env user_id hash expires_at db
unfolding create_refresh_token insert_token
create_refresh_token-row env user_id hash expires_at db r h = ground arith

-- How opening a session ends: with its row, or with an error.
pub create_refresh_token-cases :
    (env : Env) (user_id : ℕ) (hash : String) (expires_at : ℕ) (db : Db)
    → ((create_refresh_token env user_id hash expires_at db).0
        ≡ ok (row_of env user_id hash expires_at db))
      ⊎ ((e : Error) × ((create_refresh_token env user_id hash expires_at db).0 ≡ err e))
create_refresh_token-cases env user_id hash expires_at db =
    elim (Result-cases (create_refresh_token env user_id hash expires_at db).0) [
      | inl (r, fine) ↦
          inl
            (fine ∙ ap (λ a. ok a) (create_refresh_token-row env user_id hash expires_at db r fine))
      | inr bad ↦ inr bad
    ]

valid-session :
    (hash : String) (now user_id expires_at : ℕ) (env : Env) (db : Db)
    → valid hash now (row_of env user_id hash expires_at db) ≡ ltb now expires_at
valid-session hash now user_id expires_at env db = rw (eq_refl hash) refl

-- What the lookup finds after a session was added.
pub find-session :
    (hash : String) (now user_id expires_at : ℕ) (env : Env) (db : Db)
    → (create_refresh_token env user_id hash expires_at db).0
      ≡ ok (row_of env user_id hash expires_at db)
    → find
        (valid hash now)
        (create_refresh_token env user_id hash expires_at db).1.tables.refresh_tokens
      ≡ (if ltb now expires_at then some (row_of env user_id hash expires_at db) else none)
unfolding find
find-session hash now user_id expires_at env db h =
    let made =
      create_refresh_token-ok env user_id hash expires_at db (row_of env user_id hash expires_at db)
        h in
    ap (find (valid hash now)) made.1
    ∙ find-append (valid hash now) db.tables.refresh_tokens _
    ∙ rw (find-by_hash-none hash now db.tables.refresh_tokens made.0, eq_refl hash) refl
