-- ===== src/Database/Sessions/Lifetime.antt =====
-- How long a session and a name last (internal/database/refresh_tokens.go and CreateUser of
-- internal/database/database.go).
use Prim.Native.String.{String}
use text.Mathlib.Text.{◌==◌ as str_eq}
use text.Mathlib.TextPositions.{eq_refl}
use go_chat_backend.Common.{
  ℕ, ◌≤◌, ◌≡◌, ◌≢◌, refl, ap, sym, ◌∙◌, ◌⊎◌, Bool, true, false, not, ◌&&◌, Option, none, some, List,
  [], ◌∷◌, ◌++◌, arith, inl, inr, Option-cases,
}
use go_chat_backend.Common.Assoc.{string_key, same_ne}
use go_chat_backend.Common.Rows.{select, find, update}
use go_chat_backend.Common.Rows.Find.{find-append}
use go_chat_backend.Database.{
  User, RefreshToken, Db, Env, Result, ok, err, user_exists, refresh_token_not_found,
}
use go_chat_backend.Database.Messages.{is_some, is_none}
use go_chat_backend.Database.Sessions.{
  by_username, insert_user, create_user, get_user_by_username, by_hash, is_live,
  get_valid_refresh_token, revoked, revoke_refresh_token, is_dead_of, purge_expired_refresh_tokens,
}

-- Rows that are taken away do not matter to a search that they do not answer.
find-select :
    (p q : RefreshToken → Bool)
    → ((x : RefreshToken) → q x ≡ false → p x ≡ false)
    → (xs : List RefreshToken) → find p (select q xs) ≡ find p xs
unfolding find select
find-select p q h [] = refl
find-select p q h (x ∷ xs) = ground (arith, h x, find-select p q h xs)

abbrev pub valid : String → ℕ → RefreshToken → Bool
valid token_hash now r = by_hash token_hash r && is_live now r

-- The answer of the lookup, from the row that it finds.
abbrev pub answer_of : Option RefreshToken → Result RefreshToken
answer_of none = err refresh_token_not_found
answer_of (some r) = ok r

pub get_valid-answer :
    (env : Env) (k : String) (db : Db)
    → env.fails 0 ≡ false
    → (get_valid_refresh_token env k db).0
      ≡ answer_of (find (valid k env.now) db.tables.refresh_tokens)
unfolding get_valid_refresh_token
get_valid-answer env k db g =
    elim (Option-cases (find (valid k env.now) db.tables.refresh_tokens)) [
      | inl gone ↦ rw (g, gone) refl
      | inr (r, there) ↦ rw (g, there) refl
    ]

-- The tokens after a purge, which may come to nothing.
pub purge-tokens :
    (env : Env) (u : ℕ) (db : Db)
    → ((purge_expired_refresh_tokens env u db).1.tables.refresh_tokens ≡ db.tables.refresh_tokens)
      ⊎ ((purge_expired_refresh_tokens env u db).1.tables.refresh_tokens
          ≡ select (λ (t : RefreshToken). not (is_dead_of u env.now t)) db.tables.refresh_tokens)
unfolding purge_expired_refresh_tokens
purge-tokens env u db = ground arith

dead-invalid :
    (k : String) (u now later : ℕ) (x : RefreshToken)
    → now ≤ later
    → not (is_dead_of u now x) ≡ false
    → valid k later x ≡ false
dead-invalid k u now later x h d = ground arith

-- A purge never ends a session: from its moment on, every token is as valid as it was without it.
pub purge-get_valid_refresh_token :
    (env env' : Env) (u : ℕ) (k : String) (db : Db)
    → env'.fails 0 ≡ false
    → env.now ≤ env'.now
    → (get_valid_refresh_token env' k (purge_expired_refresh_tokens env u db).1).0
      ≡ (get_valid_refresh_token env' k db).0
purge-get_valid_refresh_token env env' u k db g h =
    get_valid-answer env' k (purge_expired_refresh_tokens env u db).1 g
    ∙ ap answer_of same
    ∙ sym (get_valid-answer env' k db g)
  where
    same :
        find (valid k env'.now) (purge_expired_refresh_tokens env u db).1.tables.refresh_tokens
        ≡ find (valid k env'.now) db.tables.refresh_tokens
    same = elim (purge-tokens env u db) [
      | inl kept ↦ ap (find (valid k env'.now)) kept
      | inr purged ↦
          ap (find (valid k env'.now)) purged
          ∙ find-select (valid k env'.now) (λ t. not (is_dead_of u env.now t))
              (λ x d. dead-invalid k u env.now env'.now x h d) db.tables.refresh_tokens
    ]

pub revoke-tokens :
    (env : Env) (h : String) (db : Db)
    → (revoke_refresh_token env h db).0 ≡ ok tt
    → (revoke_refresh_token env h db).1.tables.refresh_tokens
      ≡ update
          (λ (t : RefreshToken). by_hash h t && is_none t.revoked_at)
          (revoked env.now)
          db.tables.refresh_tokens
unfolding revoke_refresh_token
revoke-tokens env h db fine = ground arith

pub find-revoked_same :
    (h : String) (now t : ℕ) (xs : List RefreshToken)
    → find
        (valid h t)
        (update (λ (t : RefreshToken). by_hash h t && is_none t.revoked_at) (revoked now) xs)
      ≡ none
unfolding find update
find-revoked_same h now t [] = refl
find-revoked_same h now t (x ∷ xs) = ground (arith, find-revoked_same h now t xs)

pub find-revoked_other :
    (h k : String) (now t : ℕ) (xs : List RefreshToken)
    → ((x : String) → str_eq x h ≡ true → str_eq x k ≡ false)
    → find
        (valid k t)
        (update (λ (t : RefreshToken). by_hash h t && is_none t.revoked_at) (revoked now) xs)
      ≡ find (valid k t) xs
unfolding find update
find-revoked_other h k now t [] d = refl
find-revoked_other h k now t (x ∷ xs) d =
    ground (arith, find-revoked_other h k now t xs d, d x.token_hash)

-- Once a session is revoked its token is never valid again, at whatever time it is asked for.
pub revoke-get_valid_refresh_token :
    (env env' : Env) (h : String) (db : Db)
    → (revoke_refresh_token env h db).0 ≡ ok tt
    → env'.fails 0 ≡ false
    → (get_valid_refresh_token env' h (revoke_refresh_token env h db).1).0
      ≡ err refresh_token_not_found
revoke-get_valid_refresh_token env env' h db fine g =
    get_valid-answer env' h (revoke_refresh_token env h db).1 g
    ∙ ap (λ ts. answer_of (find (valid h env'.now) ts)) (revoke-tokens env h db fine)
    ∙ ap answer_of (find-revoked_same h env.now env'.now db.tables.refresh_tokens)

pub distinct_hashes : (h k x : String) → h ≢ k → str_eq x h ≡ true → str_eq x k ≡ false
distinct_hashes h k x n e =
    same_ne {K = String} x k (λ p. n (sym ((string_key.same_iff x h).0 e) ∙ p))

-- Revoking a session leaves the tokens of all others as valid as they were.
pub revoke-others :
    (env env' : Env) (h k : String) (db : Db)
    → (revoke_refresh_token env h db).0 ≡ ok tt
    → env'.fails 0 ≡ false
    → h ≢ k
    → (get_valid_refresh_token env' k (revoke_refresh_token env h db).1).0
      ≡ (get_valid_refresh_token env' k db).0
revoke-others env env' h k db fine g n =
    get_valid-answer env' k (revoke_refresh_token env h db).1 g
    ∙ ap (λ ts. answer_of (find (valid k env'.now) ts)) (revoke-tokens env h db fine)
    ∙ ap answer_of (
        find-revoked_other h k env.now env'.now db.tables.refresh_tokens
          (λ x e. distinct_hashes h k x n e))
    ∙ sym (get_valid-answer env' k db g)

-- The table after a user was made.
unfoldable pub with_user : String → String → Db → List User
with_user username password_hash db =
    db.tables.users
    ++ record { id = db.serials.users; username = username; password_hash = password_hash } ∷ []

pub create_user-ok :
    (env : Env) (username password_hash : String) (db : Db) (u : User)
    → (create_user env username password_hash db).0 ≡ ok u
    → ((create_user env username password_hash db).1.tables.users
        ≡ with_user username password_hash db)
      × (find (by_username username) db.tables.users ≡ none)
      × (u ≡ record { id = db.serials.users; username = username; password_hash = password_hash })
unfolding create_user insert_user with_user
create_user-ok env username password_hash db u h = ground arith

pub find-with_user :
    (username password_hash : String) (db : Db)
    → find (by_username username) db.tables.users ≡ none
    → find (by_username username) (with_user username password_hash db)
      ≡ some (record { id = db.serials.users; username = username; password_hash = password_hash })
unfolding find with_user
find-with_user username password_hash db free =
    find-append (by_username username) db.tables.users _ ∙ rw (free, eq_refl username) refl

create_user-taken :
    (env : Env) (username password_hash : String) (db : Db)
    → env.fails 0 ≡ false
    → is_some (find (by_username username) db.tables.users) ≡ true
    → ((create_user env username password_hash db).0 ≡ err user_exists)
      × ((create_user env username password_hash db).1.tables ≡ db.tables)
unfolding create_user insert_user
create_user-taken env username password_hash db g taken = rw (g, taken) (refl, refl)

get_user-found :
    (env : Env) (username : String) (db : Db) (u : User)
    → env.fails 0 ≡ false
    → find (by_username username) db.tables.users ≡ some u
    → (get_user_by_username env username db).0 ≡ ok u
unfolding get_user_by_username
get_user-found env username db u g there = rw (g, there) refl

-- A name belongs to the first who takes it: it is found with that user's id and password, and
-- nobody can make another user of that name, which is refused and writes nothing.
pub create_user-once :
    (env env' : Env) (username password_hash other_hash : String) (db : Db) (u : User)
    → (create_user env username password_hash db).0 ≡ ok u
    → env'.fails 0 ≡ false
    → let after = (create_user env username password_hash db).1 in
      ((get_user_by_username env' username after).0 ≡ ok u)
      × ((create_user env' username other_hash after).0 ≡ err user_exists)
      × ((create_user env' username other_hash after).1.tables ≡ after.tables)
create_user-once env env' username password_hash other_hash db u h g =
    let after = (create_user env username password_hash db).1 in
    let made = create_user-ok env username password_hash db u h in
    let there : find (by_username username) after.tables.users ≡ some u =
      ap (find (by_username username)) made.0
      ∙ find-with_user username password_hash db made.1
      ∙ ap (λ x. some x) (sym made.2) in
    let again = create_user-taken env' username other_hash after g (ap is_some there) in
    (get_user-found env' username after u g there, again.0, again.1)
