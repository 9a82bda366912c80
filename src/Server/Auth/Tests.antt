-- ===== src/Server/Auth/Tests.antt =====
-- The theorems on accounts and sessions at requests that exercise them (internal/server/auth.go and
-- internal/server/refresh.go).
use Prim.Native.String.{String}
use text.Mathlib.Text.{◌==◌ as str_eq}
use go_chat_backend.Common.{
  ◌+◌, ◌≡◌, ◌≢◌, refl, none, some, [], ◌∷◌, ltb, if◌then◌else◌, ◌==◌, ap, ◌++◌,
}
use go_chat_backend.Common.Rows.{find}
use go_chat_backend.Database.{User, Db}
use go_chat_backend.Database.Samples.{calm, two_members}
use go_chat_backend.Database.Sessions.{create_user, insert_user, revoke_refresh_token}
use go_chat_backend.Server.Bearer.{Text, bearer, bearer_token, equal_fold, is_space}
use go_chat_backend.Server.Bearer.Reading.{bearer_token-header}
use go_chat_backend.Server.Auth.{
  Credentials, clears, sets, bind, register_handler, login_handler, refresh_handler, logout_handler,
  refuses, minted, sign_access_token, refresh_ttl, claims_of,
}
use go_chat_backend.Server.Auth.Accounts.{register-login}
use go_chat_backend.Server.Auth.Session.{login-refresh}
use go_chat_backend.Server.Auth.Logout.{logout-refresh}
use go_chat_backend.Common.Assoc.{string_key}
use go_chat_backend.Server.Auth.Samples.{plain, at, fine, plain_honest}

abbrev carol : Credentials
carol = record { username = "carol"; password = "password" }

-- The database after carol registered.
abbrev with_carol : Db
with_carol = (register_handler plain (calm 4) (some carol) two_members).1

register_done : (register_handler plain (calm 4) (some carol) two_members).0 ≡ 201
unfolding register_handler bind create_user insert_user find
register_done = refl

register-login_example :
    (login_handler plain (at 5) fine (some (1 ∷ [])) (some carol) with_carol).0
    ≡ record { status = 200; token = some (3 ∷ []); cookie = sets (1 ∷ []) }
unfolding sign_access_token claims_of find
register-login_example =
    register-login plain (at 5) fine (calm 4) (1 ∷ []) (3 ∷ []) carol two_members plain_honest
      register_done refl refl refl refl refl

abbrev dave : User
dave = record { id = 3; username = "carol"; password_hash = "password" }

abbrev after_login : Db
after_login = (login_handler plain (at 5) fine (some (1 ∷ [])) (some carol) with_carol).1

logged_in : (login_handler plain (at 5) fine (some (1 ∷ [])) (some carol) with_carol).0.status ≡ 200
logged_in = ap (λ r. r.status) register-login_example

carol_named : find (λ (u : User). str_eq u.username "carol") with_carol.tables.users ≡ some dave
unfolding register_handler bind create_user insert_user find
carol_named = refl

carol_known : find (λ (u : User). u.id == 3) with_carol.tables.users ≡ some dave
unfolding register_handler bind create_user insert_user find
carol_known = refl

login-refresh_example : refresh_handler plain (at 70) (calm 70) (some (1 ∷ [])) after_login ≡ (
    if ltb 70 (5 + refresh_ttl)
    then minted (sign_access_token plain (at 70) 3 "carol") after_login
    else refuses 401 clears after_login)
login-refresh_example =
    login-refresh plain (at 5) (at 70) fine (calm 70) 1 [] carol dave with_carol logged_in
      carol_named carol_known refl refl

logout_done : (logout_handler plain (calm 80) (some (1 ∷ [])) after_login).0 ≡ 200
unfolding logout_handler revoke_refresh_token
logout_done = refl

one_two : ◌≢◌ {A = String} "one" "two"
one_two e = cc ((string_key.same_iff "one" "two").1 e)

logout-refresh_example :
    let after = (logout_handler plain (calm 80) (some (1 ∷ [])) after_login).2 in
    (refresh_handler plain (at 90) (calm 90) (some (1 ∷ [])) after ≡ refuses 401 clears after)
    × ((refresh_handler plain (at 90) (calm 90) (some (2 ∷ [])) after).0
        ≡ (refresh_handler plain (at 90) (calm 90) (some (2 ∷ [])) after_login).0)
logout-refresh_example =
    logout-refresh plain (at 90) (calm 80) (calm 90) 1 2 [] [] after_login logout_done refl refl
      one_two

abbrev mixed_case : Text
mixed_case = b'b' ∷ b'E' ∷ b'A' ∷ b'R' ∷ b'E' ∷ b'R' ∷ []

abbrev ab : Text
ab = b'a' ∷ b'b' ∷ []

-- " bEARER  ab"
bearer_token-header_example :
    (bearer_token ((0x20 ∷ []) ++ (mixed_case ++ ((0x20 ∷ 0x20 ∷ []) ++ (ab ++ []))))
      ≡ (if equal_fold mixed_case bearer then some ab else none))
    × (bearer_token ((0x20 ∷ []) ++ (ab ++ [])) ≡ (if equal_fold ab bearer then none else some ab))
unfolding is_space
bearer_token-header_example =
    bearer_token-header (0x20 ∷ []) mixed_case 0x20 (0x20 ∷ []) ab [] (refl, tt)
      ((λ e. cc), (refl, (refl, (refl, (refl, (refl, (refl, tt))))))) (refl, (refl, tt))
      ((λ e. cc), (refl, (refl, tt))) tt
