-- ===== src/Server/Auth/Samples.antt =====
-- Libraries and times for the tests of the routes (internal/server/auth.go).
use Prim.Native.String.{String}
use text.Mathlib.Text.{◌==◌ as str_eq}
use text.Mathlib.TextPositions.{eq_refl}
use go_chat_backend.Common.{ℕ, ◌≡◌, ap, ◌∙◌, true, none, some, [], ◌∷◌, if◌then◌else◌, ◌==◌}
use go_chat_backend.Database.Samples.{calm}
use go_chat_backend.Server.Bearer.{Text}
use go_chat_backend.Server.Auth.{Crypto, Clock, Weather}

abbrev pub hash_of : Text → String
hash_of [] = ""
hash_of (c ∷ cs) = if c == 1 then "one" else "two"

-- A hash that is the password, and a token that is the user's id.
abbrev pub plain : Crypto
plain = record {
  hash_password = λ p. some p;
  matches = str_eq;
  dummy_hash = "no-such-user";
  hash_refresh_token = hash_of;
  sign = λ c. some (c.user_id ∷ []);
  parse = λ now t. none;
  numeric_date = λ t. t;
}

abbrev pub at : ℕ → Clock
at now = record { now = now; token_ttl = 900 }

abbrev pub fine : Weather
fine = record { user = calm 5; purge = calm 5; session = calm 5 }

pub plain_honest : (p h : String) → plain.hash_password p ≡ some h → plain.matches h p ≡ true
plain_honest p h e = let same : p ≡ h = cc in ap (λ q. str_eq h q) same ∙ eq_refl h
