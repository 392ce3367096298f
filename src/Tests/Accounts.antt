-- ===== src/Tests/Accounts.antt =====
-- Signing up and in, and tokens, at the shop of the tests.
use marketplace_invite_only.Common.{
  ◌≡◌, refl, ℕ, ◌+◌, ◌≤◌, max, List, true, false, none, some, [], ◌∷◌, ◌==◌, if◌then◌else◌, arith,
}
use marketplace_invite_only.Common.Tables.{find, select, count}
use marketplace_invite_only.Models.{UserRole, RefreshToken, Db}
use marketplace_invite_only.Session.{
  ok, err, Error, is_ok, Returns, gets, or_raise, scalar_one_or_none, raise_if, modify,
  ◌>>=◌ as ◌>>>=◌,
}
use marketplace_invite_only.Session.Transaction.{serve, ◌>>=◌}
use marketplace_invite_only.Invites.Links.{consume_invite, check_role}
use marketplace_invite_only.Auth.Security.{
  AccessTokenPayload, Decoded, Security, create_access_token, payload_of, get_current_user,
}
use marketplace_invite_only.Auth.Accounts.{SignupRequest, TokenDraws, signup, login}
use marketplace_invite_only.Auth.Sessions.{revoke_family, rotate, refresh, logout_all}
use marketplace_invite_only.Auth.Rotation.{refresh-refresh, refresh-alive, logout_all-refresh}
use marketplace_invite_only.Auth.Tokens.{
  JwtLaws, rotate_secrets, create_access_token-get_current_user,
}
use marketplace_invite_only.Auth.Admission.{Account, signup-Account}
use marketplace_invite_only.Auth.Opaque.{login-opaque}
use marketplace_invite_only.Auth.Limits.{Registration, admitted, admitted-limit}
use marketplace_invite_only.Tests.{shop, buyer, hashed, invitation}

-- the buyer's claims as they are read, of a token made at the time 700
abbrev buyer_claims : AccessTokenPayload
buyer_claims = record { sub = 1; role = UserRole.customer; jti = 9; exp = 900000000; iat = 0 }

-- The one token is the buyer's; it is signed with the key 11.
abbrev pub guard : Security
guard = record {
  sha256 = hashed;
  hash_password = λ salt password. 2000 + password;
  verify_password = λ password stored. 2000 + password == stored;
  needs_rehash = λ stored. false;
  jwt_encode = λ key payload. 5;
  jwt_decode =
      λ key token now. if key == 11 then Decoded.claims (some buyer_claims) else Decoded.refused;
  is_common_password = λ password. password == 1;
  jwt_secret = 11;
  jwt_secret_primary = 0;
  jwt_secret_secondary = 0;
  jwt_access_token_expire_minutes = 15;
  jwt_refresh_token_expire_days = 7;
}

abbrev pub draws : ℕ → TokenDraws
draws n = record {
  jti = 9;
  token_id = n;
  plaintext = n + 1;
  access_now = 700;
  expires_now = 700;
  issued_now = 700;
  response_now = 701;
}

abbrev buyer_token : RefreshToken
buyer_token = record {
  id = 60;
  user_id = 1;
  token_hash = 41;
  device_label = none;
  issued_at = 500;
  last_used_at = none;
  expires_at = 5000;
  revoked_at = none;
}

abbrev pub signed_in : Db
signed_in = record shop { refresh_tokens = buyer_token ∷ [] }

refresh-refresh_example :
    let once = (serve (refresh guard 40 700 (draws 70)) signed_in).1 in
    let twice = serve (refresh guard 40 800 (draws 80)) once in
    (twice.0 ≡ err Error.token_reused)
    × ((serve (refresh guard 71 900 (draws 90)) twice.1).0 ≡ err Error.token_reused)
unfolding find refresh revoke_family rotate gets or_raise raise_if modify ◌>>=◌
refresh-refresh_example =
    refresh-refresh guard 40 700 800 900 (draws 70) (draws 80) (draws 90) signed_in refl refl

refresh-alive_example :
    Returns
      (λ response.
        is_ok
          (serve
            (refresh guard response.refresh_token 800 (draws 80))
            (serve (refresh guard 40 700 (draws 70)) signed_in).1).0
        ≡ true)
      (serve (refresh guard 40 700 (draws 70)) signed_in).0
unfolding find refresh revoke_family rotate gets or_raise raise_if modify ◌>>=◌
refresh-alive_example =
    refresh-alive guard 40 700 800 (draws 70) (draws 80) signed_in refl refl (ground arith)

logout_all-refresh_example :
    (serve (refresh guard 40 800 (draws 80)) (serve (logout_all buyer 700) signed_in).1).0
    ≡ err Error.token_reused
unfolding find
logout_all-refresh_example =
    logout_all-refresh guard buyer 40 700 800 (draws 80) buyer_token signed_in refl refl

guard_laws : JwtLaws guard 11 (payload_of guard 1 UserRole.customer 9 700)
guard_laws = record { reads = λ now soon. refl; refuses = λ key now other. ground (arith, other) }

create_access_token-get_current_user_example :
    get_current_user
      (rotate_secrets 12 13 guard)
      (some (create_access_token guard 1 UserRole.customer 9 700).0)
      800
      shop
    ≡ (ok buyer, shop)
unfolding find
create_access_token-get_current_user_example =
    create_access_token-get_current_user guard 12 13 9 700 800 buyer shop guard_laws (ground arith)
      (ground arith) refl refl refl

abbrev newcomer : SignupRequest
newcomer = record {
  email = 1009;
  password = 50;
  display_name = "new";
  phone = none;
  invite_token = 77;
  role_choice = none;
}

signup-Account_example :
    Account newcomer 700 shop (serve (signup guard newcomer 5 66 3 700 (draws 70)) shop).1
unfolding find select signup consume_invite check_role gets or_raise scalar_one_or_none raise_if
    modify ◌>>=◌ ◌>>>=◌
signup-Account_example = signup-Account guard newcomer 5 66 3 700 (draws 70) shop refl

login-opaque_example :
    serve (login guard 1001 7 none 3 (draws 70)) shop ≡ (err Error.invalid_credentials, shop)
unfolding count
login-opaque_example = login-opaque guard 1001 7 none 3 (draws 70) shop (ground arith) refl

abbrev tries : List Registration
tries =
    record { req = newcomer; user_id = 5; referral_id = 66; salt = 3; now = 700; draws = draws 70 }
    ∷ record {
      req = record newcomer { email = 1010 };
      user_id = 6;
      referral_id = 67;
      salt = 3;
      now = 701;
      draws = draws 72;
    }
    ∷ []

admitted-limit_example : admitted guard 77 tries shop + 0 ≤ max 1 0
unfolding find
admitted-limit_example = admitted-limit guard 77 1 invitation tries shop refl refl
