-- ===== src/Auth/Security.antt =====
-- backend/app/core/security.py, and the guards of backend/app/api/deps.py. The libraries argon2, jose
-- and hashlib are a record of functions, with the settings that the code reads; the list of common
-- passwords is a function too. Passwords, tokens
-- and hashes are numbers, since the code only passes them on.
use marketplace_invite_only.Common.{
  ℕ, ◌+◌, Bool, true, false, not, ◌||◌, Option, none, some, List, [], ◌∷◌, ◌++◌, ◌==◌, is_none,
  is_some, if◌then◌else◌,
}
use marketplace_invite_only.Common.Tables.{find}
use marketplace_invite_only.Orders.Views.{minutes}
use marketplace_invite_only.Models.{UserRole, role_is, is_suspended, User, Db}
use marketplace_invite_only.Session.{
  Error, Result, ok, err, Action, pure, raise, gets, or_raise, raise_if, ◌>>=◌, ◌>>◌,
}

-- The claims of an access token. Times are in microseconds; the library writes whole seconds into a
-- token, and so gives back a time without what is past the second.
pub record AccessTokenPayload : Type 0 where
  pub sub : ℕ
  pub role : UserRole
  pub jti : ℕ
  pub exp : ℕ
  pub iat : ℕ

-- What `jwt.decode` with one key does: claims, or an error for a token that is over, or another one.
-- Claims that lack a field are `none`.
pub data Decoded : Type 0 where
  claims : Option AccessTokenPayload → Decoded
  expired : Decoded
  refused : Decoded

-- `isinstance(exc, AuthenticationError)`
abbrev pub is_authentication : Error → Bool
is_authentication Error.authentication = true
is_authentication Error.invalid_credentials = true
is_authentication Error.token_reused = true
is_authentication Error.token_expired = true
is_authentication Error.invalid_token = true
is_authentication _ = false

pub record Security : Type 0 where
  pub sha256 : ℕ → ℕ
  -- argon2: the salt and the password to a hash, the check, and whether its parameters are old
  pub hash_password : ℕ → ℕ → ℕ
  pub verify_password : ℕ → ℕ → Bool
  pub needs_rehash : ℕ → Bool
  -- jose: the key and the claims to a token, and the key, the token and the time back
  pub jwt_encode : ℕ → AccessTokenPayload → ℕ
  pub jwt_decode : ℕ → ℕ → ℕ → Decoded
  -- the list of core/password_policy.py
  pub is_common_password : ℕ → Bool
  -- settings
  pub jwt_secret : ℕ
  pub jwt_secret_primary : ℕ
  pub jwt_secret_secondary : ℕ
  pub jwt_access_token_expire_minutes : ℕ
  pub jwt_refresh_token_expire_days : ℕ

-- `primary or secret`: the empty secret is 0.
abbrev pub jwt_signing_key : Security → ℕ
jwt_signing_key security =
    if security.jwt_secret_primary == 0 then security.jwt_secret else security.jwt_secret_primary

abbrev pub holds : ℕ → List ℕ → Bool
holds k [] = false
holds k (j ∷ keys) = k == j || holds k keys

-- `if secret and secret not in keys: keys.append(secret)`
abbrev pub add_key : ℕ → List ℕ → List ℕ
add_key k keys = if k == 0 || holds k keys then keys else keys ++ k ∷ []

-- `if not keys: keys.append(self.jwt_secret)`
abbrev pub or_secret : ℕ → List ℕ → List ℕ
or_secret secret [] = secret ∷ []
or_secret secret (k ∷ keys) = k ∷ keys

unfoldable pub jwt_verification_keys : Security → List ℕ
jwt_verification_keys security = or_secret security.jwt_secret (
    add_key security.jwt_secret_secondary
      (add_key security.jwt_secret (add_key security.jwt_secret_primary [])))

-- `SELECT … FROM users WHERE id = … AND deleted_at IS NULL`
abbrev pub live_user : Option User → Option User
live_user none = none
live_user (some u) = if is_none u.deleted_at then some u else none

abbrev pub find_live_user : ℕ → Db → Option User
find_live_user user_id db = live_user (find (λ (u : User). u.id) user_id db.users)

module _ (security : Security) where
  abbrev pub payload_of : ℕ → UserRole → ℕ → ℕ → AccessTokenPayload
  payload_of user_id role jti now = record {
    sub = user_id;
    role = role;
    jti = jti;
    exp = now + minutes security.jwt_access_token_expire_minutes;
    iat = now;
  }

  -- the token and its time of expiry
  abbrev pub create_access_token : ℕ → UserRole → ℕ → ℕ → ℕ × ℕ
  create_access_token user_id role jti now = (
    security.jwt_encode (jwt_signing_key security) (payload_of user_id role jti now),
    now + minutes security.jwt_access_token_expire_minutes,
  )

  abbrev pub decode_next : Decoded → Action AccessTokenPayload → Action AccessTokenPayload
  decode_next (Decoded.claims payload) rest = or_raise payload Error.invalid_token
  decode_next Decoded.expired rest = raise Error.token_expired
  decode_next Decoded.refused rest = rest

  -- The loop over the keys, past the first one: that no key fits is an invalid token.
  unfoldable pub decode_with : ℕ → ℕ → List ℕ → Action AccessTokenPayload
  decode_with token now [] = raise Error.invalid_token
  decode_with token now (key ∷ keys) =
      let rest = decode_with token now keys in decode_next (security.jwt_decode key token now) rest

  -- With no key at all the assertion after the loop fails.
  unfoldable pub decode_keys : ℕ → ℕ → List ℕ → Action AccessTokenPayload
  decode_keys token now [] = raise Error.assertion
  decode_keys token now (key ∷ keys) = decode_with token now (key ∷ keys)

  unfoldable pub decode_access_token : ℕ → ℕ → Action AccessTokenPayload
  decode_access_token token now = decode_keys token now (jwt_verification_keys security)

  -- Any other exception of the decoding becomes a 401 as well.
  abbrev pub as_authentication : {A : Type 0} → Result A × Db → Result A × Db
  as_authentication (ok a, db) = (ok a, db)
  as_authentication (err e, db) =
      (err (if is_authentication e then e else Error.authentication), db)

  unfoldable pub get_current_user : Option ℕ → ℕ → Action User
  get_current_user none now = raise Error.authentication
  get_current_user (some token) now = do
    payload ← λ db. as_authentication (decode_access_token token now db)
    found ← gets (find_live_user payload.sub)
    user ← or_raise found Error.authentication
    raise_if (not user.is_active || is_some user.disabled_at) Error.authentication
    raise_if (is_suspended user.status) Error.authentication
    pure user

  -- `get_current_user_optional`
  abbrev pub none_on_401 : Result User × Db → Result (Option User) × Db
  none_on_401 (ok u, db) = (ok (some u), db)
  none_on_401 (err e, db) = if is_authentication e then (ok none, db) else (err e, db)

  unfoldable pub get_current_user_optional : Option ℕ → ℕ → Action (Option User)
  get_current_user_optional none now = pure none
  get_current_user_optional (some token) now =
      λ db. none_on_401 (get_current_user (some token) now db)

abbrev any_role : UserRole → List UserRole → Bool
any_role r [] = false
any_role r (s ∷ rest) = if role_is r s then true else any_role r rest

-- `require_roles`
unfoldable pub require_roles : List UserRole → User → Action User
require_roles roles user = do
  raise_if (not (any_role user.role roles)) Error.authorization
  pure user
