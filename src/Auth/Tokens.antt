-- ===== src/Auth/Tokens.antt =====
-- Access tokens across a change of the signing key.
use marketplace_invite_only.Common.{
  ◌≡◌, ◌≢◌, refl, ap, ◌∙◌, ℕ, ◌+◌, ◌*◌, ◌/◌, ◌<◌, true, false, ◌&&◌, some, List, [], ◌∷◌, ◌++◌,
  ◌==◌, is_none, ==-refl, Bool-cases, inl, inr, arith,
}
use marketplace_invite_only.Orders.Views.{minutes}
use marketplace_invite_only.Models.{is_suspended, User, Db}
use marketplace_invite_only.Session.{ok, ◌>>=◌}
use marketplace_invite_only.Auth.Security.{
  AccessTokenPayload, Decoded, Security, jwt_signing_key, holds, add_key, or_secret,
  jwt_verification_keys, payload_of, create_access_token, decode_with, decode_keys,
  decode_access_token, find_live_user, get_current_user,
}

-- `datetime.fromtimestamp(timegm(t.utctimetuple()))`
abbrev pub whole_seconds : ℕ → ℕ
whole_seconds t = t / 1000000 * 1000000

-- The claims that are read from a token of the given ones.
abbrev pub read_back : AccessTokenPayload → AccessTokenPayload
read_back payload = record payload {
  exp = whole_seconds payload.exp;
  iat = whole_seconds payload.iat;
}

-- What the library of the tokens promises of a token: it is read with the key that signed it, before
-- its time of expiry, and refused with any other key.
pub record JwtLaws (security : Security) (key : ℕ) (payload : AccessTokenPayload) : Type 0 where
  pub reads :
      (now : ℕ)
      → now < payload.exp
      → security.jwt_decode key (security.jwt_encode key payload) now
        ≡ Decoded.claims (some (read_back payload))
  pub refuses :
      (other now : ℕ)
      → other ≢ key
      → security.jwt_decode other (security.jwt_encode key payload) now ≡ Decoded.refused

-- The settings after a change of keys: the old signing key still verifies.
abbrev pub rotate_secrets : ℕ → ℕ → Security → Security
rotate_secrets primary secret security = record security {
  jwt_secret = secret;
  jwt_secret_primary = primary;
  jwt_secret_secondary = jwt_signing_key security;
}

holds-append : (k : ℕ) (keys : List ℕ) → holds k (keys ++ k ∷ []) ≡ true
holds-append k [] = ground (arith, ==-refl k)
holds-append k (j ∷ keys) = ground (arith, holds-append k keys)

holds-add_key : (k : ℕ) (keys : List ℕ) → k ≢ 0 → holds k (add_key k keys) ≡ true
holds-add_key k keys h = ground (arith, holds-append k keys, h)

holds-or_secret :
    (k secret : ℕ) (keys : List ℕ) → holds k keys ≡ true → holds k (or_secret secret keys) ≡ true
holds-or_secret k secret [] h = absurd (ground (arith, h))
holds-or_secret k secret (j ∷ keys) h = h

module _ (security : Security) (key : ℕ) (payload : AccessTokenPayload)
    (laws : JwtLaws security key payload) where
  decode_with-holds :
      (now : ℕ) (keys : List ℕ) (db : Db)
      → now < payload.exp
      → holds key keys ≡ true
      → decode_with security (security.jwt_encode key payload) now keys db
        ≡ (ok (read_back payload), db)
  unfolding decode_with ◌>>=◌
  decode_with-holds now [] db soon h = absurd (ground arith)
  decode_with-holds now (k ∷ keys) db soon h = elim (Bool-cases (k == key)) [
    | inl e ↦ let same : k ≡ key = ground arith in rw (same, laws.reads now soon) refl
    | inr e ↦
        rw (laws.refuses k now (ground arith))
          (decode_with-holds now keys db soon (ground (arith, h, e)))
  ]

  decode_keys-holds :
      (now : ℕ) (keys : List ℕ) (db : Db)
      → now < payload.exp
      → holds key keys ≡ true
      → decode_keys security (security.jwt_encode key payload) now keys db
        ≡ (ok (read_back payload), db)
  unfolding decode_keys
  decode_keys-holds now [] db soon h = absurd (ground arith)
  decode_keys-holds now (k ∷ keys) db soon h = decode_with-holds now (k ∷ keys) db soon h

decode_with-rotate_secrets :
    (primary secret : ℕ) (security : Security) (token now : ℕ) (keys : List ℕ)
    → decode_with (rotate_secrets primary secret security) token now keys
      ≡ decode_with security token now keys
unfolding decode_with
decode_with-rotate_secrets primary secret security token now [] = refl
decode_with-rotate_secrets primary secret security token now (k ∷ keys) =
    rw (decode_with-rotate_secrets primary secret security token now keys) refl

decode_keys-rotate_secrets :
    (primary secret : ℕ) (security : Security) (token now : ℕ) (keys : List ℕ)
    → decode_keys (rotate_secrets primary secret security) token now keys
      ≡ decode_keys security token now keys
unfolding decode_keys
decode_keys-rotate_secrets primary secret security token now [] = refl
decode_keys-rotate_secrets primary secret security token now (k ∷ keys) =
    decode_with-rotate_secrets primary secret security token now (k ∷ keys)

admits :
    (security : Security) (token now : ℕ) (payload : AccessTokenPayload) (user : User) (db : Db)
    → decode_access_token security token now db ≡ (ok payload, db)
    → find_live_user payload.sub db ≡ some user
    → (user.is_active && is_none user.disabled_at) ≡ true
    → is_suspended user.status ≡ false
    → get_current_user security (some token) now db ≡ (ok user, db)
unfolding get_current_user ◌>>=◌
admits security token now payload user db e found able active =
    ground (arith, e, found, able, active)

-- A token that was made before a change of keys still tells who its user is, until it expires, where
-- the old signing key stays as the secondary one: for a user who is neither deleted, inactive,
-- disabled nor suspended, and a signing key that was not empty.
pub create_access_token-get_current_user :
    (security : Security) (primary secret jti issued now : ℕ) (user : User) (db : Db)
    → JwtLaws security (jwt_signing_key security) (payload_of security user.id user.role jti issued)
    → jwt_signing_key security ≢ 0
    → now < issued + minutes security.jwt_access_token_expire_minutes
    → find_live_user user.id db ≡ some user
    → (user.is_active && is_none user.disabled_at) ≡ true
    → is_suspended user.status ≡ false
    → get_current_user
        (rotate_secrets primary secret security)
        (some (create_access_token security user.id user.role jti issued).0)
        now
        db
      ≡ (ok user, db)
unfolding jwt_verification_keys decode_access_token
create_access_token-get_current_user security primary secret jti issued now user db laws signed soon
      found able active =
    let key = jwt_signing_key security in
    let payload = payload_of security user.id user.role jti issued in
    let token = security.jwt_encode key payload in
    let new = rotate_secrets primary secret security in
    let decoded : decode_access_token new token now db ≡ (ok (read_back payload), db) =
      ap (λ f. f db)
        (decode_keys-rotate_secrets primary secret security token now (jwt_verification_keys new))
      ∙ decode_keys-holds security key payload laws now (jwt_verification_keys new) db soon
          (holds-or_secret key secret _ (holds-add_key key _ signed)) in
    admits new token now (read_back payload) user db decoded found able active
