-- ===== src/Auth/Sessions.antt =====
-- auth_service.py: refresh tokens, each good for one use, and signing out. A token that is presented
-- again after its use revokes all tokens of its user, and the commit in the middle of `refresh` makes
-- that stay although the call raises.
use marketplace_invite_only.Common.{
  ℕ, ◌+◌, ◌-◌, ◌/◌, Bool, not, ◌&&◌, ◌||◌, Option, none, some, ◌==◌, ltb, is_none, is_some,
  if◌then◌else◌,
}
use marketplace_invite_only.Common.Tables.{find, update, update_where}
use marketplace_invite_only.Models.{User, RefreshToken, Db}
use marketplace_invite_only.Session.{Error, gets, or_raise, raise_if, modify}
use marketplace_invite_only.Session.Transaction.{Step, act, finish, fail, commit, ◌>>=◌, ◌>>◌}
use marketplace_invite_only.Orders.Retention.{days}
use marketplace_invite_only.Auth.Security.{Security, create_access_token, find_live_user}
use marketplace_invite_only.Auth.Accounts.{TokenDraws, with_refresh_token}

pub record RefreshResponse : Type 0 where
  pub access_token : ℕ
  pub refresh_token : ℕ
  pub expires_in : ℕ

-- the tokens of the user that are not revoked
abbrev pub is_active_token : ℕ → RefreshToken → Bool
is_active_token user_id t = t.user_id == user_id && is_none t.revoked_at

abbrev pub revoke_token : ℕ → RefreshToken → RefreshToken
revoke_token now t = record t { revoked_at = some now }

-- `UPDATE refresh_tokens SET revoked_at = now` for the active tokens of the user
abbrev pub revoke_all : ℕ → ℕ → Db → Db
revoke_all user_id now db = record db {
  refresh_tokens = update_where (is_active_token user_id) (revoke_token now) db.refresh_tokens;
}

abbrev pub find_token_hash : ℕ → Db → Option RefreshToken
find_token_hash token_hash db =
    find (λ (t : RefreshToken). t.token_hash) token_hash db.refresh_tokens

abbrev pub set_token : ℕ → (RefreshToken → RefreshToken) → Db → Db
set_token token_id f db = record db {
  refresh_tokens = update (λ (t : RefreshToken). t.id) token_id f db.refresh_tokens;
}

-- `user is None or not user.is_active or user.disabled_at is not None`
abbrev pub usable_user : Option User → Option User
usable_user none = none
usable_user (some u) = if not u.is_active || is_some u.disabled_at then none else some u

abbrev pub use_token : ℕ → RefreshToken → RefreshToken
use_token now t = record t { revoked_at = some now; last_used_at = some now }

module _ (security : Security) where
  -- The new row; its life of seven days is written out in the code.
  abbrev pub next_token : RefreshToken → ℕ → ℕ → TokenDraws → RefreshToken
  next_token row user_id now draws = record {
    id = draws.token_id;
    user_id = user_id;
    token_hash = security.sha256 draws.plaintext;
    device_label = row.device_label;
    issued_at = now;
    last_used_at = none;
    expires_at = now + days 7;
    revoked_at = none;
  }

  abbrev pub refresh_response : User → ℕ → TokenDraws → RefreshResponse
  refresh_response user now draws =
      let (access_token, exp) =
        create_access_token security user.id user.role draws.jti draws.access_now in
      record {
        access_token = access_token;
        refresh_token = draws.plaintext;
        expires_in = (exp - now) / 1000000;
      }

  -- reuse of a revoked token
  unfoldable pub revoke_family : RefreshToken → ℕ → Step RefreshResponse
  revoke_family row reused_now = do
    act (modify (revoke_all row.user_id reused_now))
    commit
    fail Error.token_reused

  -- the rotation of a token that is not revoked
  unfoldable pub rotate : RefreshToken → ℕ → TokenDraws → Step RefreshResponse
  rotate row now draws = do
    act (raise_if (ltb row.expires_at now) Error.token_expired)
    found ← act (gets (find_live_user row.user_id))
    user ← act (or_raise (usable_user found) Error.authentication)
    act (modify (set_token row.id (use_token now)))
    act (modify (with_refresh_token (next_token row user.id now draws)))
    commit
    finish (refresh_response user now draws)

  unfoldable pub refresh : ℕ → ℕ → TokenDraws → Step RefreshResponse
  refresh plaintext_refresh now draws = do
    found ← act (gets (find_token_hash (security.sha256 plaintext_refresh)))
    row ← act (or_raise found Error.invalid_token)
    if is_some row.revoked_at then revoke_family row now else rotate row now draws

  unfoldable pub revoke_if_active : Option RefreshToken → ℕ → Step (Unit {0})
  revoke_if_active none now = finish tt
  revoke_if_active (some row) now =
      if is_none row.revoked_at
      then act (modify (set_token row.id (revoke_token now))) >> commit
      else finish tt

  unfoldable pub logout : ℕ → ℕ → Step (Unit {0})
  logout plaintext_refresh now = do
    row ← act (gets (find_token_hash (security.sha256 plaintext_refresh)))
    revoke_if_active row now

unfoldable pub logout_all : User → ℕ → Step (Unit {0})
logout_all user now = do act (modify (revoke_all user.id now)); commit
