-- ===== src/Auth/Accounts.antt =====
-- auth_service.py: signing up with an invitation, and signing in.
use marketplace_invite_only.Common.{
  ℕ, ◌+◌, ◌-◌, ◌/◌, Bool, true, not, ◌&&◌, Option, none, some, [], ◌∷◌, ◌++◌, String, ◌==◌, is_none,
  is_some, if◌then◌else◌,
}
use marketplace_invite_only.Common.Tables.{select, find, update}
use marketplace_invite_only.Models.{
  UserRole, UserStatus, InviteLinkType, is_suspended, User, InviteLink, RefreshToken, Referral, Db,
}
use marketplace_invite_only.Session.{Error, gets, or_raise, scalar_one_or_none, raise_if, modify}
use marketplace_invite_only.Session.Transaction.{Step, act, finish, commit, ◌>>=◌, ◌>>◌}
use marketplace_invite_only.Orders.Retention.{days}
use marketplace_invite_only.Invites.Links.{consume_invite}
use marketplace_invite_only.Auth.Security.{Security, create_access_token}

-- `SignupRequest`
pub record SignupRequest : Type 0 where
  pub email : ℕ
  pub password : ℕ
  pub display_name : String
  pub phone : Option String
  pub invite_token : ℕ
  pub role_choice : Option UserRole

-- What issuing a pair of tokens draws, and the clock each time that it is read.
pub record TokenDraws : Type 0 where
  pub jti : ℕ
  pub token_id : ℕ
  pub plaintext : ℕ
  pub access_now : ℕ
  pub expires_now : ℕ
  pub issued_now : ℕ
  pub response_now : ℕ

pub record LoginResponse : Type 0 where
  pub user_id : ℕ
  pub email : ℕ
  pub role : UserRole
  pub display_name : String
  pub access_token : ℕ
  pub refresh_token : ℕ
  pub expires_in : ℕ

abbrev pub with_refresh_token : RefreshToken → Db → Db
with_refresh_token row db = record db { refresh_tokens = db.refresh_tokens ++ row ∷ [] }

abbrev pub with_user : User → Db → Db
with_user u db = record db { users = db.users ++ u ∷ [] }

abbrev pub with_referral : Referral → Db → Db
with_referral r db = record db { referrals = db.referrals ++ r ∷ [] }

abbrev pub set_user : ℕ → (User → User) → Db → Db
set_user user_id f db = record db { users = update (λ (u : User). u.id) user_id f db.users }

-- `User.email == email, User.deleted_at IS NULL`
abbrev pub has_email : ℕ → User → Bool
has_email email u = u.email == email && is_none u.deleted_at

-- The role of the new user, by the type of the invitation.
abbrev pub invited_role : InviteLinkType → InviteLink → Option UserRole → Option UserRole
invited_role InviteLinkType.admin_invite invite role_choice = invite.role_target
invited_role InviteLinkType.seller_referral invite role_choice = role_choice

abbrev pub referring_seller : InviteLinkType → ℕ → Option ℕ
referring_seller InviteLinkType.admin_invite issuer_id = none
referring_seller InviteLinkType.seller_referral issuer_id = some issuer_id

abbrev pub new_user : SignupRequest → InviteLink → UserRole → ℕ → ℕ → ℕ → User
new_user req invite role user_id pw_hash now = record {
  id = user_id;
  email = req.email;
  password_hash = pw_hash;
  role = role;
  display_name = req.display_name;
  phone = req.phone;
  is_active = true;
  disabled_at = none;
  status = UserStatus.active;
  suspended_at = none;
  suspended_reason = none;
  avatar_url = none;
  referring_seller_id = referring_seller invite.type invite.issuer_id;
  created_at = now;
  deleted_at = none;
}

abbrev pub new_referral_row : ℕ → InviteLink → ℕ → Referral
new_referral_row id invite user_id = record {
  id = id;
  referrer_id = invite.issuer_id;
  referred_user_id = user_id;
  invite_link_id = invite.id;
}

-- The users with this email address, deleted ones too: the column is unique.
abbrev pub email_in_use : ℕ → Db → Bool
email_in_use email db = is_some (find (λ (u : User). u.email) email db.users)

module _ (security : Security) where
  -- `_create_refresh_token_row`
  abbrev pub create_refresh_token_row : ℕ → Option String → TokenDraws → RefreshToken
  create_refresh_token_row user_id device_label draws = record {
    id = draws.token_id;
    user_id = user_id;
    token_hash = security.sha256 draws.plaintext;
    device_label = device_label;
    issued_at = draws.issued_now;
    last_used_at = none;
    expires_at = draws.expires_now + days security.jwt_refresh_token_expire_days;
    revoked_at = none;
  }

  -- `_build_login_response`, with the seconds that are left rounded down and never below 0
  abbrev pub build_login_response : User → ℕ × ℕ → TokenDraws → LoginResponse
  build_login_response user (access_token, exp) draws = record {
    user_id = user.id;
    email = user.email;
    role = user.role;
    display_name = user.display_name;
    access_token = access_token;
    refresh_token = draws.plaintext;
    expires_in = (exp - draws.response_now) / 1000000;
  }

  abbrev pub issue_for : User → TokenDraws → LoginResponse
  issue_for user draws =
      build_login_response user
        (create_access_token security user.id user.role draws.jti draws.access_now) draws

  unfoldable pub signup : SignupRequest → ℕ → ℕ → ℕ → ℕ → TokenDraws → Step LoginResponse
  signup req user_id referral_id salt now draws = do
    act (raise_if (security.is_common_password req.password) Error.password_too_common)
    invite ← act (consume_invite req.invite_token req.role_choice now)
    rows ← act (gets (λ db. select (has_email req.email) db.users))
    existing ← act (scalar_one_or_none rows)
    act (raise_if (is_some existing) Error.email_taken)
    role ← act (or_raise (invited_role invite.type invite req.role_choice) Error.integrity)
    taken ← act (gets (email_in_use req.email))
    act (raise_if taken Error.integrity)
    let user = new_user req invite role user_id (security.hash_password salt req.password) now
    act (modify (with_user user))
    act (modify (with_referral (new_referral_row referral_id invite user_id)))
    act (modify (with_refresh_token (create_refresh_token_row user_id none draws)))
    commit
    finish (issue_for user draws)

  -- `user is not None and verify_password(password, user.password_hash)`
  abbrev pub verified : ℕ → Option User → Option User
  verified password none = none
  verified password (some u) =
      if security.verify_password password u.password_hash then some u else none

  unfoldable pub login : ℕ → ℕ → Option String → ℕ → TokenDraws → Step LoginResponse
  login email password device_label salt draws = do
    rows ← act (gets (λ db. select (has_email email) db.users))
    found ← act (scalar_one_or_none rows)
    user ← act (or_raise (verified password found) Error.invalid_credentials)
    act (raise_if (not user.is_active) Error.invalid_credentials)
    act (raise_if (is_suspended user.status) Error.account_suspended)
    act (
        modify (
          if security.needs_rehash user.password_hash
          then set_user user.id
              (λ u. record u { password_hash = security.hash_password salt password })
          else (λ db. db)))
    act (modify (with_refresh_token (create_refresh_token_row user.id device_label draws)))
    commit
    finish (issue_for user draws)
