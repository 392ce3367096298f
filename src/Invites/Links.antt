-- ===== src/Invites/Links.antt =====
-- The functions of invite_service.py. A token is a number: the code only compares tokens, and a new
-- one is an argument of the call, as is the clock. The calls end with `db.commit()`.
use marketplace_invite_only.Common.{
  ℕ, ◌+◌, Bool, true, false, not, ◌&&◌, ◌||◌, Option, none, some, [], ◌∷◌, ◌++◌, ◌==◌, ltb, leb,
  is_some, is_none,
}
use marketplace_invite_only.Common.Tables.{select, find, update, update_where}
use marketplace_invite_only.Models.{
  UserRole, InviteLinkType, role_is, is_referral, User, Seller, InviteLink, Db,
}
use marketplace_invite_only.Session.{
  Error, Action, pure, gets, or_raise, scalar_one_or_none, raise_if, modify, ◌>>=◌, ◌>>◌,
}
use marketplace_invite_only.Orders.Loading.{live_seller}
use marketplace_invite_only.Orders.Retention.{hours}

-- `_is_expired`
abbrev pub is_expired : ℕ → InviteLink → Bool
is_expired now i = elim i.expires_at [ none ↦ false | some at ↦ ltb at now ]

-- `_is_used`
abbrev pub is_used : InviteLink → Bool
is_used i = elim i.max_uses [ none ↦ false | some limit ↦ leb limit i.used_count ]

abbrev pub new_admin_invite : ℕ → ℕ → ℕ → UserRole → ℕ → InviteLink
new_admin_invite id issuer_id token role_target expires_at = record {
  id = id;
  issuer_id = issuer_id;
  type = InviteLinkType.admin_invite;
  token = token;
  role_target = some role_target;
  max_uses = some 1;
  used_count = 0;
  expires_at = some expires_at;
  revoked_at = none;
}

abbrev pub new_referral : ℕ → ℕ → ℕ → InviteLink
new_referral id issuer_id token = record {
  id = id;
  issuer_id = issuer_id;
  type = InviteLinkType.seller_referral;
  token = token;
  role_target = none;
  max_uses = none;
  used_count = 0;
  expires_at = none;
  revoked_at = none;
}

abbrev pub with_invite : InviteLink → Db → Db
with_invite i db = record db { invites = db.invites ++ i ∷ [] }

-- A `role_target` that is no role cannot be written in the model, so the second test of the source
-- has no counterpart.
unfoldable pub create_admin_invite : User → UserRole → ℕ → ℕ → ℕ → ℕ → Action InviteLink
create_admin_invite issuer role_target expires_in_hours invite_id token now = do
  raise_if (not (role_is issuer.role UserRole.admin)) Error.authorization
  modify (
      with_invite
        (new_admin_invite invite_id issuer.id token role_target (now + hours expires_in_hours)))
  pure (new_admin_invite invite_id issuer.id token role_target (now + hours expires_in_hours))

-- An active referral of the issuer.
abbrev pub is_active_referral : ℕ → InviteLink → Bool
is_active_referral issuer_id i =
    i.issuer_id == issuer_id && (is_referral i.type && is_none i.revoked_at)

abbrev pub may_refer : UserRole → Bool
may_refer r = role_is r UserRole.seller || role_is r UserRole.admin

abbrev pub seller_profile : ℕ → Db → Option Seller
seller_profile user_id db = live_seller (find (λ (s : Seller). s.user_id) user_id db.sellers)

-- The two checks that the referral calls begin with.
unfoldable pub ensure_seller : User → Action (Unit {0})
ensure_seller user = do
  raise_if (not (may_refer user.role)) Error.authorization
  seller ← gets (seller_profile user.id)
  raise_if (is_none seller) Error.authorization

unfoldable pub create_referral : User → ℕ → ℕ → Action InviteLink
create_referral user invite_id token = do
  modify (with_invite (new_referral invite_id user.id token))
  pure (new_referral invite_id user.id token)

unfoldable pub existing_or_new : User → ℕ → ℕ → Option InviteLink → Action InviteLink
existing_or_new user invite_id token (some i) = pure i
existing_or_new user invite_id token none = create_referral user invite_id token

unfoldable pub get_or_create_seller_referral : User → ℕ → ℕ → Action InviteLink
get_or_create_seller_referral user invite_id token = do
  ensure_seller user
  rows ← gets (λ db. select (is_active_referral user.id) db.invites)
  existing ← scalar_one_or_none rows
  existing_or_new user invite_id token existing

-- `UPDATE invite_links SET revoked_at = now` for the active referrals of the issuer
abbrev pub revoke_referrals : ℕ → ℕ → Db → Db
revoke_referrals issuer_id now db = record db {
  invites =
      update_where (is_active_referral issuer_id) (λ i. record i { revoked_at = some now })
        db.invites;
}

unfoldable pub regenerate_seller_referral : User → ℕ → ℕ → ℕ → Action InviteLink
regenerate_seller_referral user invite_id token now = do
  ensure_seller user
  modify (revoke_referrals user.id now)
  create_referral user invite_id token

-- The role checks of `revoke_invite`.
unfoldable pub may_revoke : UserRole → ℕ → InviteLink → Bool
may_revoke UserRole.admin user_id i = true
may_revoke UserRole.seller user_id i = i.issuer_id == user_id && is_referral i.type
may_revoke _ user_id i = false

abbrev pub set_invite : ℕ → (InviteLink → InviteLink) → Action (Unit {0})
set_invite invite_id f =
    modify (λ db. record db { invites = update (λ (i : InviteLink). i.id) invite_id f db.invites })

unfoldable pub revoke_invite : User → ℕ → ℕ → Action (Unit {0})
revoke_invite user invite_id now = do
  found ← gets (λ db. find (λ (i : InviteLink). i.id) invite_id db.invites)
  invite ← or_raise found Error.not_found
  raise_if (is_used invite) Error.invite_already_used
  raise_if (not (may_revoke user.role user.id invite)) Error.authorization
  set_invite invite.id (λ i. record i { revoked_at = some now })

-- The flags of `ValidateInviteResponse`.
pub record InviteFlags : Type 0 where
  pub valid : Bool
  pub already_used : Bool
  pub expired : Bool
  pub revoked : Bool

abbrev pub find_token : ℕ → Db → Option InviteLink
find_token token db = find (λ i. i.token) token db.invites

abbrev pub flags_of : ℕ → Option InviteLink → InviteFlags
flags_of now none = record { valid = false; already_used = false; expired = false; revoked = false }
flags_of now (some i) = record {
  valid = not (is_expired now i) && (not (is_some i.revoked_at) && not (is_used i));
  already_used = is_used i;
  expired = is_expired now i;
  revoked = is_some i.revoked_at;
}

unfoldable pub validate_invite : ℕ → ℕ → Action InviteFlags
validate_invite token now = gets (λ db. flags_of now (find_token token db))

abbrev pub opt_role_is : Option UserRole → UserRole → Bool
opt_role_is none r = false
opt_role_is (some s) r = role_is s r

-- `chosen_role is not None and chosen_role != invite.role_target`
abbrev pub role_mismatch : Option UserRole → Option UserRole → Bool
role_mismatch none target = false
role_mismatch (some r) target = not (opt_role_is target r)

-- `chosen_role not in SELLER_REFERRAL_ROLES`
abbrev pub not_referable : Option UserRole → Bool
not_referable none = true
not_referable (some r) = not (role_is r UserRole.customer || role_is r UserRole.seller)

abbrev pub role_of : Option User → Option UserRole
role_of none = none
role_of (some u) = some u.role

-- The role validation of `consume_invite`, by the type of the invite.
unfoldable pub check_role : InviteLinkType → InviteLink → Option UserRole → Action (Unit {0})
check_role InviteLinkType.admin_invite invite chosen_role = do
  raise_if (role_mismatch chosen_role invite.role_target) Error.invite_role_mismatch
  raise_if (is_none invite.role_target) Error.invite_invalid
check_role InviteLinkType.seller_referral invite chosen_role = do
  raise_if (not_referable chosen_role) Error.invite_role_mismatch
  issuer ← gets (λ db. find (λ (u : User). u.id) invite.issuer_id db.users)
  raise_if (not (opt_role_is (role_of issuer) UserRole.seller)) Error.invite_invalid
  seller ← gets (seller_profile invite.issuer_id)
  raise_if (is_none seller) Error.invite_invalid

unfoldable pub consume_invite : ℕ → Option UserRole → ℕ → Action InviteLink
consume_invite token chosen_role now = do
  found ← gets (find_token token)
  invite ← or_raise found Error.invite_invalid
  raise_if (is_some invite.revoked_at) Error.invite_revoked
  raise_if (is_expired now invite) Error.invite_expired
  raise_if (is_used invite) Error.invite_already_used
  check_role invite.type invite chosen_role
  set_invite invite.id (λ i. record i { used_count = i.used_count + 1 })
  pure (record invite { used_count = invite.used_count + 1 })
