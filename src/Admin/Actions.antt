-- ===== src/Admin/Actions.antt =====
-- admin_service.py: the listings, and what admins do to users, products and invitations. That the
-- caller is an admin is checked before. A search text is a test on rows, since matching is the
-- database's; an unknown role or status that is asked for is none.
use marketplace_invite_only.Common.{
  ℕ, ◌+◌, Bool, true, false, ◌&&◌, Option, none, some, List, String, ◌==◌, is_none,
}
use marketplace_invite_only.Common.Tables.{find, select, update}
use marketplace_invite_only.Models.{
  UserRole, UserStatus, ProductStatus, OrderStatus, role_is, status_is, User, Product, Order,
  InviteLink, Referral, Db,
}
use marketplace_invite_only.Session.{
  Error, Action, pure, gets, or_raise, scalar_one_or_none, modify, ◌>>=◌, ◌>>◌,
}
use marketplace_invite_only.Orders.Retention.{days}
use marketplace_invite_only.Invites.Links.{new_admin_invite, with_invite}
use marketplace_invite_only.Auth.Accounts.{set_user}
use marketplace_invite_only.Auth.Security.{find_live_user}
use marketplace_invite_only.Admin.Pages.{page}

-- the tests that a request may add: a text to look for, a role, a status
abbrev pub wanted : Option UserRole → UserRole → Bool
wanted none r = true
wanted (some s) r = role_is r s

abbrev pub user_status_is : UserStatus → UserStatus → Bool
user_status_is UserStatus.active UserStatus.active = true
user_status_is UserStatus.suspended UserStatus.suspended = true
user_status_is _ _ = false

abbrev pub has_status : Option UserStatus → UserStatus → Bool
has_status none s = true
has_status (some t) s = user_status_is s t

abbrev pub matches : {R : Type 0} → Option (R → Bool) → R → Bool
matches none r = true
matches (some q) r = q r

abbrev pub kept_user : Option (User → Bool) → Option UserRole → Option UserStatus → User → Bool
kept_user q role status u =
    is_none u.deleted_at && (matches q u && (wanted role u.role && has_status status u.status))

unfoldable pub list_users :
    Option (User → Bool)
    → Option UserRole
    → Option UserStatus
    → Option ℕ
    → ℕ
    → Action (List User × Option ℕ)
list_users q role status cursor limit =
    gets λ db. page (λ (u : User). u.created_at) (kept_user q role status) cursor limit db.users

abbrev pub product_status_is : ProductStatus → ProductStatus → Bool
product_status_is ProductStatus.active ProductStatus.active = true
product_status_is ProductStatus.disabled ProductStatus.disabled = true
product_status_is ProductStatus.out_of_stock ProductStatus.out_of_stock = true
product_status_is _ _ = false

abbrev pub has_product_status : Option ProductStatus → ProductStatus → Bool
has_product_status none s = true
has_product_status (some t) s = product_status_is s t

abbrev pub of_seller : Option ℕ → ℕ → Bool
of_seller none seller_id = true
of_seller (some id) seller_id = seller_id == id

abbrev pub kept_product : Option (Product → Bool) → Option ProductStatus → Option ℕ → Product → Bool
kept_product q status seller_id p =
    is_none p.deleted_at
    && (matches q p && (has_product_status status p.status && of_seller seller_id p.seller_id))

unfoldable pub list_products :
    Option (Product → Bool)
    → Option ProductStatus
    → Option ℕ
    → Option ℕ
    → ℕ
    → Action (List Product × Option ℕ)
list_products q status seller_id cursor limit = gets λ db.
    page (λ (p : Product). p.created_at) (kept_product q status seller_id) cursor limit db.products

abbrev pub has_order_status : Option OrderStatus → OrderStatus → Bool
has_order_status none s = true
has_order_status (some t) s = status_is s t

abbrev pub kept_order : Option OrderStatus → Order → Bool
kept_order status o = is_none o.deleted_at && has_order_status status o.status

unfoldable pub list_orders : Option OrderStatus → Option ℕ → ℕ → Action (List Order × Option ℕ)
list_orders status cursor limit =
    gets λ db. page (λ (o : Order). o.placed_at) (kept_order status) cursor limit db.orders

-- `db.get(User, user_id)` with the test on `deleted_at`
unfoldable pub get_live_user : ℕ → Action User
get_live_user user_id = do found ← gets (find_live_user user_id); or_raise found Error.not_found

unfoldable pub get_user_detail : ℕ → Action (User × (Option Referral × List Referral))
get_user_detail user_id = do
  user ← get_live_user user_id
  rows ← gets (λ db. select (λ r. r.referred_user_id == user_id) db.referrals)
  referred_by ← scalar_one_or_none rows
  referred_users ← gets (λ db. select (λ r. r.referrer_id == user_id) db.referrals)
  pure (user, (referred_by, referred_users))

abbrev pub suspend_at : ℕ → String → User → User
suspend_at now reason u = record u {
  status = UserStatus.suspended;
  suspended_at = some now;
  suspended_reason = some reason;
}

abbrev pub lift_suspension : User → User
lift_suspension u = record u {
  status = UserStatus.active;
  suspended_at = none;
  suspended_reason = none;
}

unfoldable pub suspend_user : ℕ → String → ℕ → Action User
suspend_user user_id reason now = do
  user ← get_live_user user_id
  modify (set_user user.id (suspend_at now reason))
  pure (suspend_at now reason user)

unfoldable pub unsuspend_user : ℕ → Action User
unsuspend_user user_id = do
  user ← get_live_user user_id
  modify (set_user user.id lift_suspension)
  pure (lift_suspension user)

-- A `role_target` that is no role cannot be written in the model.
unfoldable pub issue_admin_invite : User → UserRole → ℕ → ℕ → ℕ → ℕ → Action InviteLink
issue_admin_invite issuer role_target expires_in_days invite_id token now = do
  modify (
      with_invite
        (new_admin_invite invite_id issuer.id token role_target (now + days expires_in_days)))
  pure (new_admin_invite invite_id issuer.id token role_target (now + days expires_in_days))

abbrev pub live_product : Option Product → Option Product
live_product none = none
live_product (some p) = elim p.deleted_at [ none ↦ some p | some at ↦ none ]

unfoldable pub get_live_product : ℕ → Action Product
get_live_product product_id = do
  found ← gets (λ db. live_product (find (λ (p : Product). p.id) product_id db.products))
  or_raise found Error.not_found

abbrev pub set_product : ℕ → (Product → Product) → Db → Db
set_product product_id f db = record db {
  products = update (λ (p : Product). p.id) product_id f db.products;
}

abbrev pub disable_at : ℕ → String → Product → Product
disable_at now reason p = record p {
  status = ProductStatus.disabled;
  disabled_at = some now;
  disabled_reason = some reason;
}

abbrev pub enable : Product → Product
enable p = record p { status = ProductStatus.active; disabled_at = none; disabled_reason = none }

unfoldable pub disable_product : ℕ → String → ℕ → Action Product
disable_product product_id reason now = do
  product ← get_live_product product_id
  modify (set_product product.id (disable_at now reason))
  pure (disable_at now reason product)

unfoldable pub restore_product : ℕ → Action Product
restore_product product_id = do
  product ← get_live_product product_id
  modify (set_product product.id enable)
  pure (enable product)
