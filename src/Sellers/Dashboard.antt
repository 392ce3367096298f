-- ===== src/Sellers/Dashboard.antt =====
-- seller_service.py: who sees a seller, and the dashboard with its sums over snapshots and orders.
use marketplace_invite_only.Common.{
  ℕ, ◌+◌, Bool, not, ◌&&◌, ◌||◌, Option, none, some, List, [], ◌∷◌, String, ◌==◌, is_none, opt_eq,
  if◌then◌else◌,
}
use marketplace_invite_only.Common.Text.{is_empty}
use marketplace_invite_only.Common.Tables.{select, find, count}
use marketplace_invite_only.Models.{
  UserRole, OrderStatus, role_is, status_is, User, Seller, Store, Order, OrderAnalyticsSnapshot,
  PlatformSettings, Db,
}
use marketplace_invite_only.Session.{
  Error, Action, pure, raise, gets, or_raise, scalar_one_or_none, raise_if, ◌>>=◌, ◌>>◌,
}
use marketplace_invite_only.Orders.Loading.{live_seller, get_caller_seller}

abbrev pub find_seller : ℕ → Db → Option Seller
find_seller seller_id db = find (λ (s : Seller). s.id) seller_id db.sellers

abbrev pub is_public_store_of : ℕ → Store → Bool
is_public_store_of seller_id s = s.seller_id == seller_id && s.is_public && is_none s.deleted_at

-- The branches of `get_seller_for_caller` on the caller's role.
unfoldable pub ensure_seller_visible : UserRole → User → Seller → Action (Unit {0})
ensure_seller_visible UserRole.admin caller seller = pure tt
ensure_seller_visible UserRole.seller caller seller =
    raise_if (not (seller.user_id == caller.id)) Error.seller_not_found
ensure_seller_visible UserRole.customer caller seller = do
  shown ← gets (λ db. select (is_public_store_of seller.id) db.stores)
  public_store ← scalar_one_or_none shown
  raise_if (is_none public_store && not (opt_eq caller.referring_seller_id seller.id))
      Error.visibility_denied
ensure_seller_visible UserRole.driver caller seller = raise Error.seller_not_found

unfoldable pub get_seller_for_caller : User → ℕ → Action Seller
get_seller_for_caller caller seller_id = do
  found ← gets (λ db. live_seller (find_seller seller_id db))
  seller ← or_raise found Error.seller_not_found
  ensure_seller_visible caller.role caller seller
  pure seller

-- `code or "USD"`
abbrev pub currency_of : Option PlatformSettings → String
currency_of none = "USD"
currency_of (some ps) = if is_empty ps.currency_code then "USD" else ps.currency_code

-- `status in ACTIVE_ORDER_STATUSES`
abbrev pub is_active_status : OrderStatus → Bool
is_active_status s =
    status_is s OrderStatus.pending
    || status_is s OrderStatus.accepted
    || status_is s OrderStatus.preparing
    || status_is s OrderStatus.out_for_delivery

abbrev pub is_active_order : ℕ → Order → Bool
is_active_order seller_id o =
    o.seller_id == seller_id && is_none o.deleted_at && is_active_status o.status

-- `coalesce(sum(total_minor), 0)` over the snapshots of a seller
unfoldable pub sales_of : ℕ → List OrderAnalyticsSnapshot → ℕ
sales_of seller_id [] = 0
sales_of seller_id (s ∷ rest) =
    (if s.seller_id == seller_id then s.total_minor else 0) + sales_of seller_id rest

pub record Dashboard : Type 0 where
  pub seller_id : ℕ
  pub lifetime_sales_amount : ℕ
  pub lifetime_orders_count : ℕ
  pub active_orders_count : ℕ
  pub currency_code : String
  pub last_updated : ℕ

abbrev pub dashboard_of : ℕ → ℕ → Db → Dashboard
dashboard_of seller_id now db = record {
  seller_id = seller_id;
  lifetime_sales_amount = sales_of seller_id db.snapshots;
  lifetime_orders_count =
      count (λ (s : OrderAnalyticsSnapshot). s.seller_id == seller_id) db.snapshots;
  active_orders_count = count (is_active_order seller_id) db.orders;
  currency_code = currency_of db.settings;
  last_updated = now;
}

-- The branches of `get_dashboard` on the seller that is asked for.
unfoldable pub dashboard_seller : User → Option ℕ → Action Seller
dashboard_seller caller none = get_caller_seller caller
dashboard_seller caller (some target_seller_id) = do
  raise_if (not (role_is caller.role UserRole.admin)) Error.visibility_denied
  found ← gets (find_seller target_seller_id)
  or_raise found Error.seller_not_found

unfoldable pub get_dashboard : User → Option ℕ → ℕ → Action Dashboard
get_dashboard caller target_seller_id now = do
  seller ← dashboard_seller caller target_seller_id
  gets (dashboard_of seller.id now)
