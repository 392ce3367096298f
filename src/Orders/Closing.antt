-- ===== src/Orders/Closing.antt =====
-- Completing and cancelling an order in order_service.py, and the analytics snapshot.
use marketplace_invite_only.Common.{
  ℕ, ◌+◌, Bool, not, ◌&&◌, ◌||◌, String, Option, none, some, List, [], ◌∷◌, ◌++◌, ◌==◌, is_some,
  or_else, if◌then◌else◌,
}
use marketplace_invite_only.Common.Tables.{select, find, update_where}
use marketplace_invite_only.Models.{
  UserRole, OrderStatus, AssignmentStatus, role_is, status_is, is_open, User, Seller, Order,
  OrderItem, Delivery, OrderAnalyticsSnapshot, Db,
}
use marketplace_invite_only.Session.{Error, Action, pure, raise, raise_if, modify, ◌>>=◌, ◌>>◌}
use marketplace_invite_only.Orders.Loading.{
  FullOrder, find_delivery, reload, set_order, lock_order_or_404,
}

-- `seller_result.scalar_one_or_none() or ""`; both branches on the store read the seller's city
abbrev pub city_of : Option Seller → String
city_of none = ""
city_of (some s) = s.city

unfoldable pub total_quantity : List OrderItem → ℕ
total_quantity [] = 0
total_quantity (i ∷ rest) = i.quantity + total_quantity rest

abbrev pub delivery_duration : Option Delivery → Option ℕ
delivery_duration none = none
delivery_duration (some d) = d.duration_seconds

abbrev pub delivery_distance : Option Delivery → Option ℕ
delivery_distance none = none
delivery_distance (some d) = d.distance_meters

-- The values of the row that `_write_snapshot` inserts.
unfoldable pub snapshot_of : ℕ → ℕ → Order → Db → OrderAnalyticsSnapshot
unfolding total_quantity
snapshot_of snapshot_id now o db = record {
  id = snapshot_id;
  order_id = o.id;
  seller_id = o.seller_id;
  store_id = o.store_id;
  customer_id = o.customer_id;
  city = city_of (find (λ (s : Seller). s.id) o.seller_id db.sellers);
  item_count = total_quantity (select (λ i. i.order_id == o.id) db.order_items);
  subtotal_minor = o.subtotal_minor;
  total_minor = o.total_minor;
  delivered_at = or_else o.delivered_at (or_else o.completed_at now);
  delivery_duration_seconds = delivery_duration (find_delivery o.id db);
  delivery_distance_meters = delivery_distance (find_delivery o.id db);
}

abbrev pub find_snapshot : ℕ → Db → Option OrderAnalyticsSnapshot
find_snapshot order_id db = find (λ s. s.order_id) order_id db.snapshots

-- `INSERT … ON CONFLICT (order_id) DO NOTHING`
abbrev pub insert_snapshot : OrderAnalyticsSnapshot → Db → Db
insert_snapshot s db =
    if is_some (find_snapshot s.order_id db)
    then db
    else record db { snapshots = db.snapshots ++ s ∷ [] }

abbrev pub with_snapshot : ℕ → ℕ → Order → Db → Db
with_snapshot snapshot_id now o db = insert_snapshot (snapshot_of snapshot_id now o db) db

unfoldable pub write_snapshot : ℕ → ℕ → Order → Action (Unit {0})
write_snapshot snapshot_id now o = modify (with_snapshot snapshot_id now o)

abbrev pub complete_at : ℕ → Order → Order
complete_at now o = record o { status = OrderStatus.completed; completed_at = some now }

-- `now` is the reading for `completed_at`, `later` the one inside `_write_snapshot`
unfoldable pub complete_order : User → ℕ → ℕ → ℕ → ℕ → Action FullOrder
complete_order caller order_id snapshot_id now later = do
  raise_if (not (role_is caller.role UserRole.customer)) Error.order_not_found
  order ← lock_order_or_404 order_id caller
  raise_if (not (status_is order.status OrderStatus.delivered)) Error.order_invalid_transition
  set_order order.id (complete_at now)
  write_snapshot snapshot_id later (complete_at now order)
  reload order.id

-- `status in TERMINAL_STATUSES`
abbrev pub is_terminal : OrderStatus → Bool
is_terminal s = status_is s OrderStatus.completed || status_is s OrderStatus.cancelled

-- The branches of `cancel_order` on the caller's role.
unfoldable pub ensure_may_cancel : UserRole → OrderStatus → Action (Unit {0})
ensure_may_cancel UserRole.customer s =
    raise_if (not (status_is s OrderStatus.pending)) Error.order_invalid_transition
ensure_may_cancel UserRole.seller s =
    raise_if
      (not (
        status_is s OrderStatus.pending
        || status_is s OrderStatus.accepted
        || status_is s OrderStatus.preparing))
      Error.order_invalid_transition
ensure_may_cancel UserRole.admin s = pure tt
ensure_may_cancel UserRole.driver s = raise Error.order_not_found

-- `a.status = "cancelled"` for every open assignment of the order
abbrev pub withdraw_open : ℕ → Db → Db
withdraw_open order_id db = record db {
  assignments =
      update_where (λ a. a.order_id == order_id && is_open a.status)
        (λ a. record a { status = AssignmentStatus.cancelled }) db.assignments;
}

abbrev pub cancel_at : ℕ → Option String → Order → Order
cancel_at now reason o = record o {
  status = OrderStatus.cancelled;
  cancelled_at = some now;
  cancellation_reason = reason;
}

unfoldable pub cancel_order : User → ℕ → Option String → ℕ → Action FullOrder
cancel_order caller order_id reason now = do
  order ← lock_order_or_404 order_id caller
  raise_if (is_terminal order.status || status_is order.status OrderStatus.delivered)
      Error.order_invalid_transition
  ensure_may_cancel caller.role order.status
  set_order order.id (cancel_at now reason)
  modify (withdraw_open order.id)
  reload order.id
