-- ===== src/Tracking/Views.antt =====
-- The role resolver and the two serializers of delivery_tracking_service.py.
use marketplace_invite_only.Common.{
  ℕ, Bool, true, false, ◌&&◌, Option, none, some, List, ◌==◌, is_some, opt_eq, if◌then◌else◌,
}
use marketplace_invite_only.Common.Tables.{select}
use marketplace_invite_only.Models.{
  UserRole, OrderStatus, DeliveryStatus, is_taken, User, Order, Delivery, DriverAssignment, Address,
  Db,
}
use marketplace_invite_only.Session.{Error, Action, pure, gets, or_raise, scalar_one_or_none, ◌>>=◌}
use marketplace_invite_only.Orders.Loading.{find_order, find_delivery, delivers}

-- `TrackingRole` without "none", which is `none`
pub data TrackingRole : Type 0 where
  customer seller driver admin : TrackingRole

abbrev pub live_order : Option Order → Option Order
live_order none = none
live_order (some o) = if is_some o.deleted_at then none else some o

unfoldable pub load_order : ℕ → Action (Option Order)
load_order order_id = gets (λ db. live_order (find_order order_id db))

abbrev pub assignments_to : ℕ → ℕ → Db → List DriverAssignment
assignments_to order_id driver_id db =
    select (λ a. a.order_id == order_id && (opt_eq a.driver_id driver_id && is_taken a.status))
      db.assignments

unfoldable pub resolve_driver : User → Order → Action (Option TrackingRole)
resolve_driver user order = do
  delivery ← gets (find_delivery order.id)
  if delivers user.id delivery then pure (some TrackingRole.driver) else do
    rows ← gets (assignments_to order.id user.id)
    assignment ← scalar_one_or_none rows
    pure (if is_some assignment then some TrackingRole.driver else none)

unfoldable pub resolve_as : UserRole → User → Order → Action (Option TrackingRole)
resolve_as UserRole.admin user order = pure (some TrackingRole.admin)
resolve_as UserRole.seller user order =
    pure (if order.seller_id == user.id then some TrackingRole.seller else none)
resolve_as UserRole.customer user order =
    pure (if order.customer_id == user.id then some TrackingRole.customer else none)
resolve_as UserRole.driver user order = resolve_driver user order

unfoldable pub resolve_role : User → Order → Action (Option TrackingRole)
resolve_role user order = resolve_as user.role user order

pub record InternalDeliveryView : Type 0 where
  pub order_id : ℕ
  pub delivery_id : ℕ
  pub status : DeliveryStatus
  pub driver_id : Option ℕ
  pub seller_id : ℕ
  pub started_at : Option ℕ
  pub delivered_at : Option ℕ
  pub last_known_lat : Option ℕ
  pub last_known_lng : Option ℕ
  pub last_location_at : Option ℕ
  pub current_eta_seconds : Option ℕ
  pub current_eta_updated_at : Option ℕ
  pub distance_meters : Option ℕ
  pub duration_seconds : Option ℕ
  pub customer_delivery_address : Address

-- The status is the delivery's, or the order's while there is no delivery.
pub data ShownStatus : Type 0 where
  of_delivery : DeliveryStatus → ShownStatus
  of_order : OrderStatus → ShownStatus

pub record CustomerDeliveryView : Type 0 where
  pub order_id : ℕ
  pub status : ShownStatus
  pub eta_seconds : Option ℕ
  pub eta_updated_at : Option ℕ
  pub started_at : Option ℕ
  pub delivered_at : Option ℕ
  pub delivery_address : Address

unfoldable pub build_internal_view : Order → Delivery → InternalDeliveryView
build_internal_view o d = record {
  order_id = o.id;
  delivery_id = d.id;
  status = d.status;
  driver_id = d.driver_id;
  seller_id = d.seller_id;
  started_at = d.started_at;
  delivered_at = d.delivered_at;
  last_known_lat = d.current_lat;
  last_known_lng = d.current_lng;
  last_location_at = d.last_location_at;
  current_eta_seconds = d.current_eta_seconds;
  current_eta_updated_at = d.current_eta_updated_at;
  distance_meters = d.distance_meters;
  duration_seconds = d.duration_seconds;
  customer_delivery_address = o.delivery_address;
}

unfoldable pub build_customer_view : Order → Option Delivery → CustomerDeliveryView
build_customer_view o none = record {
  order_id = o.id;
  status = ShownStatus.of_order o.status;
  eta_seconds = none;
  eta_updated_at = none;
  started_at = none;
  delivered_at = o.delivered_at;
  delivery_address = o.delivery_address;
}
build_customer_view o (some d) = record {
  order_id = o.id;
  status = ShownStatus.of_delivery d.status;
  eta_seconds = d.current_eta_seconds;
  eta_updated_at = d.current_eta_updated_at;
  started_at = d.started_at;
  delivered_at = d.delivered_at;
  delivery_address = o.delivery_address;
}

pub data TrackView : Type 0 where
  for_customer : CustomerDeliveryView → TrackView
  for_internal : InternalDeliveryView → TrackView

abbrev pub is_customer : TrackingRole → Bool
is_customer TrackingRole.customer = true
is_customer _ = false

-- The end of `get_track_view`, once the role and the delivery are known.
unfoldable pub view_for : TrackingRole → Order → Option Delivery → Action TrackView
view_for role order delivery =
    if is_customer role
    then pure (TrackView.for_customer (build_customer_view order delivery))
    else do
      d ← or_raise delivery Error.not_found
      pure (TrackView.for_internal (build_internal_view order d))

unfoldable pub get_track_view : User → ℕ → Action TrackView
get_track_view user order_id = do
  found ← load_order order_id
  order ← or_raise found Error.order_not_found
  resolved ← resolve_role user order
  role ← or_raise resolved Error.order_not_found
  delivery ← gets (find_delivery order.id)
  view_for role order delivery
