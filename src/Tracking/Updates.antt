-- ===== src/Tracking/Updates.antt =====
-- Location reports and the admin's patch in delivery_tracking_service.py.
use marketplace_invite_only.Common.{ℕ, max, not, Option, none, some, is_some, if◌then◌else◌}
use marketplace_invite_only.Models.{
  UserRole, role_is, OrderStatus, status_is, is_delivered, User, Order, Delivery,
}
use marketplace_invite_only.Session.{Error, Action, pure, gets, or_raise, raise_if, ◌>>=◌, ◌>>◌}
use marketplace_invite_only.Orders.Loading.{find_delivery, set_delivery}
use marketplace_invite_only.Orders.Transitions.{find_active_driver}
use marketplace_invite_only.Tracking.Views.{is_customer, load_order, resolve_role}

-- `prev = delivery.distance_meters or 0; delivery.distance_meters = max(prev, distance_meters)`
abbrev pub grow_distance : Option ℕ → Option ℕ → Option ℕ
grow_distance old none = old
grow_distance none (some n) = some n
grow_distance (some m) (some n) = some (max m n)

abbrev pub keep_or : {A : Type 0} → Option A → Option A → Option A
keep_or none old = old
keep_or (some a) old = some a

-- the assignments to the columns of the delivery in `post_location`
abbrev pub move_to : ℕ → ℕ → Option ℕ → Option ℕ → ℕ → Delivery → Delivery
move_to lat lng eta_seconds distance_meters now d = record d {
  current_lat = some lat;
  current_lng = some lng;
  last_location_at = some now;
  current_eta_seconds = keep_or eta_seconds d.current_eta_seconds;
  current_eta_updated_at = if is_some eta_seconds then some now else d.current_eta_updated_at;
  distance_meters = grow_distance d.distance_meters distance_meters;
}

unfoldable pub post_location :
    User → ℕ → ℕ → ℕ → Option ℕ → Option ℕ → ℕ → Action (Order × Delivery)
post_location user order_id lat lng eta_seconds distance_meters now = do
  found ← load_order order_id
  order ← or_raise found Error.order_not_found
  resolved ← resolve_role user order
  role ← or_raise resolved Error.order_not_found
  raise_if (is_customer role) Error.authorization
  raise_if (not (status_is order.status OrderStatus.out_for_delivery))
      Error.order_invalid_transition
  existing ← gets (find_delivery order.id)
  delivery ← or_raise existing Error.order_invalid_transition
  raise_if (is_delivered delivery.status) Error.order_invalid_transition
  set_delivery order.id (move_to lat lng eta_seconds distance_meters now)
  pure (order, move_to lat lng eta_seconds distance_meters now delivery)

abbrev pub patch : Option ℕ → Option ℕ → Option ℕ → Delivery → Delivery
patch driver_id distance_meters duration_seconds d = record d {
  driver_id = keep_or driver_id d.driver_id;
  distance_meters = keep_or distance_meters d.distance_meters;
  duration_seconds = keep_or duration_seconds d.duration_seconds;
}

-- `if driver_id is not None:` it must be an active driver
unfoldable pub ensure_driver : Option ℕ → Action (Unit {0})
ensure_driver none = pure tt
ensure_driver (some driver_id) = do
  driver ← gets (find_active_driver driver_id)
  raise_if (not (is_some driver)) Error.order_invalid_transition

unfoldable pub admin_patch_delivery :
    User → ℕ → Option ℕ → Option ℕ → Option ℕ → Action (Order × Delivery)
admin_patch_delivery caller order_id driver_id distance_meters duration_seconds = do
  raise_if (not (role_is caller.role UserRole.admin)) Error.order_not_found
  found ← load_order order_id
  order ← or_raise found Error.order_not_found
  existing ← gets (find_delivery order.id)
  delivery ← or_raise existing Error.order_not_found
  ensure_driver driver_id
  set_delivery order.id (patch driver_id distance_meters duration_seconds)
  pure (order, patch driver_id distance_meters duration_seconds delivery)
