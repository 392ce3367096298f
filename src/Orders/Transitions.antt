-- ===== src/Orders/Transitions.antt =====
-- The seller's and the admin's transitions of order_service.py up to the choice of a driver. The
-- clock readings and the new ids of a call are its arguments.
use marketplace_invite_only.Common.{
  ℕ, Bool, not, ◌&&◌, ◌||◌, Option, none, some, List, [], ◌∷◌, ◌++◌, ◌==◌, is_some, if◌then◌else◌,
}
use marketplace_invite_only.Common.Tables.{order_by_desc, first, select, find, update}
use marketplace_invite_only.Models.{
  UserRole, OrderStatus, DeliveryStatus, AssignmentStatus, role_is, status_is, is_open, User, Order,
  Delivery, DriverAssignment, Db,
}
use marketplace_invite_only.Session.{
  Error, Action, pure, gets, or_raise, scalar_one_or_none, raise_if, modify, ◌>>=◌, ◌>>◌,
}
use marketplace_invite_only.Orders.Loading.{
  FullOrder, find_delivery, assignments_of, reload, set_order, get_caller_seller, lock_order_or_404,
}

abbrev pub accept_at : ℕ → Order → Order
accept_at now o = record o { status = OrderStatus.accepted; accepted_at = some now }

abbrev pub prepare_at : ℕ → Order → Order
prepare_at now o = record o { status = OrderStatus.preparing; preparing_at = some now }

unfoldable pub accept_order : User → ℕ → ℕ → Action FullOrder
accept_order caller order_id now = do
  raise_if (not (role_is caller.role UserRole.seller)) Error.order_not_found
  order ← lock_order_or_404 order_id caller
  raise_if (not (status_is order.status OrderStatus.pending)) Error.order_invalid_transition
  set_order order.id (accept_at now)
  reload order.id

unfoldable pub mark_preparing : User → ℕ → ℕ → Action FullOrder
mark_preparing caller order_id now = do
  raise_if (not (role_is caller.role UserRole.seller)) Error.order_not_found
  order ← lock_order_or_404 order_id caller
  raise_if (not (status_is order.status OrderStatus.accepted)) Error.order_invalid_transition
  set_order order.id (prepare_at now)
  reload order.id

-- `order.status in ("accepted", "preparing")`
abbrev pub in_fulfillment : OrderStatus → Bool
in_fulfillment s = status_is s OrderStatus.accepted || status_is s OrderStatus.preparing

abbrev pub open_assignments : ℕ → Db → List DriverAssignment
open_assignments order_id db =
    select (λ a. a.order_id == order_id && is_open a.status) db.assignments

-- The two selects that `choose_self_delivery` and `request_driver` begin with.
unfoldable pub ensure_not_chosen : ℕ → Action (Unit {0})
ensure_not_chosen order_id = do
  existing_delivery ← gets (find_delivery order_id)
  raise_if (is_some existing_delivery) Error.fulfillment_already_chosen
  rows ← gets (open_assignments order_id)
  existing_req ← scalar_one_or_none rows
  raise_if (is_some existing_req) Error.fulfillment_already_chosen

-- A new `deliveries` row; the columns that the call leaves out are NULL.
abbrev pub new_delivery : ℕ → ℕ → Option ℕ → ℕ → DeliveryStatus → Option ℕ → Delivery
new_delivery id order_id driver_id seller_id status started_at = record {
  id = id;
  order_id = order_id;
  driver_id = driver_id;
  seller_id = seller_id;
  status = status;
  started_at = started_at;
  delivered_at = none;
  current_lat = none;
  current_lng = none;
  last_location_at = none;
  distance_meters = none;
  duration_seconds = none;
  current_eta_seconds = none;
  current_eta_updated_at = none;
}

abbrev pub with_new_delivery : Delivery → Db → Db
with_new_delivery d db = record db { deliveries = db.deliveries ++ d ∷ [] }

abbrev pub add_delivery : Delivery → Action (Unit {0})
add_delivery d = modify (with_new_delivery d)

unfoldable pub choose_self_delivery : User → ℕ → ℕ → Action FullOrder
choose_self_delivery caller order_id delivery_id = do
  raise_if (not (role_is caller.role UserRole.seller)) Error.order_not_found
  order ← lock_order_or_404 order_id caller
  raise_if (not (in_fulfillment order.status)) Error.order_invalid_transition
  ensure_not_chosen order.id
  seller ← get_caller_seller caller
  add_delivery (new_delivery delivery_id order.id none seller.id DeliveryStatus.pending none)
  reload order.id

abbrev pub new_request : ℕ → ℕ → ℕ → ℕ → DriverAssignment
new_request id order_id seller_id now = record {
  id = id;
  order_id = order_id;
  driver_id = none;
  status = AssignmentStatus.requested;
  requested_by_seller_id = seller_id;
  requested_at = now;
  assigned_by_admin_id = none;
  assigned_at = none;
}

abbrev pub with_new_request : DriverAssignment → Db → Db
with_new_request a db = record db { assignments = db.assignments ++ a ∷ [] }

-- `requested_at` is the server's clock at the insert
unfoldable pub request_driver : User → ℕ → ℕ → ℕ → Action FullOrder
request_driver caller order_id assignment_id now = do
  raise_if (not (role_is caller.role UserRole.seller)) Error.order_not_found
  order ← lock_order_or_404 order_id caller
  raise_if (not (in_fulfillment order.status)) Error.order_invalid_transition
  ensure_not_chosen order.id
  seller ← get_caller_seller caller
  modify (with_new_request (new_request assignment_id order.id seller.id now))
  reload order.id

abbrev active_driver : Option User → Option User
active_driver none = none
active_driver (some u) =
    if role_is u.role UserRole.driver && not (is_some u.deleted_at) && u.is_active
    then some u
    else none

-- the select of an active driver by its id
abbrev pub find_active_driver : ℕ → Db → Option User
find_active_driver driver_id db = active_driver (find (λ (u : User). u.id) driver_id db.users)

-- `active[0]`, once `active` is not empty and none of it has a driver
unfoldable pub pick_pending : List DriverAssignment → Action DriverAssignment
pick_pending active = do
  pending ← or_raise (first active) Error.driver_not_requested
  raise_if (is_some (first (select (λ a. is_some a.driver_id) active)))
      Error.driver_already_assigned
  pure pending

abbrev pub assign_to : ℕ → ℕ → ℕ → DriverAssignment → DriverAssignment
assign_to driver_id admin_id now a = record a {
  driver_id = some driver_id;
  status = AssignmentStatus.assigned;
  assigned_by_admin_id = some admin_id;
  assigned_at = some now;
}

abbrev pub with_assignment : ℕ → (DriverAssignment → DriverAssignment) → Db → Db
with_assignment assignment_id f db = record db {
  assignments = update (λ (a : DriverAssignment). a.id) assignment_id f db.assignments;
}

unfoldable pub assign_driver : User → ℕ → ℕ → ℕ → Action FullOrder
assign_driver caller order_id driver_id now = do
  raise_if (not (role_is caller.role UserRole.admin)) Error.order_not_found
  order ← lock_order_or_404 order_id caller
  raise_if (not (in_fulfillment order.status)) Error.order_invalid_transition
  driver_user ← gets (find_active_driver driver_id)
  raise_if (not (is_some driver_user)) Error.order_invalid_transition
  rows ← gets (assignments_of order.id)
  pending ← pick_pending (select (λ a. is_open a.status) (order_by_desc (λ a. a.requested_at) rows))
  modify (with_assignment pending.id (assign_to driver_id caller.id now))
  reload order.id
