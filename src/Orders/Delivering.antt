-- ===== src/Orders/Delivering.antt =====
-- The transitions to `out_for_delivery` and to `delivered` in order_service.py.
use marketplace_invite_only.Common.{
  ℕ, ◌-◌, ◌/◌, Bool, not, ◌&&◌, ◌||◌, Option, none, some, List, ◌==◌, is_some, opt_eq,
}
use marketplace_invite_only.Common.Tables.{select}
use marketplace_invite_only.Models.{
  UserRole, OrderStatus, DeliveryStatus, role_is, status_is, is_taken, User, Order, Delivery,
  DriverAssignment, Db,
}
use marketplace_invite_only.Session.{
  Error, Action, gets, or_raise, scalar_one_or_none, raise_if, ◌>>=◌, ◌>>◌,
}
use marketplace_invite_only.Orders.Loading.{
  FullOrder, find_delivery, reload, set_order, set_delivery, lock_order_or_404,
}
use marketplace_invite_only.Orders.Transitions.{new_delivery, add_delivery}

-- assigned rows of an order that have a driver
abbrev pub taken_assignments : ℕ → Db → List DriverAssignment
taken_assignments order_id db =
    select (λ a. a.order_id == order_id && is_taken a.status && is_some a.driver_id) db.assignments

-- Whether the caller is neither a wrong driver nor a wrong seller.
abbrev pub wrong_actor : User → Order → Option ℕ → Bool
wrong_actor caller order driver_id =
    role_is caller.role UserRole.driver && not (opt_eq driver_id caller.id)
    || role_is caller.role UserRole.seller && not (caller.id == order.seller_id)

-- `caller.role != "seller" or caller.id != order.seller_id`
abbrev pub not_the_seller : User → Order → Bool
not_the_seller caller order =
    not (role_is caller.role UserRole.seller) || not (caller.id == order.seller_id)

-- self-delivery is the seller's alone; with a driver, either of the two
abbrev pub wrong_for_delivery : User → Order → Option ℕ → Bool
wrong_for_delivery caller order none = not_the_seller caller order
wrong_for_delivery caller order (some driver_id) = wrong_actor caller order (some driver_id)

abbrev pub start_at : ℕ → Delivery → Delivery
start_at started d = record d { status = DeliveryStatus.in_transit; started_at = some started }

-- The two branches of `out_for_delivery` on the existing delivery row.
unfoldable pub start_delivery : User → Order → ℕ → ℕ → Option Delivery → Action (Unit {0})
start_delivery caller order delivery_id started none = do
  rows ← gets (taken_assignments order.id)
  found ← scalar_one_or_none rows
  assignment ← or_raise found Error.order_invalid_transition
  raise_if (wrong_actor caller order assignment.driver_id) Error.order_not_found
  add_delivery (
      new_delivery delivery_id order.id assignment.driver_id order.seller_id
        DeliveryStatus.in_transit (some started))
start_delivery caller order delivery_id started (some d) = do
  raise_if (wrong_for_delivery caller order d.driver_id) Error.order_not_found
  set_delivery order.id (start_at started)

abbrev pub dispatch_at : ℕ → Order → Order
dispatch_at now o = record o {
  status = OrderStatus.out_for_delivery;
  out_for_delivery_at = some now;
}

-- `started` and `now` are the two clock readings of the call
unfoldable pub out_for_delivery : User → ℕ → ℕ → ℕ → ℕ → Action FullOrder
out_for_delivery caller order_id delivery_id started now = do
  raise_if (not (role_is caller.role UserRole.seller || role_is caller.role UserRole.driver))
      Error.order_not_found
  order ← lock_order_or_404 order_id caller
  raise_if
      (status_is order.status OrderStatus.out_for_delivery || is_some order.out_for_delivery_at)
      Error.delivery_already_started
  raise_if (not (status_is order.status OrderStatus.preparing)) Error.order_invalid_transition
  delivery ← gets (find_delivery order.id)
  start_delivery caller order delivery_id started delivery
  set_order order.id (dispatch_at now)
  reload order.id

-- `max(0, int(delta.total_seconds()))`, once, for a delivery that was started
abbrev pub duration : Option ℕ → Option ℕ → ℕ → Option ℕ
duration (some started) none now = some ((now - started) / 1000000)
duration _ known now = known

abbrev pub finish_delivery : ℕ → Delivery → Delivery
finish_delivery now d = record d {
  status = DeliveryStatus.delivered;
  delivered_at = some now;
  duration_seconds = duration d.started_at d.duration_seconds now;
}

abbrev pub deliver_at : ℕ → Order → Order
deliver_at now o = record o { status = OrderStatus.delivered; delivered_at = some now }

unfoldable pub mark_delivered : User → ℕ → ℕ → Action FullOrder
mark_delivered caller order_id now = do
  raise_if (not (role_is caller.role UserRole.seller || role_is caller.role UserRole.driver))
      Error.order_not_found
  order ← lock_order_or_404 order_id caller
  raise_if (not (status_is order.status OrderStatus.out_for_delivery))
      Error.order_invalid_transition
  found ← gets (find_delivery order.id)
  delivery ← or_raise found Error.order_invalid_transition
  raise_if (wrong_for_delivery caller order delivery.driver_id) Error.order_not_found
  set_order order.id (deliver_at now)
  set_delivery order.id (finish_delivery now)
  reload order.id
