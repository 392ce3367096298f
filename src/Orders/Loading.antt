-- ===== src/Orders/Loading.antt =====
-- The loaders and guards of order_service.py.
use marketplace_invite_only.Common.{
  ℕ, Bool, true, false, not, ◌&&◌, Option, none, some, List, [], ◌∷◌, ◌==◌, is_some, opt_eq,
  if◌then◌else◌,
}
use marketplace_invite_only.Common.Tables.{select, find, update}
use marketplace_invite_only.Models.{
  UserRole, role_is, is_taken, User, Seller, Order, OrderItem, Delivery, DriverAssignment, Db,
}
use marketplace_invite_only.Session.{
  Error, Action, pure, gets, or_raise, raise_if, modify, ◌>>=◌, ◌>>◌,
}

-- An order with the relationships that `_load_order_full` loads eagerly.
pub record FullOrder : Type 0 where
  pub order : Order
  pub order_items : List OrderItem
  pub delivery : Option Delivery
  pub driver_assignments : List DriverAssignment

abbrev pub find_order : ℕ → Db → Option Order
find_order order_id db = find (λ o. o.id) order_id db.orders

-- `SELECT … FROM deliveries WHERE order_id = …`, a unique column
abbrev pub find_delivery : ℕ → Db → Option Delivery
find_delivery order_id db = find (λ d. d.order_id) order_id db.deliveries

abbrev pub assignments_of : ℕ → Db → List DriverAssignment
assignments_of order_id db = select (λ a. a.order_id == order_id) db.assignments

abbrev pub with_relations : Db → Order → FullOrder
with_relations db o = record {
  order = o;
  order_items = select (λ i. i.order_id == o.id) db.order_items;
  delivery = find_delivery o.id db;
  driver_assignments = assignments_of o.id db;
}

abbrev full_order : Db → Option Order → Option FullOrder
full_order db none = none
full_order db (some o) = some (with_relations db o)

unfoldable pub load_order_full : ℕ → Action (Option FullOrder)
load_order_full order_id = gets (λ db. full_order db (find_order order_id db))

-- `loaded = await _load_order_full(…); assert loaded is not None; return loaded`
unfoldable pub reload : ℕ → Action FullOrder
reload order_id = do loaded ← load_order_full order_id; or_raise loaded Error.assertion

-- the columns of the row object `order` that are assigned to
abbrev pub with_order : ℕ → (Order → Order) → Db → Db
with_order order_id f db = record db { orders = update (λ (o : Order). o.id) order_id f db.orders }

abbrev pub set_order : ℕ → (Order → Order) → Action (Unit {0})
set_order order_id f = modify (with_order order_id f)

abbrev pub with_delivery : ℕ → (Delivery → Delivery) → Db → Db
with_delivery order_id f db = record db {
  deliveries = update (λ (d : Delivery). d.order_id) order_id f db.deliveries;
}

abbrev pub set_delivery : ℕ → (Delivery → Delivery) → Action (Unit {0})
set_delivery order_id f = modify (with_delivery order_id f)

unfoldable pub load_order_locked : ℕ → Action (Option Order)
load_order_locked order_id = gets (find_order order_id)

abbrev pub live_seller : Option Seller → Option Seller
live_seller none = none
live_seller (some s) = if is_some s.deleted_at then none else some s

-- `sellers.user_id` is unique
unfoldable pub get_caller_seller : User → Action Seller
get_caller_seller caller = do
  seller ← gets (λ db. live_seller (find (λ (s : Seller). s.user_id) caller.id db.sellers))
  or_raise seller Error.seller_profile_missing

unfoldable pub lock_order_or_404 : ℕ → User → Action Order
lock_order_or_404 order_id caller = do
  found ← load_order_locked order_id
  order ← or_raise found Error.order_not_found
  raise_if (is_some order.deleted_at) Error.order_not_found
  raise_if (role_is caller.role UserRole.seller && not (order.seller_id == caller.id))
      Error.order_not_found
  raise_if (role_is caller.role UserRole.customer && not (order.customer_id == caller.id))
      Error.order_not_found
  pure order

-- the loop over `order.driver_assignments` for a driver
unfoldable pub is_assigned_to : ℕ → List DriverAssignment → Bool
is_assigned_to driver_id [] = false
is_assigned_to driver_id (a ∷ rest) =
    if opt_eq a.driver_id driver_id && is_taken a.status
    then true
    else is_assigned_to driver_id rest

abbrev pub delivers : ℕ → Option Delivery → Bool
delivers driver_id none = false
delivers driver_id (some d) = opt_eq d.driver_id driver_id

-- whether `_ensure_can_view` returns, by the caller's role
unfoldable pub can_view : UserRole → ℕ → FullOrder → Bool
unfolding is_assigned_to
can_view UserRole.admin caller_id o = true
can_view UserRole.seller caller_id o = o.order.seller_id == caller_id
can_view UserRole.customer caller_id o = o.order.customer_id == caller_id
can_view UserRole.driver caller_id o =
    if delivers caller_id o.delivery then true else is_assigned_to caller_id o.driver_assignments

unfoldable pub ensure_can_view : FullOrder → User → Action (Unit {0})
unfolding can_view
ensure_can_view o caller = raise_if (not (can_view caller.role caller.id o)) Error.order_not_found

unfoldable pub get_order_for_caller : User → ℕ → Action FullOrder
get_order_for_caller caller order_id = do
  loaded ← load_order_full order_id
  o ← or_raise loaded Error.order_not_found
  raise_if (is_some o.order.deleted_at) Error.order_not_found
  ensure_can_view o caller
  pure o
