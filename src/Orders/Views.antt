-- ===== src/Orders/Views.antt =====
-- Listing orders: `list_orders_for_caller` and the times of hiding of order_service.py, and `list_orders` of backend/app/api/v1/orders.py.
use marketplace_invite_only.Common.{
  ℕ, zero, suc, ◌+◌, ◌*◌, min, max, Bool, true, false, ◌&&◌, Option, none, some, List, [], ◌∷◌, map,
  ◌==◌, ltb, leb, is_none, opt_eq, or_else, if◌then◌else◌,
}
use marketplace_invite_only.Common.Tables.{order_by_desc, select}
use marketplace_invite_only.Models.{
  UserRole, OrderStatus, role_is, status_is, is_taken, User, Order, Delivery, DriverAssignment, Db,
}
use marketplace_invite_only.Session.{Action, gets, pure, ◌>>=◌}
use marketplace_invite_only.Orders.Loading.{FullOrder, with_relations}
use marketplace_invite_only.Orders.Retention.{days}
use marketplace_invite_only.Orders.Responses.{OrderResponse, mask_order_response, order_to_response}

-- `timedelta(minutes=n)` in microseconds
abbrev pub minutes : ℕ → ℕ
minutes n = n * 60000000

abbrev pub take {ℓ} : {A : Type ℓ} → ℕ → List A → List A
take zero xs = []
take (suc n) [] = []
take (suc n) (x ∷ xs) = x ∷ take n xs

-- `Order.id IN (SELECT order_id FROM deliveries WHERE driver_id = …)`
unfoldable pub in_deliveries : ℕ → ℕ → List Delivery → Bool
in_deliveries driver_id order_id [] = false
in_deliveries driver_id order_id (d ∷ rest) =
    if d.order_id == order_id && opt_eq d.driver_id driver_id
    then true
    else in_deliveries driver_id order_id rest

unfoldable pub in_assignments : ℕ → ℕ → List DriverAssignment → Bool
in_assignments driver_id order_id [] = false
in_assignments driver_id order_id (a ∷ rest) =
    if a.order_id == order_id && (opt_eq a.driver_id driver_id && is_taken a.status)
    then true
    else in_assignments driver_id order_id rest

-- The WHERE clause that the caller's role adds.
unfoldable pub listed_for : UserRole → ℕ → Db → Order → Bool
listed_for UserRole.admin caller_id db o = true
listed_for UserRole.seller caller_id db o = o.seller_id == caller_id
listed_for UserRole.customer caller_id db o = o.customer_id == caller_id
listed_for UserRole.driver caller_id db o =
    if in_deliveries caller_id o.id db.deliveries
    then true
    else in_assignments caller_id o.id db.assignments

abbrev pub has_status : Option OrderStatus → Order → Bool
has_status none o = true
has_status (some s) o = status_is o.status s

unfoldable pub list_orders_for_caller : User → Option OrderStatus → ℕ → Action (List FullOrder)
list_orders_for_caller caller status limit = gets λ db. map (with_relations db) (
    take (min (max limit 1) 200) (
      order_by_desc (λ o. o.placed_at)
        (select
          (λ o.
            is_none o.deleted_at && (has_status status o && listed_for caller.role caller.id db o))
          db.orders)))

-- When the 30 minutes after the delivery end.
abbrev pub visible_after : ℕ → Order → ℕ
visible_after delivered_at o = or_else o.customer_visible_after (delivered_at + minutes 30)

unfoldable pub is_customer_hidden : ℕ → Order → Bool
is_customer_hidden now o = elim o.delivered_at [
  | none ↦ false
  | some at ↦ ltb now (visible_after at o)
]

unfoldable pub is_customer_masked : ℕ → Order → Bool
is_customer_masked now o = elim o.delivered_at [
  | none ↦ false
  | some at ↦ leb (visible_after at o) now
]

unfoldable pub is_seller_stripped : ℕ → Order → Bool
is_seller_stripped now o = leb (or_else o.seller_full_visible_until (o.placed_at + days 7)) now

-- One round of the loop of `list_orders`; nothing is rendered for a hidden order.
unfoldable pub render_for : ℕ → UserRole → FullOrder → Option OrderResponse
render_for now role o =
    if role_is role UserRole.customer && is_customer_hidden now o.order
    then none
    else if role_is role UserRole.customer && is_customer_masked now o.order
    then some (mask_order_response o.order)
    else if role_is role UserRole.seller && is_seller_stripped now o.order
    then some (mask_order_response o.order)
    else some (order_to_response o)

abbrev pub add_shown : Option OrderResponse → List OrderResponse → List OrderResponse
add_shown none rs = rs
add_shown (some r) rs = r ∷ rs

unfoldable pub render_all : ℕ → UserRole → List FullOrder → List OrderResponse
render_all now role [] = []
render_all now role (o ∷ rest) = add_shown (render_for now role o) (render_all now role rest)

unfoldable pub list_orders : User → Option OrderStatus → ℕ → ℕ → Action (List OrderResponse)
list_orders caller status limit now = do
  orders ← list_orders_for_caller caller status limit
  pure (render_all now caller.role orders)
