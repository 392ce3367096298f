-- ===== src/Orders/Responses.antt =====
-- The rendering of an order and its mask: the response helpers of order_service.py.
use marketplace_invite_only.Common.{
  ℕ, not, String, Option, none, some, List, [], ◌∷◌, map, ltb, if◌then◌else◌,
}
use mathlib.Core.Option
use marketplace_invite_only.Common.Tables.{select}
use marketplace_invite_only.Models.{
  OrderStatus, DeliveryStatus, AssignmentStatus, is_withdrawn, Order, OrderItem, Delivery,
  DriverAssignment, Address,
}
use marketplace_invite_only.Orders.Loading.{FullOrder}

-- The columns of an item, of the delivery and of an assignment that are rendered.
pub record ItemResponse : Type 0 where
  pub id : ℕ
  pub product_id : Option ℕ
  pub product_name_snapshot : String
  pub unit_price_minor_snapshot : ℕ
  pub quantity : ℕ

pub record DeliveryResponse : Type 0 where
  pub id : ℕ
  pub driver_id : Option ℕ
  pub seller_id : ℕ
  pub status : DeliveryStatus
  pub started_at : Option ℕ
  pub delivered_at : Option ℕ

pub record AssignmentResponse : Type 0 where
  pub id : ℕ
  pub driver_id : Option ℕ
  pub status : AssignmentStatus
  pub requested_at : ℕ
  pub assigned_at : Option ℕ

-- The rendered order. `status` is `none` for "hidden".
pub record OrderResponse : Type 0 where
  pub id : ℕ
  pub customer_id : ℕ
  pub seller_id : ℕ
  pub store_id : ℕ
  pub status : Option OrderStatus
  pub subtotal_minor : ℕ
  pub total_minor : ℕ
  pub delivery_address : Option Address
  pub placed_at : ℕ
  pub accepted_at : Option ℕ
  pub preparing_at : Option ℕ
  pub out_for_delivery_at : Option ℕ
  pub delivered_at : Option ℕ
  pub completed_at : Option ℕ
  pub cancelled_at : Option ℕ
  pub cancellation_reason : Option String
  pub items : List ItemResponse
  pub delivery : Option DeliveryResponse
  pub driver_assignment : Option AssignmentResponse

-- `mask_seller_order_response` and `mask_customer_order_response` build the same dict.
unfoldable pub mask_order_response : Order → OrderResponse
mask_order_response o = record {
  id = o.id;
  customer_id = o.customer_id;
  seller_id = o.seller_id;
  store_id = o.store_id;
  status = none;
  subtotal_minor = o.total_minor;
  total_minor = o.total_minor;
  delivery_address = none;
  placed_at = o.placed_at;
  accepted_at = none;
  preparing_at = none;
  out_for_delivery_at = none;
  delivered_at = none;
  completed_at = none;
  cancelled_at = none;
  cancellation_reason = none;
  items = [];
  delivery = none;
  driver_assignment = none;
}

-- `max(candidates, key=requested_at)` keeps the first of equals
unfoldable pub latest_from : DriverAssignment → List DriverAssignment → DriverAssignment
latest_from best [] = best
latest_from best (a ∷ rest) =
    latest_from (if ltb best.requested_at a.requested_at then a else best) rest

unfoldable pub latest : List DriverAssignment → Option DriverAssignment
unfolding latest_from
latest [] = none
latest (a ∷ rest) = some (latest_from a rest)

abbrev pub render_item : OrderItem → ItemResponse
render_item i = record {
  id = i.id;
  product_id = i.product_id;
  product_name_snapshot = i.product_name_snapshot;
  unit_price_minor_snapshot = i.unit_price_minor_snapshot;
  quantity = i.quantity;
}

abbrev pub render_delivery : Delivery → DeliveryResponse
render_delivery d = record {
  id = d.id;
  driver_id = d.driver_id;
  seller_id = d.seller_id;
  status = d.status;
  started_at = d.started_at;
  delivered_at = d.delivered_at;
}

abbrev pub render_assignment : DriverAssignment → AssignmentResponse
render_assignment a = record {
  id = a.id;
  driver_id = a.driver_id;
  status = a.status;
  requested_at = a.requested_at;
  assigned_at = a.assigned_at;
}

unfoldable pub order_to_response : FullOrder → OrderResponse
order_to_response o = record {
  id = o.order.id;
  customer_id = o.order.customer_id;
  seller_id = o.order.seller_id;
  store_id = o.order.store_id;
  status = some o.order.status;
  subtotal_minor = o.order.subtotal_minor;
  total_minor = o.order.total_minor;
  delivery_address = some o.order.delivery_address;
  placed_at = o.order.placed_at;
  accepted_at = o.order.accepted_at;
  preparing_at = o.order.preparing_at;
  out_for_delivery_at = o.order.out_for_delivery_at;
  delivered_at = o.order.delivered_at;
  completed_at = o.order.completed_at;
  cancelled_at = o.order.cancelled_at;
  cancellation_reason = o.order.cancellation_reason;
  items = map render_item o.order_items;
  delivery = Option.map render_delivery o.delivery;
  driver_assignment =
      Option.map render_assignment
        (latest (select (λ a. not (is_withdrawn a.status)) o.driver_assignments));
}
