-- ===== src/DeliveryFlow/Chat.antt =====
-- Locations and the order chat of delivery_flow_service.py, with the endpoints of
-- backend/app/api/v1/delivery_flow.py that add rules of their own.
use marketplace_invite_only.Common.{
  ℕ, Bool, true, false, not, ◌&&◌, ◌||◌, String, Option, none, some, List, [], ◌∷◌, ◌++◌, ◌==◌,
  is_some, is_none, if◌then◌else◌,
}
use marketplace_invite_only.Common.Tables.{order_by_asc, select}
use marketplace_invite_only.Models.{
  UserRole, role_is, User, Order, Delivery, OrderMessage, OrderTrackingPoint, Db,
}
use marketplace_invite_only.Session.{
  Error, Action, pure, gets, or_raise, raise_if, modify, ◌>>=◌, ◌>>◌,
}
use marketplace_invite_only.Orders.Loading.{find_delivery, delivers, set_delivery}
use marketplace_invite_only.DeliveryFlow.Codes.{get_order_or_404}

abbrev pub may_report : UserRole → Bool
may_report UserRole.customer = false
may_report _ = true

abbrev pub tracking_point : ℕ → User → Order → ℕ → ℕ → ℕ → OrderTrackingPoint
tracking_point id driver order lat lng now = record {
  id = id;
  order_id = order.id;
  driver_id = if role_is driver.role UserRole.driver then some driver.id else none;
  lat = lat;
  lng = lng;
  recorded_at = now;
}

-- The delivery row, if there is one, gets the coordinates.
unfoldable pub record_location : User → ℕ → ℕ → ℕ → ℕ → ℕ → Action OrderTrackingPoint
record_location driver order_id point_id lat lng now = do
  raise_if (not (may_report driver.role)) Error.authorization
  order ← get_order_or_404 order_id
  modify (λ db. record db {
    points = db.points ++ tracking_point point_id driver order lat lng now ∷ [];
  })
  set_delivery order.id (λ d. record d { current_lat = some lat; current_lng = some lng })
  pure (tracking_point point_id driver order lat lng now)

-- The role under which `post_order_message` lets the sender write: `none` is refused.
unfoldable pub sender_role : User → Order → Option Delivery → Option UserRole
sender_role sender order delivery =
    if role_is sender.role UserRole.admin
    then none
    else if sender.id == order.customer_id
    then some UserRole.customer
    else if delivers sender.id delivery
    then some UserRole.driver
    else none

abbrev pub new_message : ℕ → User → Order → UserRole → String → String → ℕ → OrderMessage
new_message id sender order role ciphertext nonce now = record {
  id = id;
  order_id = order.id;
  sender_id = sender.id;
  sender_role = role;
  ciphertext = ciphertext;
  nonce = nonce;
  created_at = now;
  archived_at = none;
}

abbrev pub with_message : OrderMessage → Db → Db
with_message m db = record db { messages = db.messages ++ m ∷ [] }

unfoldable pub post_order_message : User → ℕ → ℕ → String → String → ℕ → Action OrderMessage
post_order_message sender order_id message_id ciphertext nonce now = do
  order ← get_order_or_404 order_id
  raise_if (is_none order.driver_accepted_at) Error.conflict
  raise_if (is_some order.delivered_at) Error.conflict
  delivery ← gets (find_delivery order.id)
  role ← or_raise (sender_role sender order delivery) Error.authorization
  modify (with_message (new_message message_id sender order role ciphertext nonce now))
  pure (new_message message_id sender order role ciphertext nonce now)

unfoldable pub list_order_messages : ℕ → Bool → Action (List OrderMessage)
list_order_messages order_id include_archived = gets λ db.
    order_by_asc (λ m. m.created_at)
      (select (λ m. m.order_id == order_id && (include_archived || is_none m.archived_at))
        db.messages)

-- `GET /orders/{id}/chat`
unfoldable pub list_chat : User → ℕ → Action (List OrderMessage)
list_chat caller order_id = do
  order ← get_order_or_404 order_id
  delivery ← gets (find_delivery order.id)
  if role_is caller.role UserRole.admin then list_order_messages order_id true else do
    raise_if (not (caller.id == order.customer_id || delivers caller.id delivery)) Error.not_found
    messages ← list_order_messages order_id false
    pure (if is_some order.delivered_at then [] else messages)
