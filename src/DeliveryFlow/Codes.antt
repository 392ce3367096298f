-- ===== src/DeliveryFlow/Codes.antt =====
-- Accepting an order and completing its delivery in delivery_flow_service.py. `hash` stands for
-- SHA-256 of `hashlib`; a code is the number that its six digits write.
use marketplace_invite_only.Common.{
  ℕ, ◌+◌, Bool, true, false, not, ◌&&◌, ◌||◌, Option, none, some, [], ◌∷◌, ◌++◌, ◌==◌, leb, is_some,
  is_none, if◌then◌else◌,
}
use marketplace_invite_only.Common.Tables.{find, update, update_where}
use marketplace_invite_only.Models.{
  UserRole, role_is, OrderStatus, DeliveryStatus, User, Order, Delivery, DeliveryCode,
  DeliveryCodeAttempt, OrderMessage, Db,
}
use marketplace_invite_only.Session.{
  Error, Action, pure, raise, gets, or_raise, raise_if, modify, ◌>>=◌, ◌>>◌,
}
use marketplace_invite_only.Orders.Loading.{
  find_order, find_delivery, set_order, set_delivery, with_order,
}
use marketplace_invite_only.Orders.Transitions.{new_delivery, add_delivery}
use marketplace_invite_only.Orders.Views.{minutes}

unfoldable pub get_order_or_404 : ℕ → Action Order
get_order_or_404 order_id = do
  found ← gets (find_order order_id)
  order ← or_raise found Error.not_found
  raise_if (is_some order.deleted_at) Error.not_found
  pure order

-- the primary key of `delivery_codes` is the order
abbrev pub find_code : ℕ → Db → Option DeliveryCode
find_code order_id db = find (λ c. c.order_id) order_id db.codes

-- `db.add(code)`, where a second row for the order violates the primary key
unfoldable pub add_code : DeliveryCode → Action DeliveryCode
add_code code = do
  existing ← gets (find_code code.order_id)
  raise_if (is_some existing) Error.integrity
  modify (λ db. record db { codes = db.codes ++ code ∷ [] })
  pure code

-- The delivery row gets the driver, or is made.
unfoldable pub take_delivery : User → Order → ℕ → Option Delivery → Action (Unit {0})
take_delivery driver order delivery_id none = add_delivery (
    new_delivery delivery_id order.id (some driver.id) order.seller_id DeliveryStatus.in_transit
      none)
take_delivery driver order delivery_id (some d) =
    set_delivery order.id (λ d. record d { driver_id = some driver.id })

abbrev pub attempt_of : User → Order → ℕ → Bool → DeliveryCodeAttempt
attempt_of driver order submitted success = record {
  order_id = order.id;
  driver_id = driver.id;
  submitted_code = submitted;
  success = success;
}

abbrev pub with_attempt : DeliveryCodeAttempt → Db → Db
with_attempt a db = record db { attempts = db.attempts ++ a ∷ [] }

abbrev pub with_code : ℕ → (DeliveryCode → DeliveryCode) → Db → Db
with_code order_id f db = record db {
  codes = update (λ (c : DeliveryCode). c.order_id) order_id f db.codes;
}

-- one more failed attempt; the third locks
abbrev pub count_failure : DeliveryCode → DeliveryCode
count_failure c = record c {
  attempts_used = c.attempts_used + 1;
  locked = leb 3 (c.attempts_used + 1) || c.locked;
}

unfoldable pub reject_code : User → Order → DeliveryCode → ℕ → Action Order
reject_code driver order code submitted = do
  modify (with_code order.id count_failure)
  modify (
      with_order order.id (λ o. record o {
        delivery_code_locked = leb 3 (code.attempts_used + 1) || o.delivery_code_locked;
      }))
  modify (with_attempt (attempt_of driver order submitted false))
  raise_if (count_failure code).locked Error.delivery_code_locked
  raise Error.delivery_code_invalid

-- `UPDATE order_messages SET archived_at = now WHERE order_id = … AND archived_at IS NULL`
abbrev pub archive_messages : ℕ → ℕ → Db → Db
archive_messages order_id now db = record db {
  messages =
      update_where (λ (m : OrderMessage). m.order_id == order_id && is_none m.archived_at)
        (λ m. record m { archived_at = some now }) db.messages;
}

abbrev pub hand_over : ℕ → Order → Order
hand_over now o = record o {
  status = OrderStatus.delivered;
  delivered_at = some now;
  customer_visible_after = some (now + minutes 30);
}

unfoldable pub confirm_code : User → Order → ℕ → ℕ → Action Order
confirm_code driver order submitted now = do
  modify (with_code order.id (λ c. record c { consumed_at = some now }))
  modify (with_order order.id (hand_over now))
  modify (archive_messages order.id now)
  modify (with_attempt (attempt_of driver order submitted true))
  pure (hand_over now order)

module _ (hash : ℕ → ℕ) where
  abbrev pub new_code : ℕ → ℕ → DeliveryCode
  new_code order_id plain = record {
    order_id = order_id;
    code_hash = hash plain;
    code_plain = plain;
    attempts_used = 0;
    locked = false;
    consumed_at = none;
  }

  -- The part of `accept_order` after the test for an earlier acceptance.
  unfoldable pub accept_fresh : User → Order → ℕ → ℕ → ℕ → Action (Order × DeliveryCode)
  accept_fresh driver order delivery_id plain now = do
    set_order order.id (λ o. record o { driver_accepted_at = some now })
    delivery ← gets (find_delivery order.id)
    take_delivery driver order delivery_id delivery
    code ← add_code (new_code order.id plain)
    pure (record order { driver_accepted_at = some now }, code)

  unfoldable pub accept_again :
      User → Order → ℕ → ℕ → ℕ → Option DeliveryCode → Action (Order × DeliveryCode)
  accept_again driver order delivery_id plain now (some existing) = pure (order, existing)
  accept_again driver order delivery_id plain now none =
      accept_fresh driver order delivery_id plain now

  -- `plain` is the random code
  unfoldable pub accept_order : User → ℕ → ℕ → ℕ → ℕ → Action (Order × DeliveryCode)
  accept_order driver order_id delivery_id plain now = do
    raise_if (not (role_is driver.role UserRole.driver)) Error.authorization
    order ← get_order_or_404 order_id
    existing ← gets (find_code order.id)
    if is_some order.driver_accepted_at
        then accept_again driver order delivery_id plain now existing
        else accept_fresh driver order delivery_id plain now

  unfoldable pub try_code : User → Order → DeliveryCode → ℕ → ℕ → Action Order
  try_code driver order code submitted now =
      if code.locked
      then modify (with_attempt (attempt_of driver order submitted false))
        >> raise Error.delivery_code_locked
      else if not (hash submitted == code.code_hash)
      then reject_code driver order code submitted
      else confirm_code driver order submitted now

  unfoldable pub complete_delivery : User → ℕ → ℕ → ℕ → Action Order
  complete_delivery driver order_id submitted now = do
    raise_if (not (role_is driver.role UserRole.driver)) Error.authorization
    order ← get_order_or_404 order_id
    found ← gets (find_code order.id)
    code ← or_raise found Error.conflict
    try_code driver order code submitted now

unfoldable pub get_delivery_code_for_customer : User → ℕ → Action DeliveryCode
get_delivery_code_for_customer customer order_id = do
  order ← get_order_or_404 order_id
  raise_if (not (order.customer_id == customer.id) && not (role_is customer.role UserRole.admin))
      Error.not_found
  found ← gets (find_code order.id)
  code ← or_raise found Error.not_found
  raise_if (is_none order.driver_accepted_at || is_some order.delivered_at) Error.not_found
  pure code
