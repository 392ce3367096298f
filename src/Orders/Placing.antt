-- ===== src/Orders/Placing.antt =====
-- `create_order` of order_service.py: the products are locked, checked and decremented, and the
-- order is written with a line for each product.
use marketplace_invite_only.Common.{
  ℕ, ◌+◌, ◌-◌, ◌*◌, Bool, true, false, not, ◌&&◌, ◌||◌, Option, none, some, List, [], ◌∷◌, ◌++◌,
  map, ◌==◌, ltb, is_some, is_none, if◌then◌else◌,
}
use marketplace_invite_only.Common.Tables.{first, find, update}
use marketplace_invite_only.Models.{
  UserRole, role_is, OrderStatus, User, Product, Address, Order, OrderItem, Db,
}
use marketplace_invite_only.Session.{
  Error, Action, pure, gets, or_raise, raise_if, modify, ◌>>=◌, ◌>>◌,
}
use marketplace_invite_only.Orders.Loading.{FullOrder, reload}
use marketplace_invite_only.Orders.Retention.{days}

pub record LineItem : Type 0 where
  pub product_id : ℕ
  pub quantity : ℕ

-- a dict of quantities by product id, in the order of the first insertion
abbrev pub Quantities : Type 0
Quantities = List (ℕ × ℕ)

-- `qty_by_id[pid] = qty_by_id.get(pid, 0) + qty`
unfoldable pub add_quantity : ℕ → ℕ → Quantities → Quantities
add_quantity pid qty [] = (pid, qty) ∷ []
add_quantity pid qty ((k, n) ∷ rest) =
    if k == pid then (k, n + qty) ∷ rest else (k, n) ∷ add_quantity pid qty rest

-- the loop over `items`
unfoldable pub aggregate_from : Quantities → List LineItem → Quantities
aggregate_from q [] = q
aggregate_from q (i ∷ rest) = aggregate_from (add_quantity i.product_id i.quantity q) rest

unfoldable pub aggregate : List LineItem → Quantities
unfolding aggregate_from add_quantity
aggregate items = aggregate_from [] items

-- One product of the order beside its quantity.
pub record Line : Type 0 where
  pub product : Product
  pub quantity : ℕ

-- `products_by_id[pid]` for each key of `qty_by_id`; a product that the locking select has not
-- found makes the counts differ, and the call raises
unfoldable pub resolve : Db → Quantities → Option (List Line)
resolve db [] = some []
resolve db ((pid, qty) ∷ rest) = elim (find (λ (p : Product). p.id) pid db.products) [
  | none ↦ none
  | some p ↦ elim (resolve db rest) [
    | none ↦ none
    | some lines ↦ some (record { product = p; quantity = qty } ∷ lines)
  ]
]

-- `len(seller_ids) == 1 and expected_seller_id in seller_ids`, where there is a product at all
unfoldable pub all_from : ℕ → List Line → Bool
all_from seller_id [] = true
all_from seller_id (l ∷ rest) = l.product.seller_id == seller_id && all_from seller_id rest

abbrev pub too_few : Option ℕ → ℕ → Bool
too_few none qty = false
too_few (some stock) qty = ltb stock qty

-- The loop of the visibility, activity and stock checks.
unfoldable pub check_lines : List Line → Action (Unit {0})
check_lines [] = pure tt
check_lines (l ∷ rest) = do
  raise_if (is_some l.product.deleted_at || not l.product.is_active) Error.product_not_visible
  raise_if (too_few l.product.stock_quantity l.quantity) Error.product_out_of_stock
  check_lines rest

abbrev pub take_stock : ℕ → Product → Product
take_stock qty p = record p {
  stock_quantity = elim p.stock_quantity [ none ↦ none | some stock ↦ some (stock - qty) ];
}

-- The loop that decrements the stock.
unfoldable pub decrement : List Line → Db → Db
decrement [] db = db
decrement (l ∷ rest) db = decrement rest (record db {
  products = update (λ (p : Product). p.id) l.product.id (take_stock l.quantity) db.products;
})

unfoldable pub subtotal : List Line → ℕ
subtotal [] = 0
subtotal (l ∷ rest) = l.product.price_minor * l.quantity + subtotal rest

abbrev pub order_item : (ℕ → ℕ) → ℕ → Line → OrderItem
order_item uuid order_id l = record {
  id = uuid l.product.id;
  order_id = order_id;
  product_id = some l.product.id;
  product_name_snapshot = l.product.name;
  unit_price_minor_snapshot = l.product.price_minor;
  quantity = l.quantity;
}

abbrev pub new_order : ℕ → User → ℕ → ℕ → ℕ → Address → ℕ → Order
new_order order_id customer seller_id store_id total address now = record {
  id = order_id;
  customer_id = customer.id;
  seller_id = seller_id;
  store_id = store_id;
  status = OrderStatus.pending;
  subtotal_minor = total;
  total_minor = total;
  delivery_address = address;
  placed_at = now;
  accepted_at = none;
  preparing_at = none;
  out_for_delivery_at = none;
  delivered_at = none;
  completed_at = none;
  cancelled_at = none;
  cancellation_reason = none;
  driver_accepted_at = none;
  customer_visible_after = none;
  seller_full_visible_until = some (now + days 7);
  delivery_code_locked = false;
  deleted_at = none;
}

abbrev pub with_new_order : Order → List OrderItem → Db → Db
with_new_order o items db = record db {
  orders = db.orders ++ o ∷ [];
  order_items = db.order_items ++ items;
}

-- The line of the product that comes first in
-- `products_by_id`, which is ordered by product id.
unfoldable pub lowest_id : Line → List Line → Line
lowest_id l [] = l
lowest_id l (m ∷ rest) = lowest_id (if ltb m.product.id l.product.id then m else l) rest

-- `order_id` is the new id, `uuid` gives the id of the line for a product, `now` is the clock
unfoldable pub create_order : User → List LineItem → Address → ℕ → (ℕ → ℕ) → ℕ → Action FullOrder
create_order customer items address order_id uuid now = do
  raise_if (not (role_is customer.role UserRole.customer)) Error.product_not_visible
  raise_if (is_none (first items)) Error.order_invalid_transition
  seller_id ← or_raise customer.referring_seller_id Error.product_not_visible
  resolved ← gets (λ db. resolve db (aggregate items))
  lines ← or_raise resolved Error.product_not_visible
  head ← or_raise (first lines) Error.product_not_visible
  raise_if (not (all_from seller_id lines)) Error.product_not_visible
  check_lines lines
  modify (decrement lines)
  modify (
      with_new_order
        (new_order order_id customer seller_id (lowest_id head lines).product.store_id
          (subtotal lines) address now)
        (map (order_item uuid order_id) lines))
  reload order_id
