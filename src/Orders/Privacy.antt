-- ===== src/Orders/Privacy.antt =====
-- What the order list shows to whom: the masks of `list_orders`, and the agreement of the list with
-- the access check of a single order.
use marketplace_invite_only.Common.{
  ◌≡◌, ◌∙◌, refl, sym, ℕ, zero, suc, min, max, true, false, ◌&&◌, Option, none, some, List, [], ◌∷◌,
  map, ◌==◌, is_none, arith,
}
use marketplace_invite_only.Common.Tables.{All, All-map, IsUnique, find, select, select-IsRow}
use marketplace_invite_only.Common.Rows.{All-order_by_desc}
use marketplace_invite_only.Models.{
  UserRole, OrderStatus, User, Order, Delivery, DriverAssignment, Db,
}
use marketplace_invite_only.Session.{ok, Returns, ◌>>=◌}
use marketplace_invite_only.Orders.Loading.{
  FullOrder, find_order, with_relations, load_order_full, is_assigned_to, delivers, can_view,
  ensure_can_view, get_order_for_caller,
}
use marketplace_invite_only.Orders.Responses.{OrderResponse}
use marketplace_invite_only.Orders.Masks.{
  CustomerMay, SellerMay, customer-render_for, seller-render_for,
}
use marketplace_invite_only.Orders.Views.{
  take, in_deliveries, in_assignments, listed_for, has_status, list_orders_for_caller, add_shown,
  render_for, render_all, list_orders,
}

pub All-take {ℓ} :
    {A : Type 0} (P : A → Type ℓ) (n : ℕ) (xs : List A) → All P xs → All P (take n xs)
All-take P zero xs a = tt
All-take P (suc n) [] a = tt
All-take P (suc n) (x ∷ xs) a = (a.0, All-take P n xs a.1)

pub All-of_map {ℓ} :
    {A B : Type 0} (P : B → Type ℓ) (f : A → B) (xs : List A)
    → All (λ x. P (f x)) xs
    → All P (map f xs)
All-of_map P f [] a = tt
All-of_map P f (x ∷ xs) a = (a.0, All-of_map P f xs a.1)

in_deliveries-absent :
    (driver_id k : ℕ) (ds : List Delivery)
    → find (λ (d : Delivery). d.order_id) k ds ≡ none
    → in_deliveries driver_id k ds ≡ false
unfolding in_deliveries find
in_deliveries-absent driver_id k [] h = refl
in_deliveries-absent driver_id k (d ∷ rest) h =
    ground (arith, in_deliveries-absent driver_id k rest)

in_deliveries-delivers :
    (driver_id k : ℕ) (ds : List Delivery)
    → IsUnique (λ (d : Delivery). d.order_id) ds
    → in_deliveries driver_id k ds ≡ true
    → delivers driver_id (find (λ (d : Delivery). d.order_id) k ds) ≡ true
unfolding in_deliveries find
in_deliveries-delivers driver_id k [] u h = ground arith
in_deliveries-delivers driver_id k (d ∷ rest) u h =
    ground
      (arith, in_deliveries-absent driver_id k rest, in_deliveries-delivers driver_id k rest u.1)

in_assignments-is_assigned_to :
    (driver_id k : ℕ) (rows : List DriverAssignment)
    → in_assignments driver_id k rows
      ≡ is_assigned_to driver_id (select (λ a. a.order_id == k) rows)
unfolding in_assignments is_assigned_to select
in_assignments-is_assigned_to driver_id k [] = refl
in_assignments-is_assigned_to driver_id k (a ∷ rest) =
    ground (arith, in_assignments-is_assigned_to driver_id k rest)

listed_for-can_view :
    (role : UserRole) (caller_id : ℕ) (db : Db) (o : Order)
    → IsUnique (λ (d : Delivery). d.order_id) db.deliveries
    → listed_for role caller_id db o ≡ true
    → can_view role caller_id (with_relations db o) ≡ true
unfolding listed_for can_view
listed_for-can_view UserRole.admin caller_id db o u h = refl
listed_for-can_view UserRole.seller caller_id db o u h = h
listed_for-can_view UserRole.customer caller_id db o u h = h
listed_for-can_view UserRole.driver caller_id db o u h = ground (
  arith,
  in_deliveries-delivers caller_id o.id db.deliveries u,
  in_assignments-is_assigned_to caller_id o.id db.assignments,
)

-- An order of the table that the caller may list.
abbrev ListedTo : User → Db → Order → Type 0
ListedTo caller db o =
    (find_order o.id db ≡ some o)
    × (is_none o.deleted_at ≡ true)
    × (listed_for caller.role caller.id db o ≡ true)

orders-listed :
    (P : FullOrder → Type 0) (caller : User) (status : Option OrderStatus) (limit : ℕ) (db : Db)
    → IsUnique (λ (o : Order). o.id) db.orders
    → ((o : Order) → ListedTo caller db o → P (with_relations db o))
    → Returns (All P) (list_orders_for_caller caller status limit db).0
unfolding list_orders_for_caller ◌>>=◌
orders-listed P caller status limit db u h =
    let shown = λ (o : Order).
      is_none o.deleted_at && (has_status status o && listed_for caller.role caller.id db o) in
    All-of_map P (with_relations db) _ (
      All-take (λ o. P (with_relations db o)) (min (max limit 1) 200) _
        (All-order_by_desc (λ o. o.placed_at) (λ o. P (with_relations db o)) _
          (All-map (λ o row. h o (row.0, ground (arith, row.1), ground (arith, row.1))) _
            (select-IsRow (λ (o : Order). o.id) shown db.orders u))))

get-listed :
    (caller : User) (db : Db) (o : Order)
    → IsUnique (λ (d : Delivery). d.order_id) db.deliveries
    → ListedTo caller db o
    → get_order_for_caller caller o.id db ≡ (ok (with_relations db o), db)
unfolding get_order_for_caller load_order_full ensure_can_view ◌>>=◌
get-listed caller db o u (found, live, listed) =
    let seen = listed_for-can_view caller.role caller.id db o u listed in
    ground (arith, found, live, seen)

-- The list of orders returns, and each order on it is one that the same caller can open: the call for
-- that single order returns the very same order with its lines, its delivery and its assignments. The
-- condition is that the ids of the orders are unique and no two deliveries are of one order.
pub list_orders_for_caller-get_order_for_caller :
    (caller : User) (status : Option OrderStatus) (limit : ℕ) (db : Db)
    → IsUnique (λ (o : Order). o.id) db.orders
    → IsUnique (λ (d : Delivery). d.order_id) db.deliveries
    → Returns
        (All (λ o. get_order_for_caller caller o.order.id db ≡ (ok o, db)))
        (list_orders_for_caller caller status limit db).0
list_orders_for_caller-get_order_for_caller caller status limit db u v =
    orders-listed (λ o. get_order_for_caller caller o.order.id db ≡ (ok o, db)) caller status limit
      db u λ o l. get-listed caller db o v l

All-add_shown :
    (Q : OrderResponse → Type 0) (r : Option OrderResponse) (rs : List OrderResponse)
    → ((q : OrderResponse) → r ≡ some q → Q q)
    → All Q rs
    → All Q (add_shown r rs)
All-add_shown Q none rs h a = a
All-add_shown Q (some r) rs h a = (h r refl, a)

All-render_all :
    (P : FullOrder → Type 0) (Q : OrderResponse → Type 0) (now : ℕ) (role : UserRole)
    → ((o : FullOrder) (r : OrderResponse) → P o → render_for now role o ≡ some r → Q r)
    → (os : List FullOrder) → All P os
    → All Q (render_all now role os)
unfolding render_all
All-render_all P Q now role h [] a = tt
All-render_all P Q now role h (o ∷ rest) a =
    All-add_shown Q (render_for now role o) _ (λ r e. h o r a.0 e)
      (All-render_all P Q now role h rest a.1)

rendered-list :
    (P : FullOrder → Type 0) (Q : OrderResponse → Type 0) (caller : User)
    (status : Option OrderStatus) (limit now : ℕ) (db : Db)
    → ((o : FullOrder) (r : OrderResponse) → P o → render_for now caller.role o ≡ some r → Q r)
    → Returns (All P) (list_orders_for_caller caller status limit db).0
    → Returns (All Q) (list_orders caller status limit now db).0
unfolding list_orders list_orders_for_caller ◌>>=◌
rendered-list P Q caller status limit now db h a = All-render_all P Q now caller.role h _ a

-- A customer who lists orders gets a list with orders of their own only. Of an order that was
-- delivered it shows nothing until the time of its hiding is over, and then only the ids, the total
-- and when it was placed: no status, address, items, delivery, driver or other time. The condition is
-- that the ids of the orders are unique.
pub list_orders-customer :
    (caller : User) (status : Option OrderStatus) (limit now : ℕ) (db : Db)
    → caller.role ≡ UserRole.customer
    → IsUnique (λ (o : Order). o.id) db.orders
    → Returns (All (CustomerMay caller now db)) (list_orders caller status limit now db).0
unfolding listed_for
list_orders-customer caller status limit now db is_customer u =
    let Own = λ (o : FullOrder).
      (find_order o.order.id db ≡ some o.order) × (o.order.customer_id ≡ caller.id) in
    rendered-list Own (CustomerMay caller now db) caller status limit now db
      (λ o r own e.
        let (same, from, seen) = customer-render_for now o r (rw (sym is_customer) e) in
        (o.order, rw same own.0, from ∙ own.1, seen))
      (orders-listed Own caller status limit db u λ o l. (l.0, ground (arith, is_customer, l.2)))

-- A seller who lists orders gets a list with orders of their own only, and none that shows the
-- delivery address when the time of full visibility of that order is over. The condition is that the
-- ids of the orders are unique.
pub list_orders-seller :
    (caller : User) (status : Option OrderStatus) (limit now : ℕ) (db : Db)
    → caller.role ≡ UserRole.seller
    → IsUnique (λ (o : Order). o.id) db.orders
    → Returns (All (SellerMay caller now db)) (list_orders caller status limit now db).0
unfolding listed_for
list_orders-seller caller status limit now db is_seller u =
    let Own = λ (o : FullOrder).
      (find_order o.order.id db ≡ some o.order) × (o.order.seller_id ≡ caller.id) in
    rendered-list Own (SellerMay caller now db) caller status limit now db
      (λ o r own e.
        let (same, from, hidden) = seller-render_for now o r (rw (sym is_seller) e) in
        (o.order, rw same own.0, from ∙ own.1, hidden))
      (orders-listed Own caller status limit db u λ o l. (l.0, ground (arith, is_seller, l.2)))
