-- ===== src/Sellers/Completion.antt =====
-- What the completion of an order does to the figures of its seller.
use marketplace_invite_only.Common.{
  ◌≡◌, refl, ℕ, ◌+◌, true, none, some, List, [], ◌∷◌, ◌++◌, ◌==◌, ==-refl, if◌then◌else◌, arith,
}
use marketplace_invite_only.Common.Tables.{find_key, find-update, count, IsUnique}
use marketplace_invite_only.Common.Rows.{count-append, count-update-row}
use marketplace_invite_only.Models.{UserRole, OrderStatus, User, Order, OrderAnalyticsSnapshot, Db}
use marketplace_invite_only.Session.{is_ok, ◌>>=◌}
use marketplace_invite_only.Orders.Loading.{
  find_order, load_order_locked, load_order_full, lock_order_or_404, reload, with_order,
}
use marketplace_invite_only.Orders.Closing.{
  snapshot_of, find_snapshot, with_snapshot, write_snapshot, complete_at, complete_order,
}
use marketplace_invite_only.Sellers.Dashboard.{sales_of, is_active_order, dashboard_of}

sales_of-append :
    (seller_id : ℕ) (rs qs : List OrderAnalyticsSnapshot)
    → sales_of seller_id (rs ++ qs) ≡ sales_of seller_id rs + sales_of seller_id qs
unfolding sales_of
sales_of-append seller_id [] qs = omega arith
sales_of-append seller_id (r ∷ rs) qs = omega (arith, sales_of-append seller_id rs qs)

-- what completing an order leaves
abbrev completed_at : ℕ → ℕ → ℕ → Order → Db → Db
completed_at snapshot_id now later o db =
    with_snapshot snapshot_id later (complete_at now o) (with_order o.id (complete_at now) db)

completes :
    (caller : User) (order_id snapshot_id now later : ℕ) (o : Order) (db : Db)
    → find_order order_id db ≡ some o
    → caller.role ≡ UserRole.customer
    → o.customer_id ≡ caller.id
    → o.deleted_at ≡ none
    → o.status ≡ OrderStatus.delivered
    → find_snapshot order_id db ≡ none
    → (is_ok (complete_order caller order_id snapshot_id now later db).0 ≡ true)
      × ((complete_order caller order_id snapshot_id now later db).1
          ≡ completed_at snapshot_id now later o db)
unfolding complete_order lock_order_or_404 load_order_locked write_snapshot reload load_order_full
    snapshot_of ◌>>=◌
completes caller order_id snapshot_id now later o db found customer own live delivered fresh =
    let at : o.id ≡ order_id = find_key (λ (o : Order). o.id) order_id db.orders found in
    let written =
      find-update (λ (o : Order). o.id) order_id order_id (complete_at now) db.orders (λ o. refl) in
    (
      ground (
        arith,
        found,
        customer,
        own,
        live,
        delivered,
        fresh,
        at,
        written,
        ==-refl order_id,
        ==-refl caller.id,
      ),
      ground (arith, found, customer, own, live, delivered, fresh, at, ==-refl caller.id),
    )

-- A customer who completes an order that was delivered gets through, and on the dashboard of each
-- seller the lifetime sales then grow by the total of the order and the orders by one, if the order
-- was with that seller, and not at all otherwise; the count of active orders stays the same. The
-- order is not deleted and has no snapshot yet, and the ids of orders are unique.
pub complete_order-dashboard :
    (caller : User) (order_id snapshot_id now later seller_id time : ℕ) (o : Order) (db : Db)
    → IsUnique (λ (o : Order). o.id) db.orders
    → find_order order_id db ≡ some o
    → caller.role ≡ UserRole.customer
    → o.customer_id ≡ caller.id
    → o.deleted_at ≡ none
    → o.status ≡ OrderStatus.delivered
    → find_snapshot order_id db ≡ none
    → let after = (complete_order caller order_id snapshot_id now later db).1 in
      (is_ok (complete_order caller order_id snapshot_id now later db).0 ≡ true)
      × (((dashboard_of seller_id time after).lifetime_sales_amount
            ≡ (dashboard_of seller_id time db).lifetime_sales_amount
              + (if o.seller_id == seller_id then o.total_minor else 0))
          × (((dashboard_of seller_id time after).lifetime_orders_count
                ≡ (dashboard_of seller_id time db).lifetime_orders_count
                  + (if o.seller_id == seller_id then 1 else 0))
              × ((dashboard_of seller_id time after).active_orders_count
                  ≡ (dashboard_of seller_id time db).active_orders_count)))
unfolding snapshot_of sales_of count
complete_order-dashboard caller order_id snapshot_id now later seller_id time o db keys found
      customer own live delivered fresh =
    let (done, left) =
      completes caller order_id snapshot_id now later o db found customer own live delivered
        fresh in
    let at : o.id ≡ order_id = find_key (λ (o : Order). o.id) order_id db.orders found in
    let between = with_order o.id (complete_at now) db in
    let s = snapshot_of snapshot_id later (complete_at now o) between in
    let active =
      count-update-row (is_active_order seller_id) (λ (o : Order). o.id) order_id (complete_at now)
        db.orders o keys found in
    rw left (
      done,
      (
        ground (arith, at, fresh, sales_of-append seller_id db.snapshots (s ∷ [])),
        (
          ground (
            arith,
            at,
            fresh,
            count-append (λ (s : OrderAnalyticsSnapshot). s.seller_id == seller_id) db.snapshots
                (s ∷ []),
          ),
          ground (arith, at, fresh, active, delivered),
        ),
      ),
    )
