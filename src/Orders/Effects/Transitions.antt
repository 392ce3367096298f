-- ===== src/Orders/Effects/Transitions.antt =====
-- The effects of the transitions up to the choice of a driver.
use marketplace_invite_only.Common.{◌≡◌, ℕ, false, not, none, some, List, [], is_some}
use marketplace_invite_only.Common.Tables.{order_by_desc, first, select}
use mathlib.Core.Bool.{true≢false}
use marketplace_invite_only.Models.{
  UserRole, role_is, OrderStatus, DeliveryStatus, status_is, is_open, User, Order, Seller,
  DriverAssignment, Db,
}
use marketplace_invite_only.Session.{Action, ◌>>=◌}
use marketplace_invite_only.Session.Rules.{
  after_assoc, after_or_raise, after_pure_bind, after_raise_if, after_scalar, after_gets,
  after_modify,
}
use marketplace_invite_only.Orders.Loading.{find_delivery, assignments_of, with_order}
use marketplace_invite_only.Orders.Transitions.{
  accept_at, prepare_at, accept_order, mark_preparing, in_fulfillment, open_assignments,
  ensure_not_chosen, new_delivery, with_new_delivery, choose_self_delivery, new_request,
  with_new_request, request_driver, pick_pending, assign_to, with_assignment, assign_driver,
}
use marketplace_invite_only.Orders.Effects.Loading.{
  Locked, after_lock, after_reload, after_caller_seller,
}

-- Neither a delivery row nor an open assignment.
pub record NotChosen (order_id : ℕ) (db : Db) : Type 0 where
  pub no_delivery : is_some (find_delivery order_id db) ≡ false
  pub no_request : open_assignments order_id db ≡ []

module _ {ℓ} (P : Db → Type ℓ) where
  pub after_accept_order :
      (caller : User) (order_id now : ℕ) (db : Db)
      → P db
      → ((o : Order)
          → Locked caller order_id db o
          → not (role_is caller.role UserRole.seller) ≡ false
          → not (status_is o.status OrderStatus.pending) ≡ false
          → P (with_order o.id (accept_at now) db))
      → P (accept_order caller order_id now db).1
  unfolding accept_order
  after_accept_order caller order_id now db p q = after_raise_if P _ _ _ db p λ seller.
      after_lock P caller order_id _ db p λ o locked.
        after_raise_if P _ _ _ db p
          λ pending. after_modify P _ _ _ (after_reload P _ _ (q o locked seller pending))

  pub after_mark_preparing :
      (caller : User) (order_id now : ℕ) (db : Db)
      → P db
      → ((o : Order)
          → Locked caller order_id db o
          → not (role_is caller.role UserRole.seller) ≡ false
          → not (status_is o.status OrderStatus.accepted) ≡ false
          → P (with_order o.id (prepare_at now) db))
      → P (mark_preparing caller order_id now db).1
  unfolding mark_preparing
  after_mark_preparing caller order_id now db p q = after_raise_if P _ _ _ db p λ seller.
      after_lock P caller order_id _ db p λ o locked.
        after_raise_if P _ _ _ db p
          λ accepted. after_modify P _ _ _ (after_reload P _ _ (q o locked seller accepted))

  pub after_ensure_not_chosen :
      {A : Type 0} (order_id : ℕ) (f : Unit {0} → Action A) (db : Db)
      → P db
      → (NotChosen order_id db → P (f tt db).1)
      → P ((ensure_not_chosen order_id >>= f) db).1
  unfolding ensure_not_chosen
  after_ensure_not_chosen order_id f db p q = after_assoc P _ _ _ _ (
      after_gets P _ _ _ (
        after_assoc P _ _ _ _ (
          after_raise_if P _ _ _ db p λ no_delivery. after_assoc P _ _ _ _ (
            after_gets P _ _ _ (
              after_assoc P _ _ _ _ (
                after_scalar P (open_assignments order_id db) _ db p
                  (λ no_request.
                    after_raise_if P _ _ _ db p
                      λ _. q (record { no_delivery = no_delivery; no_request = no_request }))
                  (λ a _. after_raise_if P _ _ _ db p λ bad. absurd (true≢false bad))))))))

  pub after_choose_self_delivery :
      (caller : User) (order_id delivery_id : ℕ) (db : Db)
      → P db
      → ((o : Order) (s : Seller)
          → Locked caller order_id db o
          → not (in_fulfillment o.status) ≡ false
          → NotChosen o.id db
          → P (
              with_new_delivery
                (new_delivery delivery_id o.id none s.id DeliveryStatus.pending none)
                db))
      → P (choose_self_delivery caller order_id delivery_id db).1
  unfolding choose_self_delivery
  after_choose_self_delivery caller order_id delivery_id db p q =
      after_raise_if P _ _ _ db p λ seller. after_lock P caller order_id _ db p λ o locked.
        after_raise_if P _ _ _ db p λ fulfilling. after_ensure_not_chosen o.id _ db p λ free.
          after_caller_seller P caller _ db p
            λ s. after_modify P _ _ _ (after_reload P _ _ (q o s locked fulfilling free))

  pub after_request_driver :
      (caller : User) (order_id assignment_id now : ℕ) (db : Db)
      → P db
      → ((o : Order) (s : Seller)
          → Locked caller order_id db o
          → not (in_fulfillment o.status) ≡ false
          → NotChosen o.id db
          → P (with_new_request (new_request assignment_id o.id s.id now) db))
      → P (request_driver caller order_id assignment_id now db).1
  unfolding request_driver
  after_request_driver caller order_id assignment_id now db p q =
      after_raise_if P _ _ _ db p λ seller. after_lock P caller order_id _ db p λ o locked.
        after_raise_if P _ _ _ db p λ fulfilling. after_ensure_not_chosen o.id _ db p λ free.
          after_caller_seller P caller _ db p
            λ s. after_modify P _ _ _ (after_reload P _ _ (q o s locked fulfilling free))

  pub after_pick_pending :
      {A : Type 0} (rows : List DriverAssignment) (f : DriverAssignment → Action A) (db : Db)
      → P db
      → ((a : DriverAssignment) → first rows ≡ some a → P (f a db).1)
      → P ((pick_pending rows >>= f) db).1
  unfolding pick_pending
  after_pick_pending rows f db p q = after_assoc P _ _ _ _ (
      after_or_raise P _ _ _ _ p λ a found.
        after_assoc P _ _ _ _
          (after_raise_if P _ _ _ _ p λ unassigned. after_pure_bind P _ _ _ (q a found)))

  pub after_assign_driver :
      (caller : User) (order_id driver_id now : ℕ) (db : Db)
      → P db
      → ((o : Order) (a : DriverAssignment)
          → Locked caller order_id db o
          → not (in_fulfillment o.status) ≡ false
          → first (
              select
                (λ a. is_open a.status)
                (order_by_desc (λ (b : DriverAssignment). b.requested_at) (assignments_of o.id db)))
            ≡ some a
          → P (with_assignment a.id (assign_to driver_id caller.id now) db))
      → P (assign_driver caller order_id driver_id now db).1
  unfolding assign_driver
  after_assign_driver caller order_id driver_id now db p q = after_raise_if P _ _ _ db p λ seller.
      after_lock P caller order_id _ db p λ o locked. after_raise_if P _ _ _ db p λ fulfilling.
        after_gets P _ _ _ (
          after_raise_if P _ _ _ db p λ active. after_gets P _ _ _ (
            after_pick_pending _ _ db p
              λ a rows. after_modify P _ _ _ (after_reload P _ _ (q o a locked fulfilling rows))))
