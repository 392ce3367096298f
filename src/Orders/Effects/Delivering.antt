-- ===== src/Orders/Effects/Delivering.antt =====
-- The effects of the transitions to `out_for_delivery` and to `delivered`.
use marketplace_invite_only.Common.{
  ◌≡◌, refl, ap, ◌∙◌, ℕ, false, not, ◌||◌, Option, none, some, is_some,
}
use marketplace_invite_only.Common.Tables.{first}
use mathlib.Core.Option.{none-ne-some}
use marketplace_invite_only.Models.{
  OrderStatus, DeliveryStatus, status_is, User, Order, Delivery, DriverAssignment, Db,
}
use marketplace_invite_only.Session.{Action, ◌>>=◌}
use marketplace_invite_only.Session.Rules.{
  after_assoc, after_raise_if, after_or_raise, after_scalar, after_gets, after_modify,
}
use marketplace_invite_only.Orders.Loading.{find_delivery, with_order, with_delivery}
use marketplace_invite_only.Orders.Transitions.{new_delivery, with_new_delivery}
use marketplace_invite_only.Orders.Delivering.{
  taken_assignments, wrong_actor, wrong_for_delivery, start_at, start_delivery, dispatch_at,
  out_for_delivery, deliver_at, finish_delivery, mark_delivered,
}
use marketplace_invite_only.Orders.Effects.Loading.{Locked, after_lock, after_reload}

-- How `start_delivery` has changed the deliveries when it returns.
pub data Started (caller : User) (o : Order) (db : Db) : Db → Type 0 where
  by_driver :
      (id at : ℕ) (a : DriverAssignment)
      → find_delivery o.id db ≡ none
      → first (taken_assignments o.id db) ≡ some a
      → wrong_actor caller o a.driver_id ≡ false
      → Started caller o db (
          with_new_delivery
            (new_delivery id o.id a.driver_id o.seller_id DeliveryStatus.in_transit (some at))
            db)
  existing :
      (at : ℕ) (d : Delivery)
      → find_delivery o.id db ≡ some d
      → wrong_for_delivery caller o d.driver_id ≡ false
      → Started caller o db (with_delivery o.id (start_at at) db)

module _ {ℓ} (P : Db → Type ℓ) where
  pub after_start_delivery :
      {A : Type 0} (caller : User) (o : Order) (delivery_id started : ℕ) (found : Option Delivery)
      (f : Unit {0} → Action A) (db : Db)
      → find_delivery o.id db ≡ found
      → P db
      → ((db' : Db) → Started caller o db db' → P (f tt db').1)
      → P ((start_delivery caller o delivery_id started found >>= f) db).1
  unfolding start_delivery
  after_start_delivery caller o delivery_id started none f db e p q = after_assoc P _ _ _ _ (
      after_gets P _ _ _ (
        after_assoc P _ _ _ _ (
          after_scalar P (taken_assignments o.id db) _ db p
            (λ _.
              after_assoc P _ _ _ _
                (after_or_raise P _ _ _ _ p λ a bad. absurd (none-ne-some _ bad)))
            (λ a only. after_assoc P _ _ _ _ (
              after_or_raise P _ _ _ _ p λ b same. after_assoc P _ _ _ _ (
                after_raise_if P _ _ _ db p λ right.
                  after_modify P _ _ _
                    (q _ (by_driver delivery_id started b e (ap first only ∙ same) right))))))))
  after_start_delivery caller o delivery_id started (some d) f db e p q =
      after_assoc P _ _ _ _ (
        after_raise_if P _ _ _ db p
          λ right. after_modify P _ _ _ (q _ (existing started d e right)))

  pub after_out_for_delivery :
      (caller : User) (order_id delivery_id started now : ℕ) (db : Db)
      → P db
      → ((o : Order) (db' : Db)
          → Locked caller order_id db o
          → (status_is o.status OrderStatus.out_for_delivery || is_some o.out_for_delivery_at)
            ≡ false
          → not (status_is o.status OrderStatus.preparing) ≡ false
          → Started caller o db db'
          → P (with_order o.id (dispatch_at now) db'))
      → P (out_for_delivery caller order_id delivery_id started now db).1
  unfolding out_for_delivery
  after_out_for_delivery caller order_id delivery_id started now db p q =
      after_raise_if P _ _ _ db p λ actor. after_lock P caller order_id _ db p λ o locked.
        after_raise_if P _ _ _ db p λ fresh. after_raise_if P _ _ _ db p λ preparing.
          after_gets P _ _ _ (
            after_start_delivery caller o delivery_id started _ _ db refl p
              λ db' s. after_modify P _ _ _ (after_reload P _ _ (q o db' locked fresh preparing s)))

  pub after_mark_delivered :
      (caller : User) (order_id now : ℕ) (db : Db)
      → P db
      → ((o : Order) (d : Delivery)
          → Locked caller order_id db o
          → not (status_is o.status OrderStatus.out_for_delivery) ≡ false
          → find_delivery o.id db ≡ some d
          → wrong_for_delivery caller o d.driver_id ≡ false
          → P (with_delivery o.id (finish_delivery now) (with_order o.id (deliver_at now) db)))
      → P (mark_delivered caller order_id now db).1
  unfolding mark_delivered
  after_mark_delivered caller order_id now db p q = after_raise_if P _ _ _ db p λ actor.
      after_lock P caller order_id _ db p λ o locked. after_raise_if P _ _ _ db p λ out.
        after_gets P _ _ _ (
          after_or_raise P _ _ _ db p λ d found. after_raise_if P _ _ _ db p λ right.
            after_modify P _ _ _
              (after_modify P _ _ _ (after_reload P _ _ (q o d locked out found right))))
