-- ===== src/Orders/Timeline/Calls.antt =====
-- Every call of the order service keeps the timestamps of all orders in agreement with their states.
use marketplace_invite_only.Common.{
  ◌≡◌, refl, ℕ, true, some, List, [], ◌∷◌, ◌==◌, Bool-cases, inl, inr, arith,
}
use marketplace_invite_only.Common.Tables.{
  All, All-append, All-delete_where, All-map, IsRow, update-IsUnique, find, find_key, find-update,
  select, select-IsRow,
}
use marketplace_invite_only.Common.Rows.{All-update}
use marketplace_invite_only.Models.{Order, Db}
use marketplace_invite_only.Orders.Loading.{find_order, with_order}
use marketplace_invite_only.Orders.Transitions.{accept_at, prepare_at}
use marketplace_invite_only.Orders.Delivering.{dispatch_at, deliver_at}
use marketplace_invite_only.Orders.Closing.{complete_at, cancel_at}
use marketplace_invite_only.Orders.Retention.{is_due}
use marketplace_invite_only.Orders.Placing.{lowest_id, subtotal, new_order}
use marketplace_invite_only.Orders.Effects.Transitions.{
  after_accept_order, after_mark_preparing, after_choose_self_delivery, after_request_driver,
  after_assign_driver,
}
use marketplace_invite_only.Orders.Effects.Delivering.{after_out_for_delivery, after_mark_delivered}
use marketplace_invite_only.Orders.Effects.Closing.{
  settings_at, with_settings, with_final_snapshot, after_complete_order, after_cancel_order,
  after_delete_order, after_update_settings,
}
use marketplace_invite_only.Orders.Effects.Purge.{completed_round, after_run_purge_job}
use marketplace_invite_only.Orders.Effects.Placing.{after_create_order}
use marketplace_invite_only.Orders.Lifecycle.{Op, exec}
use marketplace_invite_only.Orders.Lifecycle.Keys.{HasKeys}
use marketplace_invite_only.Orders.Lifecycle.Steps.{
  Started-orders, orders-with_final_snapshot, orders-with_snapshot, orders-decrement,
}
use marketplace_invite_only.Orders.Timeline.Stamps.{
  Stamped, accept_at-Stamped, prepare_at-Stamped, dispatch_at-Stamped, deliver_at-Stamped,
  complete_at-Stamped, cancel_at-Stamped, is_ripe, complete_ripe-Stamped,
}

abbrev pub AllStamped : Db → Type 0
AllStamped db = All Stamped db.orders

with_order-AllStamped :
    (k : ℕ) (f : Order → Order) (db : Db) (o : Order)
    → HasKeys db
    → find_order k db ≡ some o
    → (Stamped o → Stamped (f o))
    → AllStamped db
    → AllStamped (with_order o.id f db)
with_order-AllStamped k f db o u found h a =
    let at : o.id ≡ k = find_key (λ (p : Order). p.id) k db.orders found in
    rw at (All-update (λ (p : Order). p.id) Stamped k f db.orders o u found h a)

-- A row of the first loop is still there, and delivered or just completed.
abbrev RipeIn : List Order → Order → Type 0
RipeIn rows o =
    (p : Order) × (find (λ (q : Order). q.id) o.id rows ≡ some p) × (is_ripe p.status ≡ true)

RipeIn-round :
    (i now : ℕ) (db : Db) (o : Order)
    → RipeIn db.orders o
    → RipeIn (with_order i (complete_at now) db).orders o
RipeIn-round i now db o (p, found, r) =
    let law = find-update (λ (q : Order). q.id) o.id i (complete_at now) db.orders (λ q. refl) in
    elim (Bool-cases (o.id == i)) [
      | inl e ↦ (complete_at now p, ground (arith, law), refl)
      | inr e ↦ (p, ground (arith, law), r)
    ]

abbrev Completing : List Order → Db → Type 0
Completing rows db = HasKeys db × AllStamped db × All (RipeIn db.orders) rows

Completing-round :
    (uuid : ℕ → ℕ) (now : ℕ) (o : Order) (rest : List Order) (db : Db)
    → Completing (o ∷ rest) db
    → Completing rest (completed_round uuid now o db)
Completing-round uuid now o rest db (u, a, ((p, found, r), rows)) =
    rw
      (orders-with_snapshot (uuid o.id) now (complete_at now o)
        (with_order o.id (complete_at now) db))
      (
        update-IsUnique (λ (q : Order). q.id) o.id (complete_at now) db.orders (λ q. refl) u,
        All-update (λ (q : Order). q.id) Stamped o.id (complete_at now) db.orders p u found
            (complete_ripe-Stamped p now r) a,
        All-map (RipeIn-round o.id now db) rest rows,
      )

due-RipeIn :
    (now grace : ℕ) (db : Db) (o : Order)
    → IsRow (λ (p : Order). p.id) (is_due now grace) db.orders o
    → RipeIn db.orders o
due-RipeIn now grace db o (found, due) = (o, found, ground arith)

-- Every call of the order service, by any caller and with any arguments, leaves each order with
-- exactly the timestamps of the states that it has passed through: a pending order has none, an
-- accepted one only `accepted_at`, and so on to a completed one, which has all but `cancelled_at`; a
-- cancelled order has `cancelled_at` and neither `delivered_at` nor `completed_at`. The condition is
-- that this holds before the call and that the ids are unique.
pub exec-AllStamped : (op : Op) (db : Db) → HasKeys db → AllStamped db → AllStamped (exec op db)
unfolding exec
exec-AllStamped (Op.create customer items address id uuid now) db u a =
    after_create_order AllStamped customer items address id uuid now db a
      λ seller_id lines head referred resolved own sellable at_head.
        rw (orders-decrement lines db) (
          All-append Stamped db.orders
            (new_order id customer seller_id (lowest_id head lines).product.store_id
                (subtotal lines) address now
              ∷ [])
            a (ground arith))
exec-AllStamped (Op.accept caller id now) db u a =
    after_accept_order AllStamped caller id now db a λ o locked seller pending.
      with_order-AllStamped id (accept_at now) db o u locked.found (accept_at-Stamped o now pending)
        a
exec-AllStamped (Op.prepare caller id now) db u a =
    after_mark_preparing AllStamped caller id now db a λ o locked seller accepted.
      with_order-AllStamped id (prepare_at now) db o u locked.found
        (prepare_at-Stamped o now accepted) a
exec-AllStamped (Op.self_deliver caller id delivery_id) db u a =
    after_choose_self_delivery AllStamped caller id delivery_id db a λ o s locked f free. a
exec-AllStamped (Op.ask_driver caller id assignment_id now) db u a =
    after_request_driver AllStamped caller id assignment_id now db a λ o s locked f free. a
exec-AllStamped (Op.assign caller id driver_id now) db u a =
    after_assign_driver AllStamped caller id driver_id now db a λ o a' locked f rows. a
exec-AllStamped (Op.dispatch caller id delivery_id started now) db u a =
    after_out_for_delivery AllStamped caller id delivery_id started now db a
      λ o db' locked fresh preparing s.
        let same : db'.orders ≡ db.orders = Started-orders s in
        with_order-AllStamped id (dispatch_at now) db' o (rw same u) (rw same locked.found)
          (dispatch_at-Stamped o now preparing) (rw same a)
exec-AllStamped (Op.deliver caller id now) db u a =
    after_mark_delivered AllStamped caller id now db a λ o d locked out found right.
      with_order-AllStamped id (deliver_at now) db o u locked.found (deliver_at-Stamped o now out) a
exec-AllStamped (Op.complete caller id snapshot_id now later) db u a =
    after_complete_order AllStamped caller id snapshot_id now later db a λ o locked delivered.
      rw
        (orders-with_snapshot snapshot_id later (complete_at now o)
          (with_order o.id (complete_at now) db))
        (with_order-AllStamped id (complete_at now) db o u locked.found
          (complete_at-Stamped o now delivered) a)
exec-AllStamped (Op.cancel caller id reason now) db u a =
    after_cancel_order AllStamped caller id reason now db a λ o locked active may.
      with_order-AllStamped id (cancel_at now reason) db o u locked.found
        (cancel_at-Stamped o now reason active) a
exec-AllStamped (Op.delete caller id snapshot_id now later) db u a =
    after_delete_order AllStamped caller id snapshot_id now later db (λ s. a)
      λ o s ended found allowed terminal elapsed.
        All-delete_where Stamped _
          (with_final_snapshot snapshot_id later o (with_settings s db)).orders
          (rw (orders-with_final_snapshot snapshot_id later o (with_settings s db)) a)
exec-AllStamped (Op.purge uuid uuid' now) db u a =
    after_run_purge_job AllStamped Completing (λ rows db'. AllStamped db') uuid uuid' now
      (Completing-round uuid now)
      (λ o rest db' a'.
        All-delete_where Stamped _ (with_final_snapshot (uuid' o.id) now o db').orders
          (rw (orders-with_final_snapshot (uuid' o.id) now o db') a'))
      db
      (λ s. (
        u,
        a,
        All-map (due-RipeIn now (settings_at now db).order_auto_complete_grace_hours db)
            (select (is_due now (settings_at now db).order_auto_complete_grace_hours) db.orders)
            (select-IsRow (λ (o : Order). o.id)
              (is_due now (settings_at now db).order_auto_complete_grace_hours) db.orders u),
      ))
      (λ db' q. q.1) (λ db' a'. a')
exec-AllStamped (Op.settings caller min_days grace_hours now) db u a =
    after_update_settings AllStamped caller min_days grace_hours now db λ s. a
