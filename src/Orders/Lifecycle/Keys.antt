-- ===== src/Orders/Lifecycle/Keys.antt =====
-- The primary key of the orders: no call gives two orders one id.
use marketplace_invite_only.Common.{◌≡◌, refl, ℕ, none}
use marketplace_invite_only.Common.Tables.{
  IsUnique, update-IsUnique, delete_where-IsUnique, append-IsUnique,
}
use marketplace_invite_only.Models.{Order, Db}
use marketplace_invite_only.Orders.Loading.{find_order, with_order}
use marketplace_invite_only.Orders.Transitions.{accept_at, prepare_at}
use marketplace_invite_only.Orders.Delivering.{dispatch_at, deliver_at}
use marketplace_invite_only.Orders.Closing.{complete_at, cancel_at}
use marketplace_invite_only.Orders.Placing.{lowest_id, subtotal, new_order}
use marketplace_invite_only.Orders.Effects.Transitions.{
  after_accept_order, after_mark_preparing, after_choose_self_delivery, after_request_driver,
  after_assign_driver,
}
use marketplace_invite_only.Orders.Effects.Delivering.{after_out_for_delivery, after_mark_delivered}
use marketplace_invite_only.Orders.Effects.Closing.{
  with_settings, with_final_snapshot, after_complete_order, after_cancel_order, after_delete_order,
  after_update_settings,
}
use marketplace_invite_only.Orders.Effects.Purge.{after_run_purge_job}
use marketplace_invite_only.Orders.Effects.Placing.{after_create_order}
use marketplace_invite_only.Orders.Lifecycle.{Op, exec}
use marketplace_invite_only.Orders.Lifecycle.Steps.{
  Started-orders, orders-with_final_snapshot, orders-with_snapshot, orders-decrement,
}

abbrev pub HasKeys : Db → Type 0
HasKeys db = IsUnique (λ (o : Order). o.id) db.orders

-- A new order's id is in use nowhere, as a fresh UUID is.
abbrev pub IsFresh : Op → Db → Type 0
IsFresh (Op.create _ _ _ id _ _) db = find_order id db ≡ none
IsFresh _ db = Unit

with_order-HasKeys :
    (k : ℕ) (f : Order → Order) (db : Db)
    → ((o : Order) → (f o).id ≡ o.id)
    → HasKeys db
    → HasKeys (with_order k f db)
with_order-HasKeys k f db h u = update-IsUnique (λ (o : Order). o.id) k f db.orders h u

pub exec-HasKeys : (op : Op) (db : Db) → HasKeys db → IsFresh op db → HasKeys (exec op db)
unfolding exec
exec-HasKeys (Op.create customer items address id uuid now) db u fresh =
    after_create_order HasKeys customer items address id uuid now db u
      λ seller_id lines head referred resolved own sellable at_head.
        rw (orders-decrement lines db) (
          append-IsUnique (λ (o : Order). o.id)
            (new_order id customer seller_id (lowest_id head lines).product.store_id
              (subtotal lines) address now)
            db.orders fresh u)
exec-HasKeys (Op.accept caller id now) db u fresh =
    after_accept_order HasKeys caller id now db u
      λ o locked seller pending. with_order-HasKeys o.id (accept_at now) db (λ p. refl) u
exec-HasKeys (Op.prepare caller id now) db u fresh =
    after_mark_preparing HasKeys caller id now db u
      λ o locked seller accepted. with_order-HasKeys o.id (prepare_at now) db (λ p. refl) u
exec-HasKeys (Op.self_deliver caller id delivery_id) db u fresh =
    after_choose_self_delivery HasKeys caller id delivery_id db u λ o s locked f free. u
exec-HasKeys (Op.ask_driver caller id assignment_id now) db u fresh =
    after_request_driver HasKeys caller id assignment_id now db u λ o s locked f free. u
exec-HasKeys (Op.assign caller id driver_id now) db u fresh =
    after_assign_driver HasKeys caller id driver_id now db u λ o a locked f rows. u
exec-HasKeys (Op.dispatch caller id delivery_id started now) db u fresh =
    after_out_for_delivery HasKeys caller id delivery_id started now db u
      λ o db' locked fresh' preparing s.
        with_order-HasKeys o.id (dispatch_at now) db' (λ p. refl) (rw (Started-orders s) u)
exec-HasKeys (Op.deliver caller id now) db u fresh =
    after_mark_delivered HasKeys caller id now db u
      λ o d locked out found right. with_order-HasKeys o.id (deliver_at now) db (λ p. refl) u
exec-HasKeys (Op.complete caller id snapshot_id now later) db u fresh =
    after_complete_order HasKeys caller id snapshot_id now later db u λ o locked delivered.
      rw
        (orders-with_snapshot snapshot_id later (complete_at now o)
          (with_order o.id (complete_at now) db))
        (with_order-HasKeys o.id (complete_at now) db (λ p. refl) u)
exec-HasKeys (Op.cancel caller id reason now) db u fresh =
    after_cancel_order HasKeys caller id reason now db u
      λ o locked active may. with_order-HasKeys o.id (cancel_at now reason) db (λ p. refl) u
exec-HasKeys (Op.delete caller id snapshot_id now later) db u fresh =
    after_delete_order HasKeys caller id snapshot_id now later db (λ s. u)
      λ o s ended found allowed terminal elapsed.
        delete_where-IsUnique (λ (p : Order). p.id) _
          (with_final_snapshot snapshot_id later o (with_settings s db)).orders
          (rw (orders-with_final_snapshot snapshot_id later o (with_settings s db)) u)
exec-HasKeys (Op.purge uuid uuid' now) db u fresh =
    after_run_purge_job HasKeys (λ rows db'. HasKeys db') (λ rows db'. HasKeys db') uuid uuid' now
      (λ o rest db' u'.
        rw
          (orders-with_snapshot (uuid o.id) now (complete_at now o)
            (with_order o.id (complete_at now) db'))
          (with_order-HasKeys o.id (complete_at now) db' (λ p. refl) u'))
      (λ o rest db' u'.
        delete_where-IsUnique (λ (p : Order). p.id) _
          (with_final_snapshot (uuid' o.id) now o db').orders
          (rw (orders-with_final_snapshot (uuid' o.id) now o db') u'))
      db (λ s. u) (λ db' u'. u') (λ db' u'. u')
exec-HasKeys (Op.settings caller min_days grace_hours now) db u fresh =
    after_update_settings HasKeys caller min_days grace_hours now db λ s. u
