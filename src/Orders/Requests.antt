-- ===== src/Orders/Requests.antt =====
-- Driver assignments: no call of the order service leaves an order with two open ones, which is what
-- the `scalar_one_or_none` of several calls relies on.
use marketplace_invite_only.Common.{
  ◌≡◌, refl, ℕ, ◌≤◌, Bool, true, ◌&&◌, some, List, [], ◌∷◌, ◌==◌, Bool-cases, inl, inr, arith,
}
use mathlib.Core.Path.{subst}
use marketplace_invite_only.Common.Tables.{
  All, All-map, IsUnique, count, find, first, select, select-IsRow, order_by_desc,
}
use marketplace_invite_only.Common.Rows.{
  All-order_by_desc, All-select, All-first, count-append, count-delete_where, count-select,
  count-update, count-update_where,
}
use marketplace_invite_only.Models.{DriverAssignment, AssignmentStatus, is_open, Order, User, Db}
use marketplace_invite_only.Orders.Loading.{assignments_of, with_order}
use marketplace_invite_only.Orders.Transitions.{
  open_assignments, new_request, with_new_request, assign_to, with_assignment,
}
use marketplace_invite_only.Orders.Closing.{complete_at, cancel_at, with_snapshot, withdraw_open}
use marketplace_invite_only.Orders.Retention.{delete_cascade}
use marketplace_invite_only.Orders.Placing.{Line, decrement}
use marketplace_invite_only.Orders.Effects.Transitions.{
  after_accept_order, after_mark_preparing, after_choose_self_delivery, after_request_driver,
  after_assign_driver,
}
use marketplace_invite_only.Orders.Effects.Delivering.{
  Started, by_driver, existing, after_out_for_delivery, after_mark_delivered,
}
use marketplace_invite_only.Orders.Effects.Closing.{
  with_settings, with_final_snapshot, after_complete_order, after_cancel_order, after_delete_order,
  after_update_settings,
}
use marketplace_invite_only.Orders.Effects.Purge.{after_run_purge_job}
use marketplace_invite_only.Orders.Effects.Placing.{after_create_order}
use marketplace_invite_only.Orders.Lifecycle.{Op, exec}

abbrev pub is_open_of : ℕ → DriverAssignment → Bool
is_open_of k a = a.order_id == k && is_open a.status

abbrev pub AtMostOneOpen : ℕ → Db → Type 0
AtMostOneOpen k db = count (is_open_of k) db.assignments ≤ 1

assignments-decrement :
    (lines : List Line) (db : Db) → (decrement lines db).assignments ≡ db.assignments
unfolding decrement
assignments-decrement [] db = refl
assignments-decrement (l ∷ rest) db = assignments-decrement rest _

assignments-with_snapshot :
    (id now : ℕ) (o : Order) (db : Db) → (with_snapshot id now o db).assignments ≡ db.assignments
assignments-with_snapshot id now o db = ground arith

assignments-with_final_snapshot :
    (id now : ℕ) (o : Order) (db : Db)
    → (with_final_snapshot id now o db).assignments ≡ db.assignments
assignments-with_final_snapshot id now o db = ground arith

Started-assignments :
    {caller : User} {o : Order} {db db' : Db}
    → Started caller o db db'
    → db'.assignments ≡ db.assignments
Started-assignments (by_driver id at a e f g) = refl
Started-assignments (existing at d e f) = refl

with_new_request-AtMostOneOpen :
    (k id order_id seller_id now : ℕ) (db : Db)
    → open_assignments order_id db ≡ []
    → AtMostOneOpen k db
    → AtMostOneOpen k (with_new_request (new_request id order_id seller_id now) db)
unfolding count
with_new_request-AtMostOneOpen k id order_id seller_id now db free one =
    let added =
      count-append (is_open_of k) db.assignments (new_request id order_id seller_id now ∷ []) in
    elim (Bool-cases (order_id == k)) [
      | inl e ↦
          let here : order_id ≡ k = ground arith in
          let zero_yet : count (is_open_of k) db.assignments ≡ 0 =
            count-select (is_open_of k) db.assignments
              (subst (λ j. open_assignments j db ≡ []) here free) in
          ground (arith, added, zero_yet, e)
      | inr e ↦ ground (arith, added, e, one)
    ]

with_assignment-AtMostOneOpen :
    (k order_id driver_id admin_id now : ℕ) (db : Db) (a : DriverAssignment)
    → IsUnique (λ (a : DriverAssignment). a.id) db.assignments
    → first (
        select
          (λ a. is_open a.status)
          (order_by_desc (λ (b : DriverAssignment). b.requested_at) (assignments_of order_id db)))
      ≡ some a
    → AtMostOneOpen k db
    → AtMostOneOpen k (with_assignment a.id (assign_to driver_id admin_id now) db)
with_assignment-AtMostOneOpen k order_id driver_id admin_id now db a u found one =
    let Stored = λ (b : DriverAssignment).
      find (λ (c : DriverAssignment). c.id) b.id db.assignments ≡ some b in
    let rows : All Stored (assignments_of order_id db) =
      All-map (λ b row. row.0) (assignments_of order_id db)
        (select-IsRow (λ (c : DriverAssignment). c.id) (λ b. b.order_id == order_id) db.assignments
          u) in
    let picked =
      All-first (λ b. Stored b × (is_open b.status ≡ true)) _ a found
        (All-select Stored (λ b. is_open b.status) _
          (All-order_by_desc (λ (b : DriverAssignment). b.requested_at) Stored _ rows)) in
    let law =
      count-update (is_open_of k) (λ (c : DriverAssignment). c.id) a.id
        (assign_to driver_id admin_id now) db.assignments a u picked.0
        (λ h. ground (arith, h, picked.1)) in
    omega (arith, law, one)

withdraw_open-AtMostOneOpen :
    (k order_id : ℕ) (db : Db) → AtMostOneOpen k db → AtMostOneOpen k (withdraw_open order_id db)
withdraw_open-AtMostOneOpen k order_id db one =
    let law =
      count-update_where (is_open_of k) (is_open_of order_id)
        (λ a. record a { status = AssignmentStatus.cancelled }) db.assignments
        (λ a h. ground (arith, h)) in
    omega (arith, law, one)

delete_cascade-AtMostOneOpen :
    (k order_id : ℕ) (db : Db) → AtMostOneOpen k db → AtMostOneOpen k (delete_cascade order_id db)
delete_cascade-AtMostOneOpen k order_id db one =
    let law = count-delete_where (is_open_of k) (λ a. a.order_id == order_id) db.assignments in
    omega (arith, law, one)

-- No call of the order service, by any caller and with any arguments, leaves an order with more than
-- one open assignment (requested, assigned or accepted). The conditions are that this holds before
-- the call and that the ids of the assignments are unique.
pub exec-AtMostOneOpen :
    (op : Op) (db : Db) (k : ℕ)
    → IsUnique (λ (a : DriverAssignment). a.id) db.assignments
    → AtMostOneOpen k db
    → AtMostOneOpen k (exec op db)
unfolding exec
exec-AtMostOneOpen (Op.create customer items address id uuid now) db k u one =
    after_create_order (AtMostOneOpen k) customer items address id uuid now db one
      λ seller_id lines head referred resolved own sellable at_head.
        rw (assignments-decrement lines db) one
exec-AtMostOneOpen (Op.accept caller id now) db k u one =
    after_accept_order (AtMostOneOpen k) caller id now db one λ o locked seller pending. one
exec-AtMostOneOpen (Op.prepare caller id now) db k u one =
    after_mark_preparing (AtMostOneOpen k) caller id now db one λ o locked seller accepted. one
exec-AtMostOneOpen (Op.self_deliver caller id delivery_id) db k u one =
    after_choose_self_delivery (AtMostOneOpen k) caller id delivery_id db one
      λ o s locked f free. one
exec-AtMostOneOpen (Op.ask_driver caller id assignment_id now) db k u one =
    after_request_driver (AtMostOneOpen k) caller id assignment_id now db one λ o s locked f free.
      with_new_request-AtMostOneOpen k assignment_id o.id s.id now db free.no_request one
exec-AtMostOneOpen (Op.assign caller id driver_id now) db k u one =
    after_assign_driver (AtMostOneOpen k) caller id driver_id now db one λ o a locked f rows.
      with_assignment-AtMostOneOpen k o.id driver_id caller.id now db a u rows one
exec-AtMostOneOpen (Op.dispatch caller id delivery_id started now) db k u one =
    after_out_for_delivery (AtMostOneOpen k) caller id delivery_id started now db one
      λ o db' locked fresh preparing s. rw (Started-assignments s) one
exec-AtMostOneOpen (Op.deliver caller id now) db k u one =
    after_mark_delivered (AtMostOneOpen k) caller id now db one λ o d locked out found right. one
exec-AtMostOneOpen (Op.complete caller id snapshot_id now later) db k u one =
    after_complete_order (AtMostOneOpen k) caller id snapshot_id now later db one
      λ o locked delivered.
        rw
          (assignments-with_snapshot snapshot_id later (complete_at now o)
            (with_order o.id (complete_at now) db))
          one
exec-AtMostOneOpen (Op.cancel caller id reason now) db k u one =
    after_cancel_order (AtMostOneOpen k) caller id reason now db one λ o locked active may.
      withdraw_open-AtMostOneOpen k o.id (with_order o.id (cancel_at now reason) db) one
exec-AtMostOneOpen (Op.delete caller id snapshot_id now later) db k u one =
    after_delete_order (AtMostOneOpen k) caller id snapshot_id now later db (λ s. one)
      λ o s ended found allowed terminal elapsed.
        delete_cascade-AtMostOneOpen k o.id
          (with_final_snapshot snapshot_id later o (with_settings s db))
          (rw (assignments-with_final_snapshot snapshot_id later o (with_settings s db)) one)
exec-AtMostOneOpen (Op.purge uuid uuid' now) db k u one =
    after_run_purge_job (AtMostOneOpen k) (λ rows db'. AtMostOneOpen k db')
      (λ rows db'. AtMostOneOpen k db') uuid uuid' now
      (λ o rest db' one'.
        rw
          (assignments-with_snapshot (uuid o.id) now (complete_at now o)
            (with_order o.id (complete_at now) db'))
          one')
      (λ o rest db' one'.
        delete_cascade-AtMostOneOpen k o.id (with_final_snapshot (uuid' o.id) now o db')
          (rw (assignments-with_final_snapshot (uuid' o.id) now o db') one'))
      db (λ s. one) (λ db' one'. one') (λ db' one'. one')
exec-AtMostOneOpen (Op.settings caller min_days grace_hours now) db k u one =
    after_update_settings (AtMostOneOpen k) caller min_days grace_hours now db λ s. one
