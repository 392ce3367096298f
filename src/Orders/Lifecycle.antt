-- ===== src/Orders/Lifecycle.antt =====
-- The state machine of an order (the diagram in backend/app/models/order.py and ADR-0012), as an
-- abstract specification, and all the calls of the order service as one type of operations.
pub mod Steps
mod Sweep
pub mod Keys
pub mod Refinement
use marketplace_invite_only.Common.{ℕ, Bool, true, String, Option, none, some, List, ◌≡◌}
use marketplace_invite_only.Models.{OrderStatus, User, Order, Address, Db}
use marketplace_invite_only.Session.{Action}
use marketplace_invite_only.Orders.Loading.{find_order}
use marketplace_invite_only.Orders.Transitions.{
  accept_order, mark_preparing, choose_self_delivery, request_driver, assign_driver,
}
use marketplace_invite_only.Orders.Delivering.{out_for_delivery, mark_delivered}
use marketplace_invite_only.Orders.Closing.{complete_order, cancel_order, is_terminal}
use marketplace_invite_only.Orders.Retention.{
  delete_order, run_purge_job, update_retention_settings,
}
use marketplace_invite_only.Orders.Placing.{LineItem, create_order}

-- A call that may write, with its caller, its arguments, and the clock readings and ids it draws.
pub data Op : Type 0 where
  create : User → List LineItem → Address → ℕ → (ℕ → ℕ) → ℕ → Op
  accept prepare : User → ℕ → ℕ → Op
  self_deliver : User → ℕ → ℕ → Op
  ask_driver : User → ℕ → ℕ → ℕ → Op
  assign : User → ℕ → ℕ → ℕ → Op
  dispatch : User → ℕ → ℕ → ℕ → ℕ → Op
  deliver : User → ℕ → ℕ → Op
  complete : User → ℕ → ℕ → ℕ → ℕ → Op
  cancel : User → ℕ → Option String → ℕ → Op
  delete : User → ℕ → ℕ → ℕ → ℕ → Op
  purge : (ℕ → ℕ) → (ℕ → ℕ) → ℕ → Op
  settings : User → Option ℕ → Option ℕ → ℕ → Op

-- The database that a call leaves, whether it returns or raises.
unfoldable pub exec : Op → Db → Db
exec (Op.create customer items address id uuid now) db =
    (create_order customer items address id uuid now db).1
exec (Op.accept caller id now) db = (accept_order caller id now db).1
exec (Op.prepare caller id now) db = (mark_preparing caller id now db).1
exec (Op.self_deliver caller id delivery_id) db = (choose_self_delivery caller id delivery_id db).1
exec (Op.ask_driver caller id assignment_id now) db =
    (request_driver caller id assignment_id now db).1
exec (Op.assign caller id driver_id now) db = (assign_driver caller id driver_id now db).1
exec (Op.dispatch caller id delivery_id started now) db =
    (out_for_delivery caller id delivery_id started now db).1
exec (Op.deliver caller id now) db = (mark_delivered caller id now db).1
exec (Op.complete caller id snapshot_id now later) db =
    (complete_order caller id snapshot_id now later db).1
exec (Op.cancel caller id reason now) db = (cancel_order caller id reason now db).1
exec (Op.delete caller id snapshot_id now later) db =
    (delete_order caller id snapshot_id now later db).1
exec (Op.purge uuid uuid' now) db = (run_purge_job uuid uuid' now db).1
exec (Op.settings caller min_days grace_hours now) db =
    (update_retention_settings caller min_days grace_hours now db).1

infix 40 ◌⟶◌
-- The arrows between the states of an order.
pub data ◌⟶◌ : OrderStatus → OrderStatus → Type 0 where
  accepting : OrderStatus.pending ⟶ OrderStatus.accepted
  preparing : OrderStatus.accepted ⟶ OrderStatus.preparing
  dispatching : OrderStatus.preparing ⟶ OrderStatus.out_for_delivery
  delivering : OrderStatus.out_for_delivery ⟶ OrderStatus.delivered
  completing : OrderStatus.delivered ⟶ OrderStatus.completed
  cancelling_pending : OrderStatus.pending ⟶ OrderStatus.cancelled
  cancelling_accepted : OrderStatus.accepted ⟶ OrderStatus.cancelled
  cancelling_preparing : OrderStatus.preparing ⟶ OrderStatus.cancelled
  cancelling_dispatched : OrderStatus.out_for_delivery ⟶ OrderStatus.cancelled

-- What may happen to the order under one id, where `none` is "no such row".
pub data Moves : Option OrderStatus → Option OrderStatus → Type 0 where
  stay : {s : Option OrderStatus} → Moves s s
  place : Moves none (some OrderStatus.pending)
  follow : {s t : OrderStatus} → s ⟶ t → Moves (some s) (some t)
  erase : {s : OrderStatus} → is_terminal s ≡ true → Moves (some s) none
  -- the purge job completes an order and deletes it in the same run
  complete_and_erase : Moves (some OrderStatus.delivered) none

abbrev pub status_in : Option Order → Option OrderStatus
status_in none = none
status_in (some o) = some o.status

abbrev pub status_of : ℕ → Db → Option OrderStatus
status_of k db = status_in (find_order k db)
