-- ===== src/Orders/Lifecycle/Refinement.antt =====
-- The calls of the order service against the state machine of the orders, one by one and in a history.
use marketplace_invite_only.Common.{ℕ, List, [], ◌∷◌}
use marketplace_invite_only.Models.{Db}
use marketplace_invite_only.Orders.Lifecycle.{Op, exec, Moves, status_of}
use marketplace_invite_only.Orders.Lifecycle.Keys.{HasKeys, IsFresh}
use marketplace_invite_only.Orders.Lifecycle.Steps.{
  Follows, create-Follows, accept-Follows, prepare-Follows, self_deliver-Follows,
  ask_driver-Follows, assign-Follows, dispatch-Follows, deliver-Follows, complete-Follows,
  cancel-Follows, delete-Follows, settings-Follows,
}
use marketplace_invite_only.Orders.Lifecycle.Sweep.{purge-Follows}

pub exec-Follows : (op : Op) (db : Db) (k : ℕ) → HasKeys db → Follows db k (exec op db)
unfolding exec
exec-Follows (Op.create customer items address id uuid now) db k u =
    create-Follows db k customer items address id uuid now
exec-Follows (Op.accept caller id now) db k u = accept-Follows db k caller id now
exec-Follows (Op.prepare caller id now) db k u = prepare-Follows db k caller id now
exec-Follows (Op.self_deliver caller id delivery_id) db k u =
    self_deliver-Follows db k caller id delivery_id
exec-Follows (Op.ask_driver caller id assignment_id now) db k u =
    ask_driver-Follows db k caller id assignment_id now
exec-Follows (Op.assign caller id driver_id now) db k u =
    assign-Follows db k caller id driver_id now
exec-Follows (Op.dispatch caller id delivery_id started now) db k u =
    dispatch-Follows db k caller id delivery_id started now
exec-Follows (Op.deliver caller id now) db k u = deliver-Follows db k caller id now
exec-Follows (Op.complete caller id snapshot_id now later) db k u =
    complete-Follows db k caller id snapshot_id now later
exec-Follows (Op.cancel caller id reason now) db k u = cancel-Follows db k caller id reason now
exec-Follows (Op.delete caller id snapshot_id now later) db k u =
    delete-Follows db k caller id snapshot_id now later
exec-Follows (Op.purge uuid uuid' now) db k u = purge-Follows db k uuid uuid' now u
exec-Follows (Op.settings caller min_days grace_hours now) db k u =
    settings-Follows db k caller min_days grace_hours now

abbrev pub AllFresh : List Op → Db → Type 0
AllFresh [] db = Unit
AllFresh (op ∷ ops) db = IsFresh op db × AllFresh ops (exec op db)

-- Each call of a history makes one move, or none, with the order under the id: from what the database
-- says of it when the call begins to what it says when the call ends.
abbrev pub AllMove : ℕ → List Op → Db → Type 0
AllMove k [] db = Unit
AllMove k (op ∷ ops) db =
    Moves (status_of k db) (status_of k (exec op db)) × AllMove k ops (exec op db)
