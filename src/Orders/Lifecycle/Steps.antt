-- ===== src/Orders/Lifecycle/Steps.antt =====
-- Each call on one order moves it along the diagram, and no other order.
use marketplace_invite_only.Common.{
  ◌≡◌, refl, ap, ℕ, true, false, not, inl, inr, Option, none, some, List, [], ◌∷◌, ◌==◌, Bool-cases,
  Option-cases, arith, String, ◌||◌, ◌++◌,
}
use marketplace_invite_only.Common.Tables.{find, find_key, find-update, find-remove, find-append}
use mathlib.Core.Bool.{true≢false}
use marketplace_invite_only.Models.{OrderStatus, status_is, User, Order, Address, Db}
use marketplace_invite_only.Orders.Loading.{find_order, with_order}
use marketplace_invite_only.Orders.Transitions.{
  accept_at, prepare_at, accept_order, mark_preparing, choose_self_delivery, request_driver,
  assign_driver,
}
use marketplace_invite_only.Orders.Delivering.{
  dispatch_at, deliver_at, out_for_delivery, mark_delivered,
}
use marketplace_invite_only.Orders.Closing.{
  with_snapshot, complete_at, complete_order, is_terminal, cancel_at, cancel_order,
}
use marketplace_invite_only.Orders.Retention.{
  delete_cascade, terminal_at, delete_order, update_retention_settings,
}
use marketplace_invite_only.Orders.Placing.{
  LineItem, Line, lowest_id, new_order, subtotal, decrement, create_order,
}
use marketplace_invite_only.Orders.Effects.Transitions.{
  after_accept_order, after_mark_preparing, after_choose_self_delivery, after_request_driver,
  after_assign_driver,
}
use marketplace_invite_only.Orders.Effects.Delivering.{
  Started, by_driver, existing, after_out_for_delivery, after_mark_delivered,
}
use marketplace_invite_only.Orders.Effects.Closing.{
  with_settings, with_final_snapshot, after_complete_order, after_cancel_order, after_delete_order,
  after_update_settings,
}
use marketplace_invite_only.Orders.Effects.Placing.{after_create_order}
use marketplace_invite_only.Orders.Lifecycle.{
  ◌⟶◌, Moves, status_in, status_of, accepting, preparing, dispatching, delivering, completing,
  cancelling_pending, cancelling_accepted, cancelling_preparing, cancelling_dispatched, stay, place,
  follow, erase,
}

pub status_eq : (s t : OrderStatus) → not (status_is s t) ≡ false → s ≡ t
status_eq s t h = ground arith

-- A write to a live order moves it as the write changes its status, and no other order.
with_order-Moves :
    (j k : ℕ) (f : Order → Order) (db : Db) (o : Order)
    → ((p : Order) → (f p).id ≡ p.id)
    → find_order j db ≡ some o
    → Moves (some o.status) (some (f o).status)
    → Moves (status_of k db) (status_of k (with_order o.id f db))
with_order-Moves j k f db o keeps found m =
    let at : o.id ≡ j = find_key (λ (p : Order). p.id) j db.orders found in
    rw (find-update (λ (p : Order). p.id) k o.id f db.orders keeps) (elim (Bool-cases (k == o.id)) [
      | inl e ↦ let same : find_order k db ≡ some o = ground arith in rw (e, same) m
      | inr e ↦ rw e stay
    ])

-- Writes outside the orders leave every status alone.
pub orders-with_final_snapshot :
    (id now : ℕ) (o : Order) (db : Db) → (with_final_snapshot id now o db).orders ≡ db.orders
orders-with_final_snapshot id now o db = ground arith

pub orders-with_snapshot :
    (id now : ℕ) (o : Order) (db : Db) → (with_snapshot id now o db).orders ≡ db.orders
orders-with_snapshot id now o db = ground arith

pub orders-decrement : (lines : List Line) (db : Db) → (decrement lines db).orders ≡ db.orders
unfolding decrement
orders-decrement [] db = refl
orders-decrement (l ∷ rest) db = orders-decrement rest _

pub status_of-eq :
    (k : ℕ) (db db' : Db) → db'.orders ≡ db.orders → Moves (status_of k db) (status_of k db')
status_of-eq k db db' e = rw e stay

-- A guard on one status, and the arrow that it lets through.
along :
    {t u : OrderStatus} (s : OrderStatus)
    → t ⟶ u
    → not (status_is s t) ≡ false
    → Moves (some s) (some u)
along s accepting h = rw (status_eq s OrderStatus.pending h) (follow accepting)
along s preparing h = rw (status_eq s OrderStatus.accepted h) (follow preparing)
along s dispatching h = rw (status_eq s OrderStatus.preparing h) (follow dispatching)
along s delivering h = rw (status_eq s OrderStatus.out_for_delivery h) (follow delivering)
along s completing h = rw (status_eq s OrderStatus.delivered h) (follow completing)
along s cancelling_pending h = rw (status_eq s OrderStatus.pending h) (follow cancelling_pending)
along s cancelling_accepted h = rw (status_eq s OrderStatus.accepted h) (follow cancelling_accepted)
along s cancelling_preparing h =
    rw (status_eq s OrderStatus.preparing h) (follow cancelling_preparing)
along s cancelling_dispatched h =
    rw (status_eq s OrderStatus.out_for_delivery h) (follow cancelling_dispatched)

cancel_step :
    (s : OrderStatus)
    → (is_terminal s || status_is s OrderStatus.delivered) ≡ false
    → Moves (some s) (some OrderStatus.cancelled)
cancel_step OrderStatus.pending h = follow cancelling_pending
cancel_step OrderStatus.accepted h = follow cancelling_accepted
cancel_step OrderStatus.preparing h = follow cancelling_preparing
cancel_step OrderStatus.out_for_delivery h = follow cancelling_dispatched
cancel_step OrderStatus.delivered h = absurd (true≢false h)
cancel_step OrderStatus.completed h = absurd (true≢false h)
cancel_step OrderStatus.cancelled h = absurd (true≢false h)

pub Started-orders :
    {caller : User} {o : Order} {db db' : Db} → Started caller o db db' → db'.orders ≡ db.orders
Started-orders (by_driver id at a none_yet only right) = refl
Started-orders (existing at d there right) = refl

pub terminal_of : (o : Order) {ended : ℕ} → terminal_at o ≡ some ended → is_terminal o.status ≡ true
terminal_of o h = ground arith

-- A delete takes the order under one id away, where that is a move.
pub delete-Moves :
    (i k : ℕ) (s : Option OrderStatus) (db : Db)
    → Moves s (status_of k db)
    → ((k == i) ≡ true → Moves s none)
    → Moves s (status_of k (delete_cascade i db))
delete-Moves i k s db m h =
    rw (find-remove (λ (p : Order). p.id) k i db.orders)
      (elim (Bool-cases (k == i)) [ inl e ↦ rw e (h e) | inr e ↦ rw e m ])

-- A row put in last is seen under its id only if there was none.
place-Moves :
    (k : ℕ) (o : Order) (rs : List Order)
    → o.status ≡ OrderStatus.pending
    → Moves
        (status_in (find (λ (p : Order). p.id) k rs))
        (status_in (find (λ (p : Order). p.id) k (rs ++ o ∷ [])))
place-Moves k o rs h =
    rw (find-append (λ (p : Order). p.id) k rs o)
      (elim (Option-cases (find (λ (p : Order). p.id) k rs)) [
        | inl e ↦
            rw e
              (elim (Bool-cases (o.id == k)) [ inl at ↦ rw at (rw h place) | inr at ↦ rw at stay ])
        | inr (p, e) ↦ rw e stay
      ])

module _ (db : Db) (k : ℕ) where
  abbrev pub Follows : Db → Type 0
  Follows db' = Moves (status_of k db) (status_of k db')

  pub accept-Follows : (caller : User) (id now : ℕ) → Follows (accept_order caller id now db).1
  accept-Follows caller id now =
      after_accept_order Follows caller id now db stay λ o locked seller pending.
        with_order-Moves id k (accept_at now) db o (λ p. refl) locked.found
          (along o.status accepting pending)

  pub prepare-Follows : (caller : User) (id now : ℕ) → Follows (mark_preparing caller id now db).1
  prepare-Follows caller id now =
      after_mark_preparing Follows caller id now db stay λ o locked seller accepted.
        with_order-Moves id k (prepare_at now) db o (λ p. refl) locked.found
          (along o.status preparing accepted)

  pub dispatch-Follows :
      (caller : User) (id delivery_id started now : ℕ)
      → Follows (out_for_delivery caller id delivery_id started now db).1
  dispatch-Follows caller id delivery_id started now =
      after_out_for_delivery Follows caller id delivery_id started now db stay
        λ o db' locked fresh is_preparing s.
          let same : db'.orders ≡ db.orders = Started-orders s in
          rw (← ap (λ (rs : List Order). status_in (find (λ p. p.id) k rs)) same) (
            with_order-Moves id k (dispatch_at now) db' o (λ p. refl) (rw same locked.found)
              (along o.status dispatching is_preparing))

  pub deliver-Follows : (caller : User) (id now : ℕ) → Follows (mark_delivered caller id now db).1
  deliver-Follows caller id now =
      after_mark_delivered Follows caller id now db stay λ o d locked out found right.
        with_order-Moves id k (deliver_at now) db o (λ p. refl) locked.found
          (along o.status delivering out)

  pub complete-Follows :
      (caller : User) (id snapshot_id now later : ℕ)
      → Follows (complete_order caller id snapshot_id now later db).1
  complete-Follows caller id snapshot_id now later =
      after_complete_order Follows caller id snapshot_id now later db stay λ o locked delivered.
        rw
          (orders-with_snapshot snapshot_id later (complete_at now o)
            (with_order o.id (complete_at now) db))
          (with_order-Moves id k (complete_at now) db o (λ p. refl) locked.found
            (along o.status completing delivered))

  pub cancel-Follows :
      (caller : User) (id : ℕ) (reason : Option String) (now : ℕ)
      → Follows (cancel_order caller id reason now db).1
  cancel-Follows caller id reason now =
      after_cancel_order Follows caller id reason now db stay λ o locked active may.
        with_order-Moves id k (cancel_at now reason) db o (λ p. refl) locked.found
          (cancel_step o.status active)

  pub delete-Follows :
      (caller : User) (id snapshot_id now later : ℕ)
      → Follows (delete_order caller id snapshot_id now later db).1
  delete-Follows caller id snapshot_id now later =
      after_delete_order Follows caller id snapshot_id now later db (λ s. stay)
        λ o s ended found allowed terminal elapsed.
          delete-Moves o.id k (status_of k db)
            (with_final_snapshot snapshot_id later o (with_settings s db))
            (status_of-eq k db (with_final_snapshot snapshot_id later o (with_settings s db))
              (orders-with_final_snapshot snapshot_id later o (with_settings s db)))
            (λ e.
              let at : o.id ≡ id = find_key (λ (p : Order). p.id) id db.orders found in
              let same : find_order k db ≡ some o = ground arith in
              rw same (erase (terminal_of o terminal)))

  pub create-Follows :
      (customer : User) (items : List LineItem) (address : Address) (id : ℕ) (uuid : ℕ → ℕ)
      (now : ℕ)
      → Follows (create_order customer items address id uuid now db).1
  create-Follows customer items address id uuid now =
      after_create_order Follows customer items address id uuid now db stay
        λ seller_id lines head referred resolved own sellable at_head.
          rw (orders-decrement lines db) (
            place-Moves k
              (new_order id customer seller_id (lowest_id head lines).product.store_id
                (subtotal lines) address now)
              db.orders refl)

  pub self_deliver-Follows :
      (caller : User) (id delivery_id : ℕ)
      → Follows (choose_self_delivery caller id delivery_id db).1
  self_deliver-Follows caller id delivery_id =
      after_choose_self_delivery Follows caller id delivery_id db stay λ o s locked f free. stay

  pub ask_driver-Follows :
      (caller : User) (id assignment_id now : ℕ)
      → Follows (request_driver caller id assignment_id now db).1
  ask_driver-Follows caller id assignment_id now =
      after_request_driver Follows caller id assignment_id now db stay λ o s locked f free. stay

  pub assign-Follows :
      (caller : User) (id driver_id now : ℕ) → Follows (assign_driver caller id driver_id now db).1
  assign-Follows caller id driver_id now =
      after_assign_driver Follows caller id driver_id now db stay λ o a locked f rows. stay

  pub settings-Follows :
      (caller : User) (min_days grace_hours : Option ℕ) (now : ℕ)
      → Follows (update_retention_settings caller min_days grace_hours now db).1
  settings-Follows caller min_days grace_hours now =
      after_update_settings Follows caller min_days grace_hours now db λ s. stay
