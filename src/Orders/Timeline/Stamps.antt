-- ===== src/Orders/Timeline/Stamps.antt =====
-- Which timestamps an order has, by its status.
use marketplace_invite_only.Common.{
  ◌≡◌, ℕ, Bool, true, false, not, ◌||◌, String, Option, is_some, arith,
}
use mathlib.Core.Path.{subst}
use marketplace_invite_only.Models.{OrderStatus, status_is, Order}
use marketplace_invite_only.Orders.Transitions.{accept_at, prepare_at}
use marketplace_invite_only.Orders.Delivering.{dispatch_at, deliver_at}
use marketplace_invite_only.Orders.Closing.{complete_at, cancel_at, is_terminal}

-- The transitions that lie behind a status; cancelled leaves open how far the order had come.
pub record Stamps (accepted preparing dispatched delivered completed cancelled : Bool) (o : Order)
    : Type 0 where
  pub at_accept : is_some o.accepted_at ≡ accepted
  pub at_prepare : is_some o.preparing_at ≡ preparing
  pub at_dispatch : is_some o.out_for_delivery_at ≡ dispatched
  pub at_deliver : is_some o.delivered_at ≡ delivered
  pub at_complete : is_some o.completed_at ≡ completed
  pub at_cancel : is_some o.cancelled_at ≡ cancelled

pub record Closed (o : Order) : Type 0 where
  pub never_delivered : is_some o.delivered_at ≡ false
  pub never_completed : is_some o.completed_at ≡ false
  pub at_cancel : is_some o.cancelled_at ≡ true

abbrev pub StampedAs : OrderStatus → Order → Type 0
StampedAs OrderStatus.pending = Stamps false false false false false false
StampedAs OrderStatus.accepted = Stamps true false false false false false
StampedAs OrderStatus.preparing = Stamps true true false false false false
StampedAs OrderStatus.out_for_delivery = Stamps true true true false false false
StampedAs OrderStatus.delivered = Stamps true true true true false false
StampedAs OrderStatus.completed = Stamps true true true true true false
StampedAs OrderStatus.cancelled = Closed

abbrev pub Stamped : Order → Type 0
Stamped o = StampedAs o.status o

pub status_of_guard : (s t : OrderStatus) → not (status_is s t) ≡ false → s ≡ t
status_of_guard s t h = ground arith

stamped_as :
    (t : OrderStatus) (o : Order) → not (status_is o.status t) ≡ false → Stamped o → StampedAs t o
stamped_as t o g h = subst (λ (s : OrderStatus). StampedAs s o) (status_of_guard o.status t g) h

module _ (o : Order) (now : ℕ) where
  pub accept_at-Stamped :
      not (status_is o.status OrderStatus.pending) ≡ false → Stamped o → Stamped (accept_at now o)
  accept_at-Stamped g h =
      let before : StampedAs OrderStatus.pending o = stamped_as OrderStatus.pending o g h in
      ground arith

  pub prepare_at-Stamped :
      not (status_is o.status OrderStatus.accepted) ≡ false → Stamped o → Stamped (prepare_at now o)
  prepare_at-Stamped g h =
      let before : StampedAs OrderStatus.accepted o = stamped_as OrderStatus.accepted o g h in
      ground arith

  pub dispatch_at-Stamped :
      not (status_is o.status OrderStatus.preparing) ≡ false
      → Stamped o
      → Stamped (dispatch_at now o)
  dispatch_at-Stamped g h =
      let before : StampedAs OrderStatus.preparing o = stamped_as OrderStatus.preparing o g h in
      ground arith

  pub deliver_at-Stamped :
      not (status_is o.status OrderStatus.out_for_delivery) ≡ false
      → Stamped o
      → Stamped (deliver_at now o)
  deliver_at-Stamped g h =
      let before : StampedAs OrderStatus.out_for_delivery o =
        stamped_as OrderStatus.out_for_delivery o g h in
      ground arith

  pub complete_at-Stamped :
      not (status_is o.status OrderStatus.delivered) ≡ false
      → Stamped o
      → Stamped (complete_at now o)
  complete_at-Stamped g h =
      let before : StampedAs OrderStatus.delivered o = stamped_as OrderStatus.delivered o g h in
      ground arith

-- An active order is cancelled from one of four states.
cancel_from :
    (s : OrderStatus) (o : Order) (now : ℕ) (reason : Option String)
    → (is_terminal s || status_is s OrderStatus.delivered) ≡ false
    → StampedAs s o
    → Stamped (cancel_at now reason o)
cancel_from OrderStatus.pending o now reason g h = ground arith
cancel_from OrderStatus.accepted o now reason g h = ground arith
cancel_from OrderStatus.preparing o now reason g h = ground arith
cancel_from OrderStatus.out_for_delivery o now reason g h = ground arith
cancel_from _ o now reason g h = absurd (ground arith)

pub cancel_at-Stamped :
    (o : Order) (now : ℕ) (reason : Option String)
    → (is_terminal o.status || status_is o.status OrderStatus.delivered) ≡ false
    → Stamped o
    → Stamped (cancel_at now reason o)
cancel_at-Stamped o now reason g h = cancel_from o.status o now reason g h

-- An order that the purge job may complete, or has just completed.
abbrev pub is_ripe : OrderStatus → Bool
is_ripe s = status_is s OrderStatus.delivered || status_is s OrderStatus.completed

complete_ripe :
    (s : OrderStatus) (o : Order) (now : ℕ)
    → is_ripe s ≡ true
    → StampedAs s o
    → Stamped (complete_at now o)
complete_ripe OrderStatus.delivered o now r h = ground arith
complete_ripe OrderStatus.completed o now r h = ground arith
complete_ripe _ o now r h = absurd (ground arith)

pub complete_ripe-Stamped :
    (o : Order) (now : ℕ) → is_ripe o.status ≡ true → Stamped o → Stamped (complete_at now o)
complete_ripe-Stamped o now r h = complete_ripe o.status o now r h
