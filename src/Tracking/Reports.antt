-- ===== src/Tracking/Reports.antt =====
-- When a location report changes a delivery, and how.
use marketplace_invite_only.Common.{
  ◌≡◌, refl, ℕ, ◌≤◌, Bool, true, false, Option, none, some, ◌==◌, if◌then◌else◌, inl, inr, ◌⊎◌,
  not-false, arith,
}
use mathlib.Core.Path.{subst, ap}
use marketplace_invite_only.Common.Tables.{find_key}
use marketplace_invite_only.Models.{
  UserRole, role_is, OrderStatus, status_is, is_delivered, User, Order, Delivery, Db,
}
use marketplace_invite_only.Session.{Action, ◌>>=◌}
use marketplace_invite_only.Session.Rules.{
  after_assoc, after_pure, after_pure_bind, after_raise_if, after_or_raise, after_gets,
  after_modify, after_scalar,
}
use marketplace_invite_only.Orders.Loading.{find_order, find_delivery, with_delivery, delivers}
use marketplace_invite_only.Tracking.Views.{
  TrackingRole, live_order, load_order, resolve_driver, resolve_as, resolve_role, is_customer,
  assignments_to,
}
use marketplace_invite_only.Tracking.Updates.{grow_distance, move_to, post_location}

-- Only customers get the customer's role, and they get no other.
abbrev Given : UserRole → Option TrackingRole → Type 0
Given role none = Unit
Given role (some r) = is_customer r ≡ role_is role UserRole.customer

if-Given :
    (b : Bool) (role : UserRole) (r : TrackingRole)
    → Given role (some r)
    → Given role (if b then some r else none)
if-Given true role r g = g
if-Given false role r g = tt

Given-customer :
    (role : UserRole) (r : Option TrackingRole) (t : TrackingRole)
    → Given role r
    → r ≡ some t
    → is_customer t ≡ false
    → role_is role UserRole.customer ≡ false
Given-customer role none t g e h = absurd (ground arith)
Given-customer role (some s) t g e h = ground (arith, g, e, h)

after_if_bind {ℓ} :
    {A B : Type 0} (P : Db → Type ℓ) (b : Bool) (m n : Action A) (f : A → Action B) (db : Db)
    → (b ≡ true → P ((m >>= f) db).1)
    → (b ≡ false → P ((n >>= f) db).1)
    → P (((if b then m else n) >>= f) db).1
after_if_bind P true m n f db p q = p refl
after_if_bind P false m n f db p q = q refl

module _ {ℓ} (P : Db → Type ℓ) where
  after_resolve_as :
      {A : Type 0} (role : UserRole) (user : User) (o : Order) (f : Option TrackingRole → Action A)
      (db : Db)
      → P db
      → ((r : Option TrackingRole) → Given role r → P (f r db).1)
      → P ((resolve_as role user o >>= f) db).1
  unfolding resolve_as resolve_driver
  after_resolve_as UserRole.admin user o f db p q =
      after_pure_bind P _ _ _ (q (some TrackingRole.admin) refl)
  after_resolve_as UserRole.seller user o f db p q =
      after_pure_bind P _ _ _
        (q _ (if-Given (o.seller_id == user.id) UserRole.seller TrackingRole.seller refl))
  after_resolve_as UserRole.customer user o f db p q =
      after_pure_bind P _ _ _
        (q _ (if-Given (o.customer_id == user.id) UserRole.customer TrackingRole.customer refl))
  after_resolve_as UserRole.driver user o f db p q = after_assoc P _ _ _ _ (
      after_gets P _ _ _ (
        after_if_bind P (delivers user.id (find_delivery o.id db)) _ _ _ db
          (λ own. after_pure_bind P _ _ _ (q (some TrackingRole.driver) refl))
          λ other. after_assoc P _ _ _ _ (
            after_gets P _ _ _ (
              after_assoc P _ _ _ _ (
                after_scalar P (assignments_to o.id user.id db) _ db p
                  (λ nobody. after_pure_bind P _ _ _ (q none tt))
                  (λ a one. after_pure_bind P _ _ _ (q (some TrackingRole.driver) refl)))))))

-- the metres of a delivery, where none are known as 0
abbrev pub metres : Delivery → ℕ
metres d = elim d.distance_meters [ none ↦ 0 | some m ↦ m ]

-- What a report may do: move the delivery of the order, on its way, without making its distance less.
abbrev pub Reported : User → ℕ → Db → Db → Type 0
Reported user order_id db db' =
    (db' ≡ db)
    ⊎ ((o : Order) × (d : Delivery) × (f : Delivery → Delivery) × (role_is user.role
            UserRole.customer
          ≡ false)
        × (find_order order_id db ≡ some o)
        × (status_is o.status OrderStatus.out_for_delivery ≡ true)
        × (find_delivery order_id db ≡ some d)
        × (is_delivered d.status ≡ false)
        × (db' ≡ with_delivery order_id f db)
        × (metres d ≤ metres (f d)))

live-found : (x : Option Order) (o : Order) → live_order x ≡ some o → x ≡ some o
live-found none o h = absurd (ground arith)
live-found (some p) o h = ground (arith, h)

metres-grown :
    (old new : Option ℕ) (d : Delivery)
    → d.distance_meters ≡ old
    → metres d ≤ metres (record d { distance_meters = grow_distance old new })
metres-grown none none d e = ground (arith, e)
metres-grown none (some n) d e = ground (arith, e)
metres-grown (some m) none d e = ground (arith, e)
metres-grown (some m) (some n) d e = ground (arith, e)

-- A location report, whatever it says and whoever sends it, either leaves the database as it was or
-- changes just the delivery of that order; then the order is out for delivery, the delivery is not
-- delivered, the sender is no customer, and the distance of the delivery has not become less.
pub post_location-Reported :
    (user : User) (order_id lat lng : ℕ) (eta_seconds distance_meters : Option ℕ) (now : ℕ)
    (db : Db)
    → Reported user order_id db
        (post_location user order_id lat lng eta_seconds distance_meters now db).1
unfolding post_location load_order resolve_role
post_location-Reported user order_id lat lng eta_seconds distance_meters now db =
    let P = Reported user order_id db in
    after_gets P _ _ _ (
      after_or_raise P _ _ _ db (inl refl) λ o found.
        after_resolve_as P user.role user o _ db (inl refl) λ r given.
          after_or_raise P _ _ _ db (inl refl) λ role same.
            after_raise_if P _ _ _ db (inl refl) λ internal.
              after_raise_if P _ _ _ db (inl refl) λ out. after_gets P _ _ _ (
                after_or_raise P _ _ _ db (inl refl) λ d existing.
                  after_raise_if P _ _ _ db (inl refl) λ moving. after_modify P _ _ _ (
                    after_pure P _ _ (
                      let at : o.id ≡ order_id =
                        find_key (λ (p : Order). p.id) order_id db.orders
                          (live-found (find_order order_id db) o found) in
                      inr (
                        o,
                        d,
                        move_to lat lng eta_seconds distance_meters now,
                        Given-customer user.role r role given same internal,
                        live-found (find_order order_id db) o found,
                        not-false out,
                        subst (λ k. find_delivery k db ≡ some d) at existing,
                        moving,
                        ap
                            (λ k.
                              with_delivery k (move_to lat lng eta_seconds distance_meters now) db)
                            at,
                        metres-grown d.distance_meters distance_meters d refl,
                      )))))
