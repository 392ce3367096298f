-- ===== src/Tracking/Privacy.antt =====
-- What a customer can learn of a delivery on its way, and when a location report changes it.
use marketplace_invite_only.Common.{
  ◌≡◌, ◌∙◌, sym, refl, if◌then◌else◌, ℕ, ◌&&◌, Option, none, some, ◌==◌, is_none, Bool-cases,
  Option-cases, inl, inr, arith,
}
use mathlib.Core.Option
use marketplace_invite_only.Common.Tables.{find-update, find_key}
use marketplace_invite_only.Models.{UserRole, User, Order, Delivery, Db}
use marketplace_invite_only.Session.{Result, ok, err, Error, ◌>>=◌}
use marketplace_invite_only.Orders.Loading.{find_order, find_delivery, with_delivery}
use marketplace_invite_only.Tracking.Views.{
  TrackView, load_order, resolve_as, resolve_role, build_customer_view, view_for, get_track_view,
}

-- Another driver at another place, with another distance and duration.
abbrev pub elsewhere :
    Option ℕ → Option ℕ → Option ℕ → Option ℕ → Option ℕ → Option ℕ → Delivery → Delivery
elsewhere driver_id lat lng at distance duration d = record d {
  driver_id = driver_id;
  current_lat = lat;
  current_lng = lng;
  last_location_at = at;
  distance_meters = distance;
  duration_seconds = duration;
}

-- The answer to a customer, from the order and its delivery.
abbrev customer_answer : ℕ → Option Order → Option Delivery → Result TrackView
customer_answer user_id none d = err Error.order_not_found
customer_answer user_id (some o) d =
    if is_none o.deleted_at && (o.customer_id == user_id)
    then ok (TrackView.for_customer (build_customer_view o d))
    else err Error.order_not_found

get_track_view-customer_answer :
    (user : User) (order_id : ℕ) (db : Db)
    → user.role ≡ UserRole.customer
    → (get_track_view user order_id db).0
      ≡ customer_answer user.id (find_order order_id db) (find_delivery order_id db)
unfolding get_track_view load_order resolve_role resolve_as view_for ◌>>=◌
get_track_view-customer_answer user order_id db is_customer =
    elim (Option-cases (find_order order_id db)) [
      | inl e ↦ ground (arith, e)
      | inr (o, e) ↦
          let at : o.id ≡ order_id = find_key (λ (p : Order). p.id) order_id db.orders e in
          ground (arith, e, at, is_customer)
    ]

customer_answer-map :
    (f : Delivery → Delivery)
    → ((o : Order) (d : Delivery)
        → build_customer_view o (some (f d)) ≡ build_customer_view o (some d))
    → (user_id : ℕ) (o : Option Order) (d : Option Delivery)
    → customer_answer user_id o (Option.map f d) ≡ customer_answer user_id o d
customer_answer-map f h user_id none d = refl
customer_answer-map f h user_id (some o) none = refl
customer_answer-map f h user_id (some o) (some d) = rw (h o d) refl

-- A customer's view of the tracking of any order is the same, error or not, whoever drives the
-- delivery of an order, wherever it is and was last seen, and whatever its distance and duration.
pub get_track_view-customer :
    (user : User) (order_id k : ℕ) (driver_id lat lng at distance duration : Option ℕ) (db : Db)
    → user.role ≡ UserRole.customer
    → (get_track_view user order_id
        (with_delivery k (elsewhere driver_id lat lng at distance duration) db)).0
      ≡ (get_track_view user order_id db).0
unfolding build_customer_view
get_track_view-customer user order_id k driver_id lat lng at distance duration db is_customer =
    let f = elsewhere driver_id lat lng at distance duration in
    let same = get_track_view-customer_answer user order_id db is_customer in
    let moved = get_track_view-customer_answer user order_id (with_delivery k f db) is_customer in
    let law = find-update (λ (d : Delivery). d.order_id) order_id k f db.deliveries (λ d. refl) in
    moved
    ∙ elim (Bool-cases (order_id == k)) [
      | inl e ↦
          rw (law, e)
            (customer_answer-map f (λ o d. refl) user.id (find_order order_id db)
              (find_delivery order_id db))
      | inr e ↦ rw (law, e) refl
    ]
    ∙ sym same
