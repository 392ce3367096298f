-- ===== src/Gateway/Consistency.antt =====
-- The two sides of a subscription agree, and no customer is in an internal bucket, through every
-- operation of the registry.
use marketplace_invite_only.Common.{
  ◌≡◌, refl, ℕ, Bool, true, false, not, ◌||◌, Option, none, some, List, [], ◌∷◌, ◌++◌, ◌==◌,
  ==-refl, Option-cases, inl, inr, if◌then◌else◌, arith,
}
use marketplace_invite_only.Common.Tables.{find-update, find-append, find_key}
use marketplace_invite_only.Models.{UserRole, role_is, User}
use marketplace_invite_only.Gateway.Registry.{
  WsConnection, DeliveryRole, Registry, has, add, discard, find_connection, set_connection, clear,
  subscribers_of, subscribe, unsubscribe, subscribe_delivery, unsubscribe_delivery, disconnect_all,
}
use marketplace_invite_only.Gateway.Handler.{end_found, end_handler, new_connection, close}
use marketplace_invite_only.Gateway.Sets.{
  in_bucket, is_bucket, has-add, has-discard, has-join, has-drop, has-join_delivery,
  has-drop_delivery, has-drop_each, has-drop_each_delivery,
}

abbrev pub conversations_of : Option WsConnection → List ℕ
conversations_of none = []
conversations_of (some c) = c.conversations

abbrev pub orders_of : Option WsConnection → List ℕ
orders_of none = []
orders_of (some c) = c.delivery_orders

-- a connection of a user who is no customer
abbrev pub is_staff : Option WsConnection → Bool
is_staff none = false
is_staff (some c) = not (role_is c.user.role UserRole.customer)

pub record IsConsistent (r : Registry) : Type 0 where
  pub channels :
      (c v : ℕ) → has c (subscribers_of v r.subs) ≡ has v (conversations_of (find_connection c r))
  pub topics :
      (c v : ℕ)
      → (in_bucket DeliveryRole.internal c v r.delivery_subs
          || in_bucket DeliveryRole.customer c v r.delivery_subs)
        ≡ has v (orders_of (find_connection c r))
  pub staff :
      (c v : ℕ)
      → in_bucket DeliveryRole.internal c v r.delivery_subs ≡ true
      → is_staff (find_connection c r) ≡ true

module _ (r : Registry) (d : ℕ) (k : WsConnection) (found : find_connection d r ≡ some k) where
  connection-set :
      (f : WsConnection → WsConnection) (c : ℕ)
      → ((k : WsConnection) → (f k).id ≡ k.id)
      → find_connection c (record r { connections = set_connection d f r.connections })
        ≡ (if c == d then some (f k) else find_connection c r)
  connection-set f c h =
      ground (arith, found, find-update (λ (c : WsConnection). c.id) c d f r.connections h)

  pub subscribe-IsConsistent : (w : ℕ) → IsConsistent r → IsConsistent (subscribe d w r)
  unfolding subscribe
  subscribe-IsConsistent w i =
      let f = λ (c : WsConnection). record c { conversations = add w c.conversations } in
      record {
        channels = λ c v. ground (
          arith,
          found,
          connection-set f c (λ k. refl),
          has-join c v d w r.subs,
          has-add v w k.conversations,
          i.channels c v,
        );
        topics = λ c v. ground (arith, found, connection-set f c (λ k. refl), i.topics c v);
        staff = λ c v h. ground (arith, found, connection-set f c (λ k. refl), i.staff c v h);
      }

  pub unsubscribe-IsConsistent : (w : ℕ) → IsConsistent r → IsConsistent (unsubscribe d w r)
  unfolding unsubscribe
  unsubscribe-IsConsistent w i =
      let f = λ (c : WsConnection). record c { conversations = discard w c.conversations } in
      record {
        channels = λ c v. ground (
          arith,
          found,
          connection-set f c (λ k. refl),
          has-drop c v d w r.subs,
          has-discard v w k.conversations,
          i.channels c v,
        );
        topics = λ c v. ground (arith, found, connection-set f c (λ k. refl), i.topics c v);
        staff = λ c v h. ground (arith, found, connection-set f c (λ k. refl), i.staff c v h);
      }

  -- A connection may join an internal bucket only if its user is no customer.
  pub subscribe_delivery-IsConsistent :
      (w : ℕ) (role : DeliveryRole)
      → (is_bucket DeliveryRole.internal role ≡ true → is_staff (some k) ≡ true)
      → IsConsistent r
      → IsConsistent (subscribe_delivery d w role r)
  unfolding subscribe_delivery
  subscribe_delivery-IsConsistent w role may i =
      let f = λ (c : WsConnection). record c { delivery_orders = add w c.delivery_orders } in
      let inside =
        λ (c : ℕ) (v : ℕ). has-join_delivery DeliveryRole.internal role c v d w r.delivery_subs in
      let outside =
        λ (c : ℕ) (v : ℕ). has-join_delivery DeliveryRole.customer role c v d w r.delivery_subs in
      record {
        channels = λ c v. ground (arith, found, connection-set f c (λ k. refl), i.channels c v);
        topics = λ c v. ground (
          arith,
          found,
          connection-set f c (λ k. refl),
          inside c v,
          outside c v,
          has-add v w k.delivery_orders,
          i.topics c v,
        );
        staff = λ c v h.
            ground (arith, found, connection-set f c (λ k. refl), inside c v, may, i.staff c v, h);
      }

  pub unsubscribe_delivery-IsConsistent :
      (w : ℕ) → IsConsistent r → IsConsistent (unsubscribe_delivery d w r)
  unfolding unsubscribe_delivery
  unsubscribe_delivery-IsConsistent w i =
      let f = λ (c : WsConnection). record c { delivery_orders = discard w c.delivery_orders } in
      let inside =
        λ (c : ℕ) (v : ℕ). has-drop_delivery DeliveryRole.internal c v d w r.delivery_subs in
      let outside =
        λ (c : ℕ) (v : ℕ). has-drop_delivery DeliveryRole.customer c v d w r.delivery_subs in
      record {
        channels = λ c v. ground (arith, found, connection-set f c (λ k. refl), i.channels c v);
        topics = λ c v. ground (
          arith,
          found,
          connection-set f c (λ k. refl),
          inside c v,
          outside c v,
          has-discard v w k.delivery_orders,
          i.topics c v,
        );
        staff = λ c v h.
            ground (arith, found, connection-set f c (λ k. refl), inside c v, i.staff c v, h);
      }

  disconnect_all-IsConsistent : IsConsistent r → IsConsistent (disconnect_all k r)
  unfolding disconnect_all has
  disconnect_all-IsConsistent i =
      let same : k.id ≡ d = find_key (λ (c : WsConnection). c.id) d r.connections found in
      let inside = λ (c : ℕ) (v : ℕ).
        has-drop_each_delivery DeliveryRole.internal c v d k.delivery_orders r.delivery_subs in
      let outside = λ (c : ℕ) (v : ℕ).
        has-drop_each_delivery DeliveryRole.customer c v d k.delivery_orders r.delivery_subs in
      rw same (record {
        channels = λ c v. ground (
          arith,
          found,
          connection-set clear c (λ k. refl),
          has-drop_each c v d k.conversations r.subs,
          i.channels c v,
        );
        topics = λ c v. ground (
          arith,
          found,
          connection-set clear c (λ k. refl),
          inside c v,
          outside c v,
          i.topics c v,
        );
        staff = λ c v h.
            ground (arith, found, connection-set clear c (λ k. refl), inside c v, i.staff c v, h);
      })

  close-IsConsistent :
      IsConsistent r
      → IsConsistent (record r { connections = set_connection d close r.connections })
  close-IsConsistent i = record {
    channels = λ c v. ground (arith, found, connection-set close c (λ k. refl), i.channels c v);
    topics = λ c v. ground (arith, found, connection-set close c (λ k. refl), i.topics c v);
    staff = λ c v h. ground (arith, found, connection-set close c (λ k. refl), i.staff c v, h);
  }

  found_after_disconnect : find_connection d (disconnect_all k r) ≡ some (clear k)
  unfolding disconnect_all
  found_after_disconnect =
      let same : k.id ≡ d = find_key (λ (c : WsConnection). c.id) d r.connections found in
      rw same (ground (arith, connection-set clear d (λ k. refl), ==-refl d))

end_found-IsConsistent :
    (d : ℕ) (r : Registry) (k : WsConnection)
    → find_connection d r ≡ some k
    → IsConsistent r
    → IsConsistent (end_found d (some k) r)
end_found-IsConsistent d r k found i =
    close-IsConsistent (disconnect_all k r) d (clear k) (found_after_disconnect r d k found)
      (disconnect_all-IsConsistent r d k found i)

-- The object of a handler that has ended.
pub end_found-clear :
    (d : ℕ) (r : Registry) (k : WsConnection)
    → find_connection d r ≡ some k
    → find_connection d (end_found d (some k) r) ≡ some (close (clear k))
end_found-clear d r k found =
    let left = found_after_disconnect r d k found in
    ground
      (arith, ==-refl d, connection-set (disconnect_all k r) d (clear k) left close d (λ k. refl))

pub end_handler-IsConsistent :
    (d : ℕ) (r : Registry) → IsConsistent r → IsConsistent (end_handler d r)
unfolding end_handler
end_handler-IsConsistent d r i = elim (Option-cases (find_connection d r)) [
  | inl e ↦ rw (end_handler, e) i
  | inr (k, e) ↦ rw (end_handler, e) (end_found-IsConsistent d r k e i)
]

pub connect-IsConsistent :
    (d : ℕ) (user : User) (r : Registry)
    → find_connection d r ≡ none
    → IsConsistent r
    → IsConsistent (record r { connections = r.connections ++ new_connection d user ∷ [] })
unfolding has
connect-IsConsistent d user r fresh i =
    let after =
      λ (c : ℕ). find-append (λ (c : WsConnection). c.id) c r.connections (new_connection d user) in
    record {
      channels = λ c v. ground (arith, fresh, after c, i.channels c v);
      topics = λ c v. ground (arith, fresh, after c, i.topics c v);
      staff = λ c v h. ground (arith, fresh, after c, i.staff c v, h);
    }
