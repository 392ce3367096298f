-- ===== src/Gateway/Recipients.antt =====
-- Who is sent what: locations never to a customer, and signs of typing never back to their author.
use marketplace_invite_only.Common.{
  ◌≡◌, refl, ℕ, Bool, true, false, Option, none, some, List, [], ◌∷◌, is_some, Bool-cases, inl, inr,
  if◌then◌else◌,
}
use marketplace_invite_only.Models.{User, Db}
use marketplace_invite_only.Auth.Security.{Security}
use marketplace_invite_only.Gateway.Events.{Raw, ServerEvent}
use marketplace_invite_only.Gateway.Registry.{
  WsConnection, find_connection, delivery_internal_subscribers,
}
use marketplace_invite_only.Gateway.Handler.{
  Gateway, Handled, send_each, broadcast_event, broadcast_delivery_location_internal,
  broadcast_delivery_event_all, authenticate, handle_raw, next_turn, receive, greet, Happening,
  step, run, quiet,
}
use marketplace_invite_only.Gateway.Consistency.{IsConsistent, is_staff}
use marketplace_invite_only.Gateway.Runs.{step-IsConsistent, quiet-IsConsistent}
use marketplace_invite_only.Gateway.Replies.{
  AllDue, may_get, may_reach, send_to-AllDue, send_each-AllDue, handle_raw-AllDue,
}

next_turn-AllDue : (conn : ℕ) (h : Handled) → AllDue h.0.sent → AllDue (next_turn conn h).sent
next_turn-AllDue conn (g, true) a = a
next_turn-AllDue conn (g, false) a = a

either-AllDue :
    (b : Bool) (g g' : Gateway) → AllDue g.sent → AllDue g'.sent → AllDue (if b then g else g').sent
either-AllDue true g g' a a' = a
either-AllDue false g g' a a' = a'

receive-AllDue :
    (conn : ℕ) (raw : Raw) (db : Db) (o : Option WsConnection) (g : Gateway)
    → AllDue g.sent
    → AllDue (receive conn raw db o g).sent
receive-AllDue conn raw db none g a = a
receive-AllDue conn raw db (some c) g a =
    either-AllDue c.is_open (next_turn conn (handle_raw db c raw g)) g
      (next_turn-AllDue conn (handle_raw db c raw g) (handle_raw-AllDue db c g a raw)) a

greet-AllDue :
    (conn : ℕ) (o : Option User) (g : Gateway) → AllDue g.sent → AllDue (greet conn o g).sent
greet-AllDue conn none g a = send_to-AllDue conn none ServerEvent.closed_auth g refl a
greet-AllDue conn (some user) g a = elim (Bool-cases (is_some (find_connection conn g.registry))) [
  | inl e ↦ rw e a
  | inr e ↦ rw e a
]

-- An event that anyone may get.
abbrev IsOpenEvent : ServerEvent → Type 0
IsOpenEvent e = (user : Option User) → may_get e user ≡ true

anyone : (e : ServerEvent) → IsOpenEvent e → (o : Option WsConnection) → may_reach e o ≡ true
anyone e h none = refl
anyone e h (some c) = h (some c.user)

staff-reach :
    (oid p : ℕ) (o : Option WsConnection)
    → is_staff o ≡ true
    → may_reach (ServerEvent.delivery_location oid p) o ≡ true
staff-reach oid p none h = refl
staff-reach oid p (some c) h = h

step-AllDue :
    (security : Security) (h : Happening) (g : Gateway)
    → IsConsistent g.registry
    → AllDue g.sent
    → AllDue (step security h g).sent
unfolding step broadcast_event broadcast_delivery_location_internal broadcast_delivery_event_all
step-AllDue security (Happening.handshake conn token now db) g i a =
    greet-AllDue conn (authenticate security token now db) g a
step-AllDue security (Happening.received conn raw db) g i a =
    receive-AllDue conn raw db (find_connection conn g.registry) g a
step-AllDue security (Happening.disconnected conn) g i a = a
step-AllDue security (Happening.message_new cid p) g i a =
    send_each-AllDue _ (ServerEvent.message_new cid p) g
      (λ c h. anyone (ServerEvent.message_new cid p) (λ u. refl) (find_connection c g.registry)) a
step-AllDue security (Happening.message_read cid p) g i a =
    send_each-AllDue _ (ServerEvent.message_read cid p) g
      (λ c h. anyone (ServerEvent.message_read cid p) (λ u. refl) (find_connection c g.registry)) a
step-AllDue security (Happening.location_posted oid p) g i a =
    send_each-AllDue (delivery_internal_subscribers oid g.registry.delivery_subs)
      (ServerEvent.delivery_location oid p) g
      (λ c h. staff-reach oid p (find_connection c g.registry) (i.staff c oid h)) a
step-AllDue security (Happening.delivery_changed oid p) g i a =
    let e = ServerEvent.delivery_event oid p in
    let inside = send_each (delivery_internal_subscribers oid g.registry.delivery_subs) e g in
    send_each-AllDue _ e inside (λ c h. anyone e (λ u. refl) (find_connection c inside.registry))
      (send_each-AllDue _ e g (λ c h. anyone e (λ u. refl) (find_connection c g.registry)) a)

run-due :
    (security : Security) (hs : List Happening) (g : Gateway)
    → IsConsistent g.registry
    → AllDue g.sent
    → AllDue (run security hs g).sent
unfolding run
run-due security [] g i a = a
run-due security (h ∷ hs) g i a =
    run-due security hs (step security h g) (step-IsConsistent security h g i)
      (step-AllDue security h g i a)

-- Whatever happens at the gateway from its start, no location of a delivery is sent to a customer, or
-- to a socket that did not sign in, and no sign of typing to the user who types.
pub run-AllDue : (security : Security) (hs : List Happening) → AllDue (run security hs quiet).sent
run-AllDue security hs = run-due security hs quiet quiet-IsConsistent tt
