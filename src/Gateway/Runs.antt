-- ===== src/Gateway/Runs.antt =====
-- Any sequence of connections, messages, broadcasts and disconnections keeps the registry consistent.
use marketplace_invite_only.Common.{
  ◌≡◌, refl, ◌∙◌, ℕ, Bool, true, false, Option, none, some, List, [], ◌∷◌, Option-cases, inl, inr,
  if◌then◌else◌, arith,
}
use mathlib.Core.Path.{subst, sym}
use marketplace_invite_only.Common.Tables.{find, find_key}
use marketplace_invite_only.Models.{User, Db}
use marketplace_invite_only.Auth.Security.{Security}
use marketplace_invite_only.Gateway.Events.{Raw}
use marketplace_invite_only.Gateway.Registry.{
  WsConnection, DeliveryRole, Registry, has, find_connection, subscribers_of,
  delivery_internal_subscribers, delivery_customer_subscribers,
}
use marketplace_invite_only.Gateway.Handler.{
  Gateway, Handled, broadcast_event, broadcast_delivery_location_internal,
  broadcast_delivery_event_all, authenticate, handle_raw, next_turn, receive, greet, end_handler,
  Happening, step, run, quiet,
}
use marketplace_invite_only.Gateway.Sets.{in_bucket}
use marketplace_invite_only.Gateway.Consistency.{
  IsConsistent, conversations_of, orders_of, end_found-clear, end_handler-IsConsistent,
  connect-IsConsistent,
}
use marketplace_invite_only.Gateway.Turns.{send_each-registry, handle_raw-IsConsistent}

next_turn-IsConsistent :
    (conn : ℕ) (h : Handled) → IsConsistent h.0.registry → IsConsistent (next_turn conn h).registry
next_turn-IsConsistent conn (g, true) i = i
next_turn-IsConsistent conn (g, false) i = end_handler-IsConsistent conn g.registry i

either-IsConsistent :
    (b : Bool) (g g' : Gateway)
    → IsConsistent g.registry
    → IsConsistent g'.registry
    → IsConsistent (if b then g else g').registry
either-IsConsistent true g g' i j = i
either-IsConsistent false g g' i j = j

receive-IsConsistent :
    (conn : ℕ) (raw : Raw) (db : Db) (o : Option WsConnection) (g : Gateway)
    → find_connection conn g.registry ≡ o
    → IsConsistent g.registry
    → IsConsistent (receive conn raw db o g).registry
receive-IsConsistent conn raw db none g e i = i
receive-IsConsistent conn raw db (some c) g e i =
    let same : c.id ≡ conn = find_key (λ (c : WsConnection). c.id) conn g.registry.connections e in
    either-IsConsistent c.is_open (next_turn conn (handle_raw db c raw g)) g
      (next_turn-IsConsistent conn (handle_raw db c raw g) (
        handle_raw-IsConsistent db c g
          (subst (λ n. find_connection n g.registry ≡ some c) (sym same) e) i raw))
      i

greet-IsConsistent :
    (conn : ℕ) (o : Option User) (g : Gateway)
    → IsConsistent g.registry
    → IsConsistent (greet conn o g).registry
greet-IsConsistent conn none g i = i
greet-IsConsistent conn (some user) g i = elim (Option-cases (find_connection conn g.registry)) [
  | inl e ↦ rw e (connect-IsConsistent conn user g.registry e i)
  | inr (c, e) ↦ rw e i
]

pub step-IsConsistent :
    (security : Security) (h : Happening) (g : Gateway)
    → IsConsistent g.registry
    → IsConsistent (step security h g).registry
unfolding step broadcast_event broadcast_delivery_location_internal broadcast_delivery_event_all
step-IsConsistent security (Happening.handshake conn token now db) g i =
    greet-IsConsistent conn (authenticate security token now db) g i
step-IsConsistent security (Happening.received conn raw db) g i =
    receive-IsConsistent conn raw db (find_connection conn g.registry) g refl i
step-IsConsistent security (Happening.disconnected conn) g i =
    end_handler-IsConsistent conn g.registry i
step-IsConsistent security (Happening.message_new cid p) g i =
    subst IsConsistent (sym (send_each-registry _ _ g)) i
step-IsConsistent security (Happening.message_read cid p) g i =
    subst IsConsistent (sym (send_each-registry _ _ g)) i
step-IsConsistent security (Happening.location_posted oid p) g i =
    subst IsConsistent (sym (send_each-registry _ _ g)) i
step-IsConsistent security (Happening.delivery_changed oid p) g i =
    subst IsConsistent (sym (send_each-registry _ _ _ ∙ send_each-registry _ _ g)) i

run-keeps :
    (security : Security) (hs : List Happening) (g : Gateway)
    → IsConsistent g.registry
    → IsConsistent (run security hs g).registry
unfolding run
run-keeps security [] g i = i
run-keeps security (h ∷ hs) g i =
    run-keeps security hs (step security h g) (step-IsConsistent security h g i)

pub quiet-IsConsistent : IsConsistent quiet.registry
unfolding find has subscribers_of delivery_internal_subscribers delivery_customer_subscribers
quiet-IsConsistent = record {
  channels = λ c v. refl;
  topics = λ c v. refl;
  staff = λ c v h. absurd (ground (arith, h));
}

-- Whatever happens at the gateway from its start, a connection is among the subscribers of a
-- conversation or an order exactly if it counts that one among its own, and a connection in an
-- internal bucket is one of a user who is no customer.
pub run-IsConsistent :
    (security : Security) (hs : List Happening) → IsConsistent (run security hs quiet).registry
run-IsConsistent security hs = run-keeps security hs quiet quiet-IsConsistent

nothing : (v : ℕ) → has v [] ≡ false
unfolding has
nothing v = refl

end_handler-empty :
    (conn : ℕ) (r : Registry)
    → (conversations_of (find_connection conn (end_handler conn r)) ≡ [])
      × (orders_of (find_connection conn (end_handler conn r)) ≡ [])
unfolding end_handler
end_handler-empty conn r = elim (Option-cases (find_connection conn r)) [
  | inl e ↦ ground (arith, e)
  | inr (k, e) ↦ rw (e, end_found-clear conn r k e) (refl, refl)
]

-- After any run and then its end, a connection is among the subscribers of no conversation and of no
-- order, in either bucket.
pub run-disconnected :
    (security : Security) (hs : List Happening) (conn v : ℕ)
    → let r = (step security (Happening.disconnected conn) (run security hs quiet)).registry in
      (has conn (subscribers_of v r.subs) ≡ false)
      × ((in_bucket DeliveryRole.internal conn v r.delivery_subs ≡ false)
          × (in_bucket DeliveryRole.customer conn v r.delivery_subs ≡ false))
unfolding step
run-disconnected security hs conn v =
    let before = (run security hs quiet).registry in
    let i = end_handler-IsConsistent conn before (run-IsConsistent security hs) in
    let gone = end_handler-empty conn before in
    (
      ground (arith, i.channels conn v, gone.0, nothing v),
      (
        ground (arith, i.topics conn v, gone.1, nothing v),
        ground (arith, i.topics conn v, gone.1, nothing v),
      ),
    )
