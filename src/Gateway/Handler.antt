-- ===== src/Gateway/Handler.antt =====
-- The handler of gateway.py, and the broadcasts that the endpoints call. What is sent to a socket is
-- recorded, with the number of the connection.
use marketplace_invite_only.Common.{
  ℕ, Bool, true, false, ◌||◌, Option, none, some, List, [], ◌∷◌, ◌++◌, ◌==◌, is_some, if◌then◌else◌,
}
use marketplace_invite_only.Models.{role_is, UserRole, User, Db}
use marketplace_invite_only.Session.{Action, Result, ok, err, pure, ◌>>=◌}
use marketplace_invite_only.Tracking.Views.{TrackingRole, load_order, resolve_role}
use marketplace_invite_only.Messaging.Conversations.{find_conversation, takes_part}
use marketplace_invite_only.Auth.Security.{Security, decode_access_token, find_live_user}
use marketplace_invite_only.Auth.Sessions.{usable_user}
use marketplace_invite_only.Gateway.Events.{
  Field, MessageType, TypingState, ClientMessage, Raw, ServerEvent, Sent,
}
use marketplace_invite_only.Gateway.Registry.{
  DeliveryRole, WsConnection, Registry, has, find_connection, set_connection, subscribers_of,
  subscribe, unsubscribe, delivery_internal_subscribers, delivery_customer_subscribers,
  subscribe_delivery, unsubscribe_delivery, disconnect_all,
}

pub record Gateway : Type 0 where
  pub registry : Registry
  pub sent : List Sent

abbrev pub send_to : ℕ → Option User → ServerEvent → Gateway → Gateway
send_to conn user event g = record g {
  sent = g.sent ++ record { to = conn; user = user; event = event } ∷ [];
}

abbrev pub send : WsConnection → ServerEvent → Gateway → Gateway
send c event g = send_to c.id (some c.user) event g

-- `_send_text`, on the object that a set holds
abbrev pub send_text : Option WsConnection → ServerEvent → Gateway → Gateway
send_text none event g = g
send_text (some c) event g = send c event g

-- `for conn in subs: await _send_text(conn, text)`
unfoldable pub send_each : List ℕ → ServerEvent → Gateway → Gateway
send_each [] event g = g
send_each (conn ∷ rest) event g =
    send_each rest event (send_text (find_connection conn g.registry) event g)

abbrev pub on_registry : (Registry → Registry) → Gateway → Gateway
on_registry f g = record g { registry = f g.registry }

-- `_broadcast_event`, for `broadcast_message_new` and `broadcast_message_read`
unfoldable pub broadcast_event : ℕ → ServerEvent → Gateway → Gateway
broadcast_event conversation_id event g =
    send_each (subscribers_of conversation_id g.registry.subs) event g

unfoldable pub broadcast_delivery_location_internal : ℕ → ℕ → Gateway → Gateway
broadcast_delivery_location_internal order_id payload g =
    send_each (delivery_internal_subscribers order_id g.registry.delivery_subs)
      (ServerEvent.delivery_location order_id payload) g

unfoldable pub broadcast_delivery_event_all : ℕ → ℕ → Gateway → Gateway
broadcast_delivery_event_all order_id payload g =
    send_each (delivery_customer_subscribers order_id g.registry.delivery_subs)
      (ServerEvent.delivery_event order_id payload)
      (send_each (delivery_internal_subscribers order_id g.registry.delivery_subs)
        (ServerEvent.delivery_event order_id payload) g)

-- `_authenticate`, on the token that the handshake has
unfoldable pub authenticate : Security → Option ℕ → ℕ → Db → Option User
authenticate security none now db = none
authenticate security (some token) now db = elim (decode_access_token security token now db).0 [
  | err e ↦ none
  | ok payload ↦ usable_user (find_live_user payload.sub db)
]

-- `_is_participant`
unfoldable pub is_participant : ℕ → User → Db → Bool
is_participant conversation_id user db = elim (find_conversation conversation_id db) [
  | none ↦ false
  | some c ↦ role_is user.role UserRole.admin || takes_part user.id c
]

abbrev pub bucket : Option TrackingRole → Option DeliveryRole
bucket none = none
bucket (some TrackingRole.customer) = some DeliveryRole.customer
bucket (some _) = some DeliveryRole.internal

-- `_resolve_delivery_role`
unfoldable pub resolve_delivery_role : ℕ → User → Action (Option DeliveryRole)
resolve_delivery_role order_id user = do
  found ← load_order order_id
  elim found [
    | none ↦ pure none
    | some order ↦ resolve_role user order >>= λ role. pure (bucket role)
  ]

-- The gateway after a message, and whether the loop of the handler goes on.
abbrev pub Handled : Type 0
Handled = Gateway × Bool

unfoldable pub subscribe_resolved :
    WsConnection → ℕ → Result (Option DeliveryRole) → Gateway → Handled
subscribe_resolved c order_id (err e) g = (g, false)
subscribe_resolved c order_id (ok none) g = (send c ServerEvent.closed_forbidden g, false)
subscribe_resolved c order_id (ok (some role)) g = (
  send c (ServerEvent.delivery_subscribed order_id)
      (on_registry (subscribe_delivery c.id order_id role) g),
  true,
)

unfoldable pub subscribe_conversation : Db → WsConnection → Field → Gateway → Handled
subscribe_conversation db c Field.missing g = (send c ServerEvent.missing_conversation_id g, true)
subscribe_conversation db c Field.empty g = (send c ServerEvent.missing_conversation_id g, true)
subscribe_conversation db c Field.malformed g = (send c ServerEvent.invalid_conversation_id g, true)
subscribe_conversation db c Field.not_text g = (g, false)
subscribe_conversation db c (Field.uuid cid) g =
    if is_participant cid c.user db
    then (send c (ServerEvent.subscribed cid) (on_registry (subscribe c.id cid) g), true)
    else (send c ServerEvent.closed_forbidden g, false)

-- By the field `delivery_order_id`: the other field counts only where this one is absent.
unfoldable pub handle_subscribe : Db → WsConnection → Field → Field → Gateway → Handled
handle_subscribe db c Field.missing conversation g = subscribe_conversation db c conversation g
handle_subscribe db c Field.empty conversation g =
    (send c ServerEvent.invalid_delivery_order_id g, true)
handle_subscribe db c Field.malformed conversation g =
    (send c ServerEvent.invalid_delivery_order_id g, true)
handle_subscribe db c Field.not_text conversation g = (g, false)
handle_subscribe db c (Field.uuid oid) conversation g =
    subscribe_resolved c oid (resolve_delivery_role oid c.user db).0 g

unfoldable pub unsubscribe_conversation : WsConnection → Field → Gateway → Handled
unsubscribe_conversation c Field.not_text g = (g, false)
unsubscribe_conversation c (Field.uuid cid) g = (on_registry (unsubscribe c.id cid) g, true)
unsubscribe_conversation c _ g = (g, true)

unfoldable pub handle_unsubscribe : WsConnection → Field → Field → Gateway → Handled
handle_unsubscribe c Field.missing conversation g = unsubscribe_conversation c conversation g
handle_unsubscribe c Field.not_text conversation g = (g, false)
handle_unsubscribe c (Field.uuid oid) conversation g =
    (on_registry (unsubscribe_delivery c.id oid) g, true)
handle_unsubscribe c _ conversation g = (g, true)

-- the subscribers whose user is another one
unfoldable pub other_users : ℕ → List ℕ → Registry → List ℕ
other_users user_id [] r = []
other_users user_id (conn ∷ rest) r = elim (find_connection conn r) [
  | none ↦ other_users user_id rest r
  | some peer ↦
      if peer.user.id == user_id
      then other_users user_id rest r
      else conn ∷ other_users user_id rest r
]

unfoldable pub handle_typing : WsConnection → Option TypingState → Field → Gateway → Handled
handle_typing c (some state) (Field.uuid cid) g =
    if has cid c.conversations
    then (
      send_each (other_users c.user.id (subscribers_of cid g.registry.subs) g.registry)
          (ServerEvent.typing_from cid state c.user.id) g,
      true,
    )
    else (g, true)
handle_typing c (some state) Field.not_text g = (g, false)
handle_typing c _ _ g = (g, true)

unfoldable pub handle_message : Db → WsConnection → MessageType → ClientMessage → Gateway → Handled
handle_message db c MessageType.ping m g = (send c ServerEvent.pong g, true)
handle_message db c MessageType.subscribe m g =
    handle_subscribe db c m.delivery_order_id m.conversation_id g
handle_message db c MessageType.unsubscribe m g =
    handle_unsubscribe c m.delivery_order_id m.conversation_id g
handle_message db c MessageType.typing m g = handle_typing c m.state m.conversation_id g
handle_message db c MessageType.other m g = (send c ServerEvent.unknown_type g, true)

-- one turn of the loop
unfoldable pub handle_raw : Db → WsConnection → Raw → Gateway → Handled
handle_raw db c Raw.no_json g = (send c ServerEvent.invalid_json g, true)
handle_raw db c Raw.no_object g = (g, false)
handle_raw db c (Raw.message m) g = handle_message db c m.mtype m g

abbrev pub close : WsConnection → WsConnection
close c = record c { is_open = false }

abbrev pub end_found : ℕ → Option WsConnection → Registry → Registry
end_found conn none r = r
end_found conn (some c) r =
    let left = disconnect_all c r in
    record left { connections = set_connection conn close left.connections }

-- the `finally` of the handler, on the connection as it is by then
unfoldable pub end_handler : ℕ → Registry → Registry
end_handler conn r = end_found conn (find_connection conn r) r

abbrev pub next_turn : ℕ → Handled → Gateway
next_turn conn (g, true) = g
next_turn conn (g, false) = on_registry (end_handler conn) g

abbrev pub receive : ℕ → Raw → Db → Option WsConnection → Gateway → Gateway
receive conn raw db none g = g
receive conn raw db (some c) g =
    let handled = handle_raw db c raw g in if c.is_open then next_turn conn handled else g

abbrev pub new_connection : ℕ → User → WsConnection
new_connection conn user = record {
  id = conn;
  user = user;
  conversations = [];
  delivery_orders = [];
  is_open = true;
}

-- The start of `handle_ws`; a new object has a number that no other has.
abbrev pub greet : ℕ → Option User → Gateway → Gateway
greet conn none g = send_to conn none ServerEvent.closed_auth g
greet conn (some user) g =
    if is_some (find_connection conn g.registry)
    then g
    else on_registry
        (λ r. record r { connections = r.connections ++ new_connection conn user ∷ [] }) g

-- What happens to the gateway, with the database as it is at that moment.
pub data Happening : Type 0 where
  handshake : ℕ → Option ℕ → ℕ → Db → Happening
  received : ℕ → Raw → Db → Happening
  disconnected : ℕ → Happening
  message_new message_read : ℕ → ℕ → Happening
  location_posted delivery_changed : ℕ → ℕ → Happening

unfoldable pub step : Security → Happening → Gateway → Gateway
step security (Happening.handshake conn token now db) g =
    greet conn (authenticate security token now db) g
step security (Happening.received conn raw db) g =
    receive conn raw db (find_connection conn g.registry) g
step security (Happening.disconnected conn) g = on_registry (end_handler conn) g
step security (Happening.message_new cid payload) g =
    broadcast_event cid (ServerEvent.message_new cid payload) g
step security (Happening.message_read cid payload) g =
    broadcast_event cid (ServerEvent.message_read cid payload) g
step security (Happening.location_posted oid payload) g =
    broadcast_delivery_location_internal oid payload g
step security (Happening.delivery_changed oid payload) g =
    broadcast_delivery_event_all oid payload g

unfoldable pub run : Security → List Happening → Gateway → Gateway
run security [] g = g
run security (h ∷ rest) g = run security rest (step security h g)

abbrev pub quiet : Gateway
quiet = record { registry = record { connections = []; subs = []; delivery_subs = [] }; sent = [] }
