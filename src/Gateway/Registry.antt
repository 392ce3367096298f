-- ===== src/Gateway/Registry.antt =====
-- `ConnectionRegistry` of gateway.py. A connection is an object, which its number stands for: the
-- registry and the handler share the object, so its sets are in one list of all connections. A set
-- is a list without repetition, a dictionary a list of entries with one key each.
use marketplace_invite_only.Common.{
  ℕ, Bool, true, false, ◌&&◌, ◌||◌, Option, none, some, List, [], ◌∷◌, ◌++◌, ◌==◌, if◌then◌else◌,
}
use marketplace_invite_only.Common.Tables.{find, update, remove, delete_where}
use marketplace_invite_only.Models.{User}

-- `x in s`
unfoldable pub has : ℕ → List ℕ → Bool
has x [] = false
has x (y ∷ s) = x == y || has x s

-- `s.add(x)`
abbrev pub add : ℕ → List ℕ → List ℕ
add x s = if has x s then s else s ++ x ∷ []

-- `s.discard(x)`
abbrev pub discard : ℕ → List ℕ → List ℕ
discard x = delete_where (λ y. x == y)

abbrev pub is_empty : List ℕ → Bool
is_empty [] = true
is_empty (x ∷ s) = false

-- `WSConnection`, with the user that the handler keeps and whether the handler still runs
pub record WsConnection : Type 0 where
  pub id : ℕ
  pub user : User
  pub conversations : List ℕ
  pub delivery_orders : List ℕ
  pub is_open : Bool

-- an entry of `_subs`
pub record Channel : Type 0 where
  pub conversation_id : ℕ
  pub subscribers : List ℕ

-- an entry of `_delivery_subs`
pub record Topic : Type 0 where
  pub order_id : ℕ
  pub internal : List ℕ
  pub customer : List ℕ

pub data DeliveryRole : Type 0 where
  internal customer : DeliveryRole

pub record Registry : Type 0 where
  pub connections : List WsConnection
  pub subs : List Channel
  pub delivery_subs : List Topic

abbrev pub find_channel : ℕ → List Channel → Option Channel
find_channel = find (λ (s : Channel). s.conversation_id)

abbrev pub find_topic : ℕ → List Topic → Option Topic
find_topic = find (λ (t : Topic). t.order_id)

abbrev pub find_connection : ℕ → Registry → Option WsConnection
find_connection conn r = find (λ (c : WsConnection). c.id) conn r.connections

abbrev pub set_connection :
    ℕ → (WsConnection → WsConnection) → List WsConnection → List WsConnection
set_connection conn = update (λ (c : WsConnection). c.id) conn

-- `subscribers_of`
unfoldable pub subscribers_of : ℕ → List Channel → List ℕ
subscribers_of conversation_id subs = elim (find_channel conversation_id subs) [
  | none ↦ []
  | some s ↦ s.subscribers
]

-- `self._subs.setdefault(conversation_id, set()).add(conn)`
unfoldable pub join : ℕ → ℕ → List Channel → List Channel
join conn conversation_id subs = elim (find_channel conversation_id subs) [
  | none ↦ subs ++ record { conversation_id = conversation_id; subscribers = conn ∷ [] } ∷ []
  | some s ↦
      update (λ (s : Channel). s.conversation_id) conversation_id
        (λ s. record s { subscribers = add conn s.subscribers }) subs
]

-- `subs.discard(conn)`, and `del self._subs[…]` once the set is empty
unfoldable pub drop : ℕ → ℕ → List Channel → List Channel
drop conn conversation_id subs = elim (find_channel conversation_id subs) [
  | none ↦ subs
  | some s ↦
      if is_empty (discard conn s.subscribers)
      then remove (λ (s : Channel). s.conversation_id) conversation_id subs
      else update (λ (s : Channel). s.conversation_id) conversation_id
          (λ s. record s { subscribers = discard conn s.subscribers }) subs
]

unfoldable pub subscribe : ℕ → ℕ → Registry → Registry
subscribe conn conversation_id r = record r {
  connections =
      set_connection conn (λ c. record c { conversations = add conversation_id c.conversations })
        r.connections;
  subs = join conn conversation_id r.subs;
}

unfoldable pub unsubscribe : ℕ → ℕ → Registry → Registry
unsubscribe conn conversation_id r = record r {
  connections =
      set_connection conn
        (λ c. record c { conversations = discard conversation_id c.conversations }) r.connections;
  subs = drop conn conversation_id r.subs;
}

-- `delivery_internal_subscribers` and `delivery_customer_subscribers`
unfoldable pub delivery_internal_subscribers : ℕ → List Topic → List ℕ
delivery_internal_subscribers order_id topics = elim (find_topic order_id topics) [
  | none ↦ []
  | some t ↦ t.internal
]

unfoldable pub delivery_customer_subscribers : ℕ → List Topic → List ℕ
delivery_customer_subscribers order_id topics = elim (find_topic order_id topics) [
  | none ↦ []
  | some t ↦ t.customer
]

-- `topic[role].add(conn)`
abbrev pub add_to : DeliveryRole → ℕ → Topic → Topic
add_to DeliveryRole.internal conn t = record t { internal = add conn t.internal }
add_to DeliveryRole.customer conn t = record t { customer = add conn t.customer }

abbrev pub empty_topic : ℕ → Topic
empty_topic order_id = record { order_id = order_id; internal = []; customer = [] }

abbrev pub leave_topic : ℕ → Topic → Topic
leave_topic conn t = record t {
  internal = discard conn t.internal;
  customer = discard conn t.customer;
}

unfoldable pub join_delivery : ℕ → ℕ → DeliveryRole → List Topic → List Topic
join_delivery conn order_id role topics = elim (find_topic order_id topics) [
  | none ↦ topics ++ add_to role conn (empty_topic order_id) ∷ []
  | some t ↦ update (λ (t : Topic). t.order_id) order_id (add_to role conn) topics
]

unfoldable pub drop_delivery : ℕ → ℕ → List Topic → List Topic
drop_delivery conn order_id topics = elim (find_topic order_id topics) [
  | none ↦ topics
  | some t ↦
      if is_empty (discard conn t.internal) && is_empty (discard conn t.customer)
      then remove (λ (t : Topic). t.order_id) order_id topics
      else update (λ (t : Topic). t.order_id) order_id (leave_topic conn) topics
]

unfoldable pub subscribe_delivery : ℕ → ℕ → DeliveryRole → Registry → Registry
subscribe_delivery conn order_id role r = record r {
  connections =
      set_connection conn (λ c. record c { delivery_orders = add order_id c.delivery_orders })
        r.connections;
  delivery_subs = join_delivery conn order_id role r.delivery_subs;
}

unfoldable pub unsubscribe_delivery : ℕ → ℕ → Registry → Registry
unsubscribe_delivery conn order_id r = record r {
  connections =
      set_connection conn (λ c. record c { delivery_orders = discard order_id c.delivery_orders })
        r.connections;
  delivery_subs = drop_delivery conn order_id r.delivery_subs;
}

-- the loops of `disconnect_all`
unfoldable pub drop_each : ℕ → List ℕ → List Channel → List Channel
drop_each conn [] subs = subs
drop_each conn (v ∷ vs) subs = drop_each conn vs (drop conn v subs)

unfoldable pub drop_each_delivery : ℕ → List ℕ → List Topic → List Topic
drop_each_delivery conn [] topics = topics
drop_each_delivery conn (o ∷ os) topics = drop_each_delivery conn os (drop_delivery conn o topics)

abbrev pub clear : WsConnection → WsConnection
clear c = record c { conversations = []; delivery_orders = [] }

unfoldable pub disconnect_all : WsConnection → Registry → Registry
disconnect_all c r = record r {
  connections = set_connection c.id clear r.connections;
  subs = drop_each c.id c.conversations r.subs;
  delivery_subs = drop_each_delivery c.id c.delivery_orders r.delivery_subs;
}
