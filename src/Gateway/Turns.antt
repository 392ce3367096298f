-- ===== src/Gateway/Turns.antt =====
-- A turn of the handler keeps the registry consistent.
use marketplace_invite_only.Common.{
  ◌≡◌, refl, ◌∙◌, ℕ, true, not, Option, none, some, List, [], ◌∷◌, Bool-cases, Option-cases, inl,
  inr, arith,
}
use marketplace_invite_only.Models.{UserRole, role_is, User, Db}
use marketplace_invite_only.Session.{Result, ok, err, ◌>>=◌}
use marketplace_invite_only.Orders.Loading.{find_order}
use marketplace_invite_only.Tracking.Views.{load_order, live_order, resolve_role, resolve_as}
use marketplace_invite_only.Gateway.Events.{
  Field, MessageType, TypingState, ClientMessage, Raw, ServerEvent,
}
use marketplace_invite_only.Gateway.Registry.{
  WsConnection, DeliveryRole, has, find_connection, subscribers_of,
}
use marketplace_invite_only.Gateway.Handler.{
  Gateway, send_text, send_each, resolve_delivery_role, subscribe_resolved, is_participant,
  subscribe_conversation, handle_subscribe, unsubscribe_conversation, handle_unsubscribe,
  other_users, handle_typing, handle_message, handle_raw,
}
use marketplace_invite_only.Gateway.Sets.{is_bucket}
use marketplace_invite_only.Gateway.Consistency.{
  IsConsistent, is_staff, subscribe-IsConsistent, unsubscribe-IsConsistent,
  subscribe_delivery-IsConsistent, unsubscribe_delivery-IsConsistent,
}

pub send_text-registry :
    (o : Option WsConnection) (e : ServerEvent) (g : Gateway)
    → (send_text o e g).registry ≡ g.registry
send_text-registry none e g = refl
send_text-registry (some c) e g = refl

pub send_each-registry :
    (s : List ℕ) (e : ServerEvent) (g : Gateway) → (send_each s e g).registry ≡ g.registry
unfolding send_each
send_each-registry [] e g = refl
send_each-registry (c ∷ s) e g =
    send_each-registry s e _ ∙ send_text-registry (find_connection c g.registry) e g

-- A customer is never given an internal role on a delivery.
resolve_delivery_role-staff :
    (oid : ℕ) (user : User) (db : Db) (role : DeliveryRole)
    → (resolve_delivery_role oid user db).0 ≡ ok (some role)
    → is_bucket DeliveryRole.internal role ≡ true
    → not (role_is user.role UserRole.customer) ≡ true
unfolding resolve_delivery_role load_order resolve_role resolve_as ◌>>=◌
resolve_delivery_role-staff oid user db role e h =
    elim (Option-cases (live_order (find_order oid db))) [
      | inl f ↦ absurd (ground (arith, e, f))
      | inr (o, f) ↦ elim (Bool-cases (role_is user.role UserRole.customer)) [
        | inl c ↦ absurd (ground (arith, e, f, h, c))
        | inr c ↦ ground (arith, c)
      ]
    ]

module _ (db : Db) (c : WsConnection) (g : Gateway)
    (found : find_connection c.id g.registry ≡ some c) (i : IsConsistent g.registry) where
  subscribe_resolved-IsConsistent :
      (oid : ℕ) (r : Result (Option DeliveryRole))
      → ((role : DeliveryRole)
          → r ≡ ok (some role)
          → is_bucket DeliveryRole.internal role ≡ true
          → is_staff (some c) ≡ true)
      → IsConsistent (subscribe_resolved c oid r g).0.registry
  unfolding subscribe_resolved
  subscribe_resolved-IsConsistent oid (err e) h = i
  subscribe_resolved-IsConsistent oid (ok none) h = i
  subscribe_resolved-IsConsistent oid (ok (some role)) h =
      subscribe_delivery-IsConsistent g.registry c.id c found oid role (h role refl) i

  subscribe_conversation-IsConsistent :
      (f : Field) → IsConsistent (subscribe_conversation db c f g).0.registry
  unfolding subscribe_conversation
  subscribe_conversation-IsConsistent Field.missing = i
  subscribe_conversation-IsConsistent Field.empty = i
  subscribe_conversation-IsConsistent Field.malformed = i
  subscribe_conversation-IsConsistent Field.not_text = i
  subscribe_conversation-IsConsistent (Field.uuid cid) =
      elim (Bool-cases (is_participant cid c.user db)) [
        | inl e ↦ rw e (subscribe-IsConsistent g.registry c.id c found cid i)
        | inr e ↦ rw e i
      ]

  handle_subscribe-IsConsistent :
      (d f : Field) → IsConsistent (handle_subscribe db c d f g).0.registry
  unfolding handle_subscribe
  handle_subscribe-IsConsistent Field.missing f = subscribe_conversation-IsConsistent f
  handle_subscribe-IsConsistent Field.empty f = i
  handle_subscribe-IsConsistent Field.malformed f = i
  handle_subscribe-IsConsistent Field.not_text f = i
  handle_subscribe-IsConsistent (Field.uuid oid) f =
      subscribe_resolved-IsConsistent oid (resolve_delivery_role oid c.user db).0
        (resolve_delivery_role-staff oid c.user db)

  unsubscribe_conversation-IsConsistent :
      (f : Field) → IsConsistent (unsubscribe_conversation c f g).0.registry
  unfolding unsubscribe_conversation
  unsubscribe_conversation-IsConsistent Field.missing = i
  unsubscribe_conversation-IsConsistent Field.empty = i
  unsubscribe_conversation-IsConsistent Field.malformed = i
  unsubscribe_conversation-IsConsistent Field.not_text = i
  unsubscribe_conversation-IsConsistent (Field.uuid cid) =
      unsubscribe-IsConsistent g.registry c.id c found cid i

  handle_unsubscribe-IsConsistent :
      (d f : Field) → IsConsistent (handle_unsubscribe c d f g).0.registry
  unfolding handle_unsubscribe
  handle_unsubscribe-IsConsistent Field.missing f = unsubscribe_conversation-IsConsistent f
  handle_unsubscribe-IsConsistent Field.empty f = i
  handle_unsubscribe-IsConsistent Field.malformed f = i
  handle_unsubscribe-IsConsistent Field.not_text f = i
  handle_unsubscribe-IsConsistent (Field.uuid oid) f =
      unsubscribe_delivery-IsConsistent g.registry c.id c found oid i

  handle_typing-registry :
      (s : Option TypingState) (f : Field) → (handle_typing c s f g).0.registry ≡ g.registry
  unfolding handle_typing
  handle_typing-registry none f = refl
  handle_typing-registry (some s) Field.missing = refl
  handle_typing-registry (some s) Field.empty = refl
  handle_typing-registry (some s) Field.malformed = refl
  handle_typing-registry (some s) Field.not_text = refl
  handle_typing-registry (some s) (Field.uuid cid) = elim (Bool-cases (has cid c.conversations)) [
    | inl e ↦ rw e (
        send_each-registry (other_users c.user.id (subscribers_of cid g.registry.subs) g.registry)
          (ServerEvent.typing_from cid s c.user.id) g)
    | inr e ↦ rw e refl
  ]

  handle_message-IsConsistent :
      (t : MessageType) (m : ClientMessage) → IsConsistent (handle_message db c t m g).0.registry
  unfolding handle_message
  handle_message-IsConsistent MessageType.ping m = i
  handle_message-IsConsistent MessageType.subscribe m =
      handle_subscribe-IsConsistent m.delivery_order_id m.conversation_id
  handle_message-IsConsistent MessageType.unsubscribe m =
      handle_unsubscribe-IsConsistent m.delivery_order_id m.conversation_id
  handle_message-IsConsistent MessageType.typing m =
      rw (handle_typing-registry m.state m.conversation_id) i
  handle_message-IsConsistent MessageType.other m = i

  pub handle_raw-IsConsistent : (raw : Raw) → IsConsistent (handle_raw db c raw g).0.registry
  unfolding handle_raw
  handle_raw-IsConsistent Raw.no_json = i
  handle_raw-IsConsistent Raw.no_object = i
  handle_raw-IsConsistent (Raw.message m) = handle_message-IsConsistent m.mtype m
