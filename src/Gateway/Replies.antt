-- ===== src/Gateway/Replies.antt =====
-- Who may be sent what, and that a turn of the handler keeps to it.
use marketplace_invite_only.Common.{
  ◌≡◌, refl, sym, ℕ, Bool, true, false, not, Option, none, some, List, [], ◌∷◌, ◌==◌, ==-refl,
  Bool-cases, Option-cases, inl, inr, arith,
}
use mathlib.Core.Path.{subst}
use marketplace_invite_only.Common.Tables.{All, All-append}
use marketplace_invite_only.Models.{UserRole, role_is, User, Db}
use marketplace_invite_only.Session.{Result, ok, err}
use marketplace_invite_only.Gateway.Events.{
  Field, MessageType, TypingState, ClientMessage, Raw, ServerEvent, Sent,
}
use marketplace_invite_only.Gateway.Registry.{
  WsConnection, DeliveryRole, Registry, has, find_connection, subscribers_of,
}
use marketplace_invite_only.Gateway.Handler.{
  Gateway, send_to, send_text, send_each, resolve_delivery_role, subscribe_resolved, is_participant,
  subscribe_conversation, handle_subscribe, unsubscribe_conversation, handle_unsubscribe,
  other_users, handle_typing, handle_message, handle_raw,
}
use marketplace_invite_only.Gateway.Turns.{send_text-registry}

-- A socket of no user is not one of the staff.
abbrev pub is_staff_user : Option User → Bool
is_staff_user none = false
is_staff_user (some u) = not (role_is u.role UserRole.customer)

abbrev pub is_another : ℕ → Option User → Bool
is_another user_id none = false
is_another user_id (some u) = not (u.id == user_id)

-- whether a user may get an event
abbrev pub may_get : ServerEvent → Option User → Bool
may_get (ServerEvent.delivery_location oid p) user = is_staff_user user
may_get (ServerEvent.typing_from cid state user_id) user = is_another user_id user
may_get _ user = true

abbrev pub AllDue : List Sent → Type 0
AllDue = All (λ s. may_get s.event s.user ≡ true)

-- a connection in a set that a broadcast goes over
abbrev pub may_reach : ServerEvent → Option WsConnection → Bool
may_reach e none = true
may_reach e (some c) = may_get e (some c.user)

pub send_to-AllDue :
    (conn : ℕ) (user : Option User) (e : ServerEvent) (g : Gateway)
    → may_get e user ≡ true
    → AllDue g.sent
    → AllDue (send_to conn user e g).sent
send_to-AllDue conn user e g h a = All-append _ g.sent _ a (h, tt)

send_text-AllDue :
    (o : Option WsConnection) (e : ServerEvent) (g : Gateway)
    → may_reach e o ≡ true
    → AllDue g.sent
    → AllDue (send_text o e g).sent
send_text-AllDue none e g h a = a
send_text-AllDue (some c) e g h a = send_to-AllDue c.id (some c.user) e g h a

pub send_each-AllDue :
    (s : List ℕ) (e : ServerEvent) (g : Gateway)
    → ((c : ℕ) → has c s ≡ true → may_reach e (find_connection c g.registry) ≡ true)
    → AllDue g.sent
    → AllDue (send_each s e g).sent
unfolding send_each has
send_each-AllDue [] e g h a = a
send_each-AllDue (c ∷ s) e g h a =
    let sent = send_text (find_connection c g.registry) e g in
    let same : sent.registry ≡ g.registry = send_text-registry (find_connection c g.registry) e g in
    send_each-AllDue s e sent
      (λ x hx.
        subst (λ r. may_reach e (find_connection x r) ≡ true) (sym same) (h x (ground (arith, hx))))
      (send_text-AllDue (find_connection c g.registry) e g (h c (ground (arith, ==-refl c))) a)

other_users-another :
    (cid : ℕ) (state : TypingState) (user_id : ℕ) (s : List ℕ) (r : Registry) (c : ℕ)
    → has c (other_users user_id s r) ≡ true
    → may_reach (ServerEvent.typing_from cid state user_id) (find_connection c r) ≡ true
unfolding other_users has
other_users-another cid state user_id [] r c h = absurd (ground arith)
other_users-another cid state user_id (x ∷ s) r c h = elim (Option-cases (find_connection x r)) [
  | inl e ↦ other_users-another cid state user_id s r c (ground (arith, e, h))
  | inr (k, e) ↦ elim (Bool-cases (k.user.id == user_id)) [
    | inl f ↦ other_users-another cid state user_id s r c (ground (arith, e, f, h))
    | inr f ↦ elim (Bool-cases (c == x)) [
      | inl same ↦ ground (arith, e, f, same)
      | inr off ↦ other_users-another cid state user_id s r c (ground (arith, e, f, h, off))
    ]
  ]
]

module _ (db : Db) (c : WsConnection) (g : Gateway) (a : AllDue g.sent) where
  reply-AllDue :
      (e : ServerEvent)
      → may_get e (some c.user) ≡ true
      → AllDue (send_to c.id (some c.user) e g).sent
  reply-AllDue e h = send_to-AllDue c.id (some c.user) e g h a

  subscribe_resolved-AllDue :
      (oid : ℕ) (r : Result (Option DeliveryRole)) → AllDue (subscribe_resolved c oid r g).0.sent
  unfolding subscribe_resolved
  subscribe_resolved-AllDue oid (err e) = a
  subscribe_resolved-AllDue oid (ok none) = reply-AllDue _ refl
  subscribe_resolved-AllDue oid (ok (some role)) =
      reply-AllDue (ServerEvent.delivery_subscribed oid) refl

  subscribe_conversation-AllDue : (f : Field) → AllDue (subscribe_conversation db c f g).0.sent
  unfolding subscribe_conversation
  subscribe_conversation-AllDue Field.missing = reply-AllDue _ refl
  subscribe_conversation-AllDue Field.empty = reply-AllDue _ refl
  subscribe_conversation-AllDue Field.malformed = reply-AllDue _ refl
  subscribe_conversation-AllDue Field.not_text = a
  subscribe_conversation-AllDue (Field.uuid cid) =
      elim (Bool-cases (is_participant cid c.user db)) [
        | inl e ↦ rw e (reply-AllDue (ServerEvent.subscribed cid) refl)
        | inr e ↦ rw e (reply-AllDue ServerEvent.closed_forbidden refl)
      ]

  handle_subscribe-AllDue : (d f : Field) → AllDue (handle_subscribe db c d f g).0.sent
  unfolding handle_subscribe
  handle_subscribe-AllDue Field.missing f = subscribe_conversation-AllDue f
  handle_subscribe-AllDue Field.empty f = reply-AllDue _ refl
  handle_subscribe-AllDue Field.malformed f = reply-AllDue _ refl
  handle_subscribe-AllDue Field.not_text f = a
  handle_subscribe-AllDue (Field.uuid oid) f =
      subscribe_resolved-AllDue oid (resolve_delivery_role oid c.user db).0

  handle_unsubscribe-AllDue : (d f : Field) → AllDue (handle_unsubscribe c d f g).0.sent
  unfolding handle_unsubscribe unsubscribe_conversation
  handle_unsubscribe-AllDue Field.missing Field.missing = a
  handle_unsubscribe-AllDue Field.missing Field.empty = a
  handle_unsubscribe-AllDue Field.missing Field.malformed = a
  handle_unsubscribe-AllDue Field.missing Field.not_text = a
  handle_unsubscribe-AllDue Field.missing (Field.uuid cid) = a
  handle_unsubscribe-AllDue Field.empty f = a
  handle_unsubscribe-AllDue Field.malformed f = a
  handle_unsubscribe-AllDue Field.not_text f = a
  handle_unsubscribe-AllDue (Field.uuid oid) f = a

  handle_typing-AllDue :
      (s : Option TypingState) (f : Field) → AllDue (handle_typing c s f g).0.sent
  unfolding handle_typing
  handle_typing-AllDue none f = a
  handle_typing-AllDue (some s) Field.missing = a
  handle_typing-AllDue (some s) Field.empty = a
  handle_typing-AllDue (some s) Field.malformed = a
  handle_typing-AllDue (some s) Field.not_text = a
  handle_typing-AllDue (some s) (Field.uuid cid) = elim (Bool-cases (has cid c.conversations)) [
    | inl e ↦
        let all = subscribers_of cid g.registry.subs in
        rw e (
          send_each-AllDue (other_users c.user.id all g.registry)
            (ServerEvent.typing_from cid s c.user.id) g
            (other_users-another cid s c.user.id all g.registry) a)
    | inr e ↦ rw e a
  ]

  handle_message-AllDue :
      (t : MessageType) (m : ClientMessage) → AllDue (handle_message db c t m g).0.sent
  unfolding handle_message
  handle_message-AllDue MessageType.ping m = reply-AllDue _ refl
  handle_message-AllDue MessageType.subscribe m =
      handle_subscribe-AllDue m.delivery_order_id m.conversation_id
  handle_message-AllDue MessageType.unsubscribe m =
      handle_unsubscribe-AllDue m.delivery_order_id m.conversation_id
  handle_message-AllDue MessageType.typing m = handle_typing-AllDue m.state m.conversation_id
  handle_message-AllDue MessageType.other m = reply-AllDue _ refl

  pub handle_raw-AllDue : (raw : Raw) → AllDue (handle_raw db c raw g).0.sent
  unfolding handle_raw
  handle_raw-AllDue Raw.no_json = reply-AllDue _ refl
  handle_raw-AllDue Raw.no_object = a
  handle_raw-AllDue (Raw.message m) = handle_message-AllDue m.mtype m
