-- ===== src/Gateway/Events.antt =====
-- What the sockets of gateway.py carry. JSON and UUIDs are read by libraries: a message arrives as the
-- fields that the handler looks at, each read as far as it can be.
use marketplace_invite_only.Common.{ℕ, Option}
use marketplace_invite_only.Models.{User}

-- A field of a message that should have a UUID: absent or null; empty; a text that is no UUID; a
-- value that is no text, on which `uuid.UUID` raises what no branch catches; or a UUID.
pub data Field : Type 0 where
  missing empty malformed not_text : Field
  uuid : ℕ → Field

pub data MessageType : Type 0 where
  ping subscribe unsubscribe typing other : MessageType

pub data TypingState : Type 0 where
  start stop : TypingState

pub record ClientMessage : Type 0 where
  pub mtype : MessageType
  pub conversation_id : Field
  pub delivery_order_id : Field
  pub state : Option TypingState

-- A text from the client: no JSON, JSON that is no object, or a message.
pub data Raw : Type 0 where
  no_json no_object : Raw
  message : ClientMessage → Raw

-- What the server sends. A payload is the business of the endpoint that broadcasts it.
pub data ServerEvent : Type 0 where
  invalid_json unknown_type invalid_delivery_order_id missing_conversation_id : ServerEvent
  invalid_conversation_id pong : ServerEvent
  closed_auth closed_forbidden : ServerEvent
  subscribed delivery_subscribed : ℕ → ServerEvent
  typing_from : ℕ → TypingState → ℕ → ServerEvent
  message_new message_read : ℕ → ℕ → ServerEvent
  delivery_location delivery_event : ℕ → ℕ → ServerEvent

-- A record of an event sent: the connection, its user if it has one, and the event.
pub record Sent : Type 0 where
  pub to : ℕ
  pub user : Option User
  pub event : ServerEvent
