-- ===== src/Messaging/Messages.antt =====
-- messaging_service.py, the messages: opaque ciphertexts, unread counts and retention.
use marketplace_invite_only.Common.{
  ℕ, ◌-◌, Bool, not, ◌&&◌, Option, none, some, List, [], ◌∷◌, ◌++◌, String, ◌==◌, ltb, is_none,
  if◌then◌else◌, true,
}
use marketplace_invite_only.Common.Tables.{select, find, update, delete_where, count, order_by_desc}
use marketplace_invite_only.Models.{User, Conversation, Message, PlatformSettings, Db}
use marketplace_invite_only.Session.{
  Error, Action, pure, gets, or_raise, raise_if, modify, ◌>>=◌, ◌>>◌,
}
use marketplace_invite_only.Orders.Views.{take}
use marketplace_invite_only.Orders.Retention.{days, add_default_settings}
use marketplace_invite_only.Messaging.Conversations.{load_conversation_for_caller}

-- A message that counts as unread for the caller.
abbrev pub is_unread : ℕ → ℕ → Message → Bool
is_unread conversation_id caller_id m =
    m.conversation_id == conversation_id
    && (not (m.sender_id == caller_id) && (is_none m.read_at && is_none m.deleted_at))

unfoldable pub unread_count : ℕ → ℕ → Action ℕ
unread_count conversation_id caller_id =
    gets λ db. count (is_unread conversation_id caller_id) db.conversation_messages

-- The bytes that a client sends.
pub record Sealed : Type 0 where
  pub ciphertext : String
  pub nonce : String
  pub ephemeral_public_key : String
  pub recipient_key_id : Option ℕ

abbrev pub new_message : ℕ → ℕ → ℕ → Sealed → ℕ → Message
new_message id conversation_id sender_id payload now = record {
  id = id;
  conversation_id = conversation_id;
  sender_id = sender_id;
  ciphertext = payload.ciphertext;
  nonce = payload.nonce;
  ephemeral_public_key = payload.ephemeral_public_key;
  recipient_key_id = payload.recipient_key_id;
  sent_at = now;
  read_at = none;
  deleted_at = none;
}

-- the new row, and the bump of `last_message_at`
abbrev pub with_message : Message → Db → Db
with_message m db = record db {
  conversation_messages = db.conversation_messages ++ m ∷ [];
  conversations =
      update (λ (c : Conversation). c.id) m.conversation_id
        (λ c. record c { last_message_at = some m.sent_at }) db.conversations;
}

unfoldable pub store_message : User → ℕ → Sealed → ℕ → ℕ → Action Message
store_message caller conversation_id payload message_id now = do
  conv ← load_conversation_for_caller caller conversation_id
  modify (with_message (new_message message_id conv.id caller.id payload now))
  pure (new_message message_id conv.id caller.id payload now)

-- `if before is not None: stmt = stmt.where(Message.sent_at < before)`
abbrev pub sent_before : Option ℕ → Message → Bool
sent_before none m = true
sent_before (some before) m = ltb m.sent_at before

abbrev pub is_listed : ℕ → Option ℕ → Message → Bool
is_listed conversation_id before m =
    m.conversation_id == conversation_id && (is_none m.deleted_at && sent_before before m)

unfoldable pub list_messages : User → ℕ → Option ℕ → ℕ → Action (List Message)
list_messages caller conversation_id before limit = do
  _ ← load_conversation_for_caller caller conversation_id
  gets λ db. take limit (
      order_by_desc (λ m. m.sent_at)
        (select (is_listed conversation_id before) db.conversation_messages))

-- the message of the conversation with this id, if it is not deleted
abbrev pub live_message : ℕ → Option Message → Option Message
live_message conversation_id none = none
live_message conversation_id (some m) =
    if m.conversation_id == conversation_id && is_none m.deleted_at then some m else none

abbrev pub read_at_time : ℕ → Message → Message
read_at_time now m = if is_none m.read_at then record m { read_at = some now } else m

abbrev pub set_message : ℕ → (Message → Message) → Db → Db
set_message message_id f db = record db {
  conversation_messages = update (λ (m : Message). m.id) message_id f db.conversation_messages;
}

unfoldable pub mark_message_read : User → ℕ → ℕ → ℕ → Action Message
mark_message_read caller conversation_id message_id now = do
  _ ← load_conversation_for_caller caller conversation_id
  found ← gets λ db.
      live_message conversation_id
        (find (λ (m : Message). m.id) message_id db.conversation_messages)
  msg ← or_raise found Error.not_found
  raise_if (msg.sender_id == caller.id) Error.not_found
  modify (set_message message_id (read_at_time now))
  pure (read_at_time now msg)

-- `_get_settings`, which does as `_get_retention_settings` of the orders does
unfoldable pub get_settings : ℕ → Action PlatformSettings
get_settings now = do found ← gets (λ db. db.settings); add_default_settings now found

unfoldable pub get_message_retention_days : ℕ → Action ℕ
get_message_retention_days now = do ps ← get_settings now; pure ps.message_retention_days

unfoldable pub update_message_retention_days : User → ℕ → ℕ → Action ℕ
update_message_retention_days caller n now = do
  raise_if (ltb n 7) Error.message_retention_invalid
  ps ← get_settings now
  modify λ db. record db {
    settings = some (record ps {
      message_retention_days = n;
      updated_by_user_id = some caller.id;
      updated_at = now;
    });
  }
  pure n

-- `Message.sent_at < cutoff`; a time before the epoch is no number, and no message is sent then
abbrev pub is_old : ℕ → ℕ → Message → Bool
is_old retention_days now m = ltb m.sent_at (now - days retention_days)

-- `db.execute(sa.delete(Message).where(…)).rowcount`
unfoldable pub purge_old_messages : ℕ → Action ℕ
purge_old_messages now = do
  ps ← get_settings now
  purged ← gets (λ db. count (is_old ps.message_retention_days now) db.conversation_messages)
  modify λ db. record db {
    conversation_messages =
        delete_where (is_old ps.message_retention_days now) db.conversation_messages;
  }
  pure purged
