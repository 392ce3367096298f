-- ===== src/Messaging/Conversations.antt =====
-- messaging_service.py, the conversations: who may open one with whom, and one for each pair. The
-- order of the bytes of two ids is the order of the numbers that stand for them.
use marketplace_invite_only.Common.{
  ℕ, Bool, true, false, not, ◌&&◌, ◌||◌, Option, none, some, List, [], ◌∷◌, ◌++◌, ◌==◌, ltb,
  is_none, opt_eq, or_else, if◌then◌else◌,
}
use marketplace_invite_only.Common.Tables.{select, find, order_by_desc}
use marketplace_invite_only.Models.{UserRole, role_is, User, Conversation, Db}
use marketplace_invite_only.Session.{
  Error, Action, pure, gets, or_raise, scalar_one_or_none, raise_if, modify, ◌>>=◌, ◌>>◌,
}
use marketplace_invite_only.Orders.Views.{take}

-- `_canonical_pair`
abbrev pub canonical_pair : ℕ → ℕ → ℕ × ℕ
canonical_pair a b = if ltb a b then (a, b) else (b, a)

-- A row of `users` that is neither deleted nor inactive.
abbrev pub active_peer : Option User → Option User
active_peer none = none
active_peer (some u) = if is_none u.deleted_at && u.is_active then some u else none

-- whether a caller and a loaded peer may converse, by their roles
unfoldable pub may_converse : UserRole → UserRole → User → User → Bool
may_converse _ UserRole.admin caller peer = true
may_converse UserRole.customer UserRole.seller caller peer =
    opt_eq caller.referring_seller_id peer.id
may_converse UserRole.seller UserRole.customer caller peer =
    opt_eq peer.referring_seller_id caller.id
may_converse _ _ caller peer = false

abbrev pub converses_with : User → Option User → Bool
converses_with caller none = false
converses_with caller (some peer) = may_converse caller.role peer.role caller peer

-- `_can_converse`
unfoldable pub can_converse : User → ℕ → Action Bool
can_converse caller peer_id =
    if caller.id == peer_id
    then pure false
    else if role_is caller.role UserRole.admin
    then pure true
    else gets λ db. converses_with caller (active_peer (find (λ (u : User). u.id) peer_id db.users))

-- `caller.id in (conv.user_a_id, conv.user_b_id)`
abbrev pub takes_part : ℕ → Conversation → Bool
takes_part user_id c = c.user_a_id == user_id || c.user_b_id == user_id

abbrev pub find_conversation : ℕ → Db → Option Conversation
find_conversation conversation_id db =
    find (λ (c : Conversation). c.id) conversation_id db.conversations

-- `_load_conversation_for_caller`
unfoldable pub load_conversation_for_caller : User → ℕ → Action Conversation
load_conversation_for_caller caller conversation_id = do
  found ← gets (find_conversation conversation_id)
  conv ← or_raise found Error.conversation_not_found
  raise_if (not (role_is caller.role UserRole.admin || takes_part caller.id conv))
      Error.conversation_not_found
  pure conv

-- `_peer_of`
abbrev pub peer_of : Conversation → ℕ → ℕ
peer_of conv caller_id = if conv.user_a_id == caller_id then conv.user_b_id else conv.user_a_id

-- The conversations of a pair, which a constraint makes one at most.
abbrev pub is_pair : ℕ × ℕ → Conversation → Bool
is_pair (a, b) c = c.user_a_id == a && c.user_b_id == b

abbrev pub new_conversation : ℕ → ℕ × ℕ → ℕ → Conversation
new_conversation id (a, b) now = record {
  id = id;
  user_a_id = a;
  user_b_id = b;
  created_at = now;
  last_message_at = none;
}

abbrev pub with_conversation : Conversation → Db → Db
with_conversation c db = record db { conversations = db.conversations ++ c ∷ [] }

unfoldable pub open_conversation : ℕ → ℕ × ℕ → ℕ → Option Conversation → Action Conversation
open_conversation id pair now (some conv) = pure conv
open_conversation id pair now none = do
  modify (with_conversation (new_conversation id pair now))
  pure (new_conversation id pair now)

unfoldable pub create_conversation : User → ℕ → ℕ → ℕ → Action Conversation
create_conversation caller peer_user_id conversation_id now = do
  eligible ← can_converse caller peer_user_id
  raise_if (not eligible) Error.conversation_ineligible
  rows ← gets (λ db. select (is_pair (canonical_pair caller.id peer_user_id)) db.conversations)
  existing ← scalar_one_or_none rows
  open_conversation conversation_id (canonical_pair caller.id peer_user_id) now existing

unfoldable pub list_conversations_for_caller : User → ℕ → Action (List Conversation)
list_conversations_for_caller caller limit = gets λ db. take limit (
    order_by_desc (λ c. or_else c.last_message_at c.created_at)
      (select (takes_part caller.id) db.conversations))

unfoldable pub get_conversation : User → ℕ → Action Conversation
get_conversation caller conversation_id = load_conversation_for_caller caller conversation_id

-- the dictionary of `conversation_to_response_dict`
pub record ConversationResponse : Type 0 where
  pub id : ℕ
  pub peer_user_id : ℕ
  pub created_at : ℕ
  pub last_message_at : Option ℕ
  pub unread_count : ℕ

abbrev pub conversation_to_response : Conversation → ℕ → ℕ → ConversationResponse
conversation_to_response conv caller_id unread = record {
  id = conv.id;
  peer_user_id = peer_of conv caller_id;
  created_at = conv.created_at;
  last_message_at = conv.last_message_at;
  unread_count = unread;
}
