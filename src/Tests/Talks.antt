-- ===== src/Tests/Talks.antt =====
-- Conversations and keys at the shop of the tests.
use marketplace_invite_only.Common.{◌≡◌, refl, ◌+◌, ◌≤◌, false, none, some, [], ◌∷◌, arith}
use marketplace_invite_only.Common.Tables.{All, find, select, count}
use marketplace_invite_only.Models.{Conversation, Message, Db}
use marketplace_invite_only.Session.{ok, request, ◌>>=◌}
use marketplace_invite_only.Messaging.Keys.{
  is_active_of, new_key, register_key, get_active_key_for_user,
}
use marketplace_invite_only.Messaging.Conversations.{
  can_converse, may_converse, open_conversation, create_conversation, load_conversation_for_caller,
}
use marketplace_invite_only.Messaging.Messages.{
  is_unread, is_old, mark_message_read, update_message_retention_days, purge_old_messages,
}
use marketplace_invite_only.Messaging.Rotation.{register_key-get_active_key_for_user}
use marketplace_invite_only.Messaging.Pairs.{create_conversation-both_ways}
use marketplace_invite_only.Messaging.Reading.{mark_message_read-unread_count}
use marketplace_invite_only.Messaging.Retention.{
  retention_days, is_recent, update_message_retention_days-purge_old_messages,
}
use marketplace_invite_only.Tests.{shop, buyer, vendor, manager}

register_key-get_active_key_for_user_example :
    (get_active_key_for_user 1 (register_key buyer "k" 1 980 700 shop).1
      ≡ (ok (new_key 980 1 "k" 1 700), (register_key buyer "k" 1 980 700 shop).1))
    × (select (is_active_of 2) (register_key buyer "k" 1 980 700 shop).1.public_keys
        ≡ select (is_active_of 2) shop.public_keys)
register_key-get_active_key_for_user_example =
    register_key-get_active_key_for_user buyer "k" 1 980 700 2 shop (ground arith)

create_conversation-both_ways_example :
    create_conversation vendor 1 986 701 (create_conversation buyer 2 985 700 shop).1
    ≡ create_conversation buyer 2 985 700 shop
unfolding find select create_conversation can_converse may_converse open_conversation ◌>>=◌
create_conversation-both_ways_example =
    create_conversation-both_ways buyer vendor 985 986 700 701 shop (refl, refl) (refl, refl) refl

abbrev talk : Conversation
talk = record {
  id = 985;
  user_a_id = 1;
  user_b_id = 2;
  created_at = 700;
  last_message_at = some 710;
}

abbrev hello : Message
hello = record {
  id = 990;
  conversation_id = 985;
  sender_id = 2;
  ciphertext = "c";
  nonce = "n";
  ephemeral_public_key = "e";
  recipient_key_id = none;
  sent_at = 710;
  read_at = none;
  deleted_at = none;
}

abbrev pub talking : Db
talking = record shop { conversations = talk ∷ []; conversation_messages = hello ∷ [] }

mark_message_read-unread_count_example :
    count (is_unread 985 1) (mark_message_read buyer 985 990 720 talking).1.conversation_messages
      + 1
    ≡ count (is_unread 985 1) talking.conversation_messages
unfolding find mark_message_read load_conversation_for_caller ◌>>=◌
mark_message_read-unread_count_example =
    mark_message_read-unread_count buyer 985 990 720 hello talking (refl, tt) refl refl

update_message_retention_days-purge_old_messages_example :
    let set = (request (update_message_retention_days manager 30 700) talking).1 in
    let after = (purge_old_messages 720 set).1.conversation_messages in
    (7 ≤ retention_days set.settings)
    × ((select (is_recent 720) after ≡ select (is_recent 720) talking.conversation_messages)
        × All (λ m. is_old (retention_days set.settings) 720 m ≡ false) after)
update_message_retention_days-purge_old_messages_example =
    update_message_retention_days-purge_old_messages manager 30 700 720 talking (ground arith)
