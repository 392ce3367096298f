-- ===== src/Messaging/Reading.antt =====
-- Marking a message as read, against the count of unread messages.
use marketplace_invite_only.Common.{
  ◌≡◌, ℕ, ◌+◌, Bool, true, not, ◌&&◌, some, ◌==◌, is_none, Bool-cases, Option-cases, inl, inr,
  if◌then◌else◌, arith,
}
use marketplace_invite_only.Common.Tables.{IsUnique, count, find}
use marketplace_invite_only.Common.Rows.{count-update-row}
use marketplace_invite_only.Models.{User, Message, Db}
use marketplace_invite_only.Session.{is_ok, ◌>>=◌}
use marketplace_invite_only.Messaging.Conversations.{
  find_conversation, load_conversation_for_caller,
}
use marketplace_invite_only.Messaging.Messages.{
  is_unread, read_at_time, set_message, mark_message_read,
}

-- The messages that a caller may mark: live ones of the conversation that someone else sent.
abbrev markable : User → ℕ → Message → Bool
markable caller conversation_id m =
    m.conversation_id == conversation_id && (is_none m.deleted_at && not (m.sender_id == caller.id))

mark-cases :
    (caller : User) (conversation_id message_id now : ℕ) (m : Message) (db : Db)
    → find (λ (m : Message). m.id) message_id db.conversation_messages ≡ some m
    → is_ok (mark_message_read caller conversation_id message_id now db).0 ≡ true
    → ((mark_message_read caller conversation_id message_id now db).1
        ≡ set_message message_id (read_at_time now) db)
      × (markable caller conversation_id m ≡ true)
unfolding mark_message_read load_conversation_for_caller ◌>>=◌
mark-cases caller conversation_id message_id now m db found done =
    elim (Option-cases (find_conversation conversation_id db)) [
      | inl e ↦ absurd (ground (arith, e, done))
      | inr (c, e) ↦ elim (Bool-cases (markable caller conversation_id m)) [
        | inl f ↦ (ground (arith, found, e, f, done), f)
        | inr f ↦ absurd (ground (arith, found, e, f, done))
      ]
    ]

-- A call that marks a message as read and returns takes it off the caller's unread count: by one
-- where the message was unread, by nothing where it was read before. The ids of the messages are
-- unique.
pub mark_message_read-unread_count :
    (caller : User) (conversation_id message_id now : ℕ) (m : Message) (db : Db)
    → IsUnique (λ (m : Message). m.id) db.conversation_messages
    → find (λ (m : Message). m.id) message_id db.conversation_messages ≡ some m
    → is_ok (mark_message_read caller conversation_id message_id now db).0 ≡ true
    → count
          (is_unread conversation_id caller.id)
          (mark_message_read caller conversation_id message_id now db).1.conversation_messages
        + (if is_none m.read_at then 1 else 0)
      ≡ count (is_unread conversation_id caller.id) db.conversation_messages
mark_message_read-unread_count caller conversation_id message_id now m db u found done =
    let (after, marked) = mark-cases caller conversation_id message_id now m db found done in
    let exact =
      count-update-row (is_unread conversation_id caller.id) (λ (m : Message). m.id) message_id
        (read_at_time now) db.conversation_messages m u found in
    rw after (ground (arith, exact, marked))
