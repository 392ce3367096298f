-- ===== src/Messaging/Pairs.antt =====
-- One conversation for each pair of users, whoever of the two opens it.
use marketplace_invite_only.Common.{
  ◌≡◌, refl, ◌∙◌, ℕ, Bool, true, false, not, ◌&&◌, ◌||◌, some, List, [], ◌∷◌, ◌==◌, is_none,
  ==-refl, arith,
}
use mathlib.Core.Path.{subst}
use marketplace_invite_only.Common.Tables.{select, find}
use marketplace_invite_only.Common.Rows.{select-append}
use marketplace_invite_only.Models.{UserRole, role_is, User, Conversation, Db}
use marketplace_invite_only.Session.{Action, ok, is_ok, gets, scalar_one_or_none, ◌>>=◌}
use marketplace_invite_only.Messaging.Conversations.{
  canonical_pair, may_converse, can_converse, is_pair, new_conversation, open_conversation,
  create_conversation,
}

-- A row of the users that is neither deleted nor inactive.
abbrev pub IsActiveUser : User → Db → Type 0
IsActiveUser u db =
    (find (λ (x : User). x.id) u.id db.users ≡ some u)
    × ((is_none u.deleted_at && u.is_active) ≡ true)

-- What `can_converse` tells for two active users.
abbrev talks : User → User → Bool
talks u v = not (u.id == v.id) && (role_is u.role UserRole.admin || may_converse u.role v.role u v)

can_converse-talks :
    (u v : User) (db : Db) → IsActiveUser v db → can_converse u v.id db ≡ (ok (talks u v), db)
unfolding can_converse ◌>>=◌
can_converse-talks u v db h = ground (arith, h.0, h.1)

may_converse-flip :
    (r s : UserRole) (u v : User)
    → (role_is r UserRole.admin || may_converse r s u v)
      ≡ (role_is s UserRole.admin || may_converse s r v u)
unfolding may_converse
may_converse-flip r s u v = ground arith

talks-flip : (u v : User) → talks u v ≡ talks v u
talks-flip u v = ground (arith, may_converse-flip u.role v.role u v)

canonical_pair-flip : (a b : ℕ) → (a == b) ≡ false → canonical_pair b a ≡ canonical_pair a b
canonical_pair-flip a b h = ground arith

-- The rest of `create_conversation`, once the pair may converse.
abbrev create_for : ℕ × ℕ → ℕ → ℕ → Action Conversation
create_for pair id now = do
  rows ← gets (λ db. select (is_pair pair) db.conversations)
  existing ← scalar_one_or_none rows
  open_conversation id pair now existing

-- Opening a conversation for a pair again gives what the first time gave.
create_for-again :
    (a b id id' now now' : ℕ) (rows : List Conversation) (db : Db)
    → select (is_pair (a, b)) db.conversations ≡ rows
    → is_ok (create_for (a, b) id now db).0 ≡ true
    → create_for (a, b) id' now' (create_for (a, b) id now db).1 ≡ create_for (a, b) id now db
unfolding open_conversation select ◌>>=◌
create_for-again a b id id' now now' [] db e h =
    let fresh = new_conversation id (a, b) now in
    ground
      (arith, e, select-append (is_pair (a, b)) db.conversations (fresh ∷ []), ==-refl a, ==-refl b)
create_for-again a b id id' now now' (c ∷ []) db e h = ground (arith, e, h)
create_for-again a b id id' now now' (c ∷ d ∷ rest) db e h = absurd (ground (arith, e, h))

create_conversation-eligible :
    (u : User) (peer_id id now : ℕ) (db : Db)
    → can_converse u peer_id db ≡ (ok true, db)
    → create_conversation u peer_id id now db ≡ create_for (canonical_pair u.id peer_id) id now db
unfolding create_conversation ◌>>=◌
create_conversation-eligible u peer_id id now db e = ground (arith, e)

create_conversation-ineligible :
    (u : User) (peer_id id now : ℕ) (b : Bool) (db : Db)
    → can_converse u peer_id db ≡ (ok b, db)
    → is_ok (create_conversation u peer_id id now db).0 ≡ true
    → b ≡ true
unfolding create_conversation ◌>>=◌
create_conversation-ineligible u peer_id id now true db e h = refl
create_conversation-ineligible u peer_id id now false db e h = absurd (ground (arith, e, h))

create_for-users :
    (pair : ℕ × ℕ) (id now : ℕ) (rows : List Conversation) (db : Db)
    → select (is_pair pair) db.conversations ≡ rows
    → (create_for pair id now db).1.users ≡ db.users
unfolding open_conversation ◌>>=◌
create_for-users pair id now [] db e = ground (arith, e)
create_for-users pair id now (c ∷ []) db e = ground (arith, e)
create_for-users pair id now (c ∷ d ∷ rest) db e = ground (arith, e)

-- Two active users who open a conversation with each other get the same one, whoever comes first:
-- where the first call returns, the second gives the same conversation and changes nothing.
pub create_conversation-both_ways :
    (u v : User) (id id' now now' : ℕ) (db : Db)
    → IsActiveUser u db
    → IsActiveUser v db
    → is_ok (create_conversation u v.id id now db).0 ≡ true
    → create_conversation v u.id id' now' (create_conversation u v.id id now db).1
      ≡ create_conversation u v.id id now db
create_conversation-both_ways u v id id' now now' db a b done =
    let pair = canonical_pair u.id v.id in
    let eligible : talks u v ≡ true =
      create_conversation-ineligible u v.id id now (talks u v) db (can_converse-talks u v db b)
        done in
    let first : create_conversation u v.id id now db ≡ create_for pair id now db =
      create_conversation-eligible u v.id id now db
        (rw (can_converse-talks u v db b, eligible) refl) in
    let after = (create_for pair id now db).1 in
    let still : IsActiveUser u after = (rw (create_for-users pair id now _ db refl) a.0, a.1) in
    let flipped : talks v u ≡ true = talks-flip v u ∙ eligible in
    let second : create_conversation v u.id id' now' after
        ≡ create_for (canonical_pair v.id u.id) id' now' after =
      create_conversation-eligible v u.id id' now' after
        (rw (can_converse-talks v u after still, flipped) refl) in
    let again : create_for pair id' now' after ≡ create_for pair id now db =
      create_for-again pair.0 pair.1 id id' now now' _ db refl
        (subst (λ r. is_ok r.0 ≡ true) first done) in
    rw (first, second, canonical_pair-flip u.id v.id (ground (arith, eligible))) again
