-- ===== src/Messaging/Rotation.antt =====
-- What registering a public key leaves: one active key, the new one, and the older ones kept.
use marketplace_invite_only.Common.{◌≡◌, refl, ℕ, ◌≢◌, List, [], ◌∷◌, String, ==-refl, arith}
use mathlib.Core.List.{append-nil}
use marketplace_invite_only.Common.Tables.{select, update_where}
use marketplace_invite_only.Common.Rows.{select-append}
use marketplace_invite_only.Models.{User, UserPublicKey, Db}
use marketplace_invite_only.Session.{ok, ◌>>=◌}
use marketplace_invite_only.Messaging.Keys.{
  is_active_of, rotate_at, rotate_keys, new_key, register_key, get_active_key_for_user,
}

rotated-none :
    (user_id now : ℕ) (keys : List UserPublicKey)
    → select (is_active_of user_id) (update_where (is_active_of user_id) (rotate_at now) keys) ≡ []
unfolding select update_where
rotated-none user_id now [] = refl
rotated-none user_id now (k ∷ keys) = ground (arith, rotated-none user_id now keys)

rotated-others :
    (user_id other now : ℕ) (keys : List UserPublicKey)
    → other ≢ user_id
    → select (is_active_of other) (update_where (is_active_of user_id) (rotate_at now) keys)
      ≡ select (is_active_of other) keys
unfolding select update_where
rotated-others user_id other now [] h = refl
rotated-others user_id other now (k ∷ keys) h =
    ground (arith, rotated-others user_id other now keys h)

-- After a registration, the active key of the user is the new one, and the call that reads it
-- returns; the active keys of every other user are as before. It holds whatever keys there were.
pub register_key-get_active_key_for_user :
    (user : User) (raw : String) (version key_id now other : ℕ) (db : Db)
    → other ≢ user.id
    → (get_active_key_for_user user.id (register_key user raw version key_id now db).1 ≡ (
      ok (new_key key_id user.id raw version now),
      (register_key user raw version key_id now db).1,
    ))
      × (select (is_active_of other) (register_key user raw version key_id now db).1.public_keys
          ≡ select (is_active_of other) db.public_keys)
unfolding register_key get_active_key_for_user select ◌>>=◌
register_key-get_active_key_for_user user raw version key_id now other db h =
    let fresh = new_key key_id user.id raw version now in
    let rotated = (rotate_keys user.id now db).public_keys in
    (
      ground (
        arith,
        select-append (is_active_of user.id) rotated (fresh ∷ []),
        rotated-none user.id now db.public_keys,
        ==-refl user.id,
      ),
      ground (
        arith,
        select-append (is_active_of other) rotated (fresh ∷ []),
        rotated-others user.id other now db.public_keys h,
        append-nil (select (is_active_of other) db.public_keys),
        h,
      ),
    )
