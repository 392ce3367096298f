-- ===== src/Messaging/Keys.antt =====
-- key_service.py: the public keys of a user, of which one is active. A key is an opaque string.
use marketplace_invite_only.Common.{
  ℕ, Bool, not, ◌&&◌, none, some, List, [], ◌∷◌, ◌++◌, String, ◌==◌, if◌then◌else◌,
}
use marketplace_invite_only.Common.Tables.{select, find, update, update_where, order_by_desc}
use marketplace_invite_only.Models.{
  KeyStatus, is_active_key, is_not_revoked, User, UserPublicKey, Db,
}
use marketplace_invite_only.Session.{
  Error, Action, pure, gets, or_raise, scalar_one_or_none, raise_if, modify, ◌>>=◌, ◌>>◌,
}

-- the active keys of a user
abbrev pub is_active_of : ℕ → UserPublicKey → Bool
is_active_of user_id k = k.user_id == user_id && is_active_key k.status

abbrev pub rotate_at : ℕ → UserPublicKey → UserPublicKey
rotate_at now k = record k { status = KeyStatus.rotated; rotated_at = some now }

abbrev pub rotate_keys : ℕ → ℕ → Db → Db
rotate_keys user_id now db = record db {
  public_keys = update_where (is_active_of user_id) (rotate_at now) db.public_keys;
}

abbrev pub new_key : ℕ → ℕ → String → ℕ → ℕ → UserPublicKey
new_key id user_id public_key_raw key_version now = record {
  id = id;
  user_id = user_id;
  public_key = public_key_raw;
  key_version = key_version;
  status = KeyStatus.active;
  registered_at = now;
  rotated_at = none;
  revoked_at = none;
  created_at = now;
}

abbrev pub with_key : UserPublicKey → Db → Db
with_key k db = record db { public_keys = db.public_keys ++ k ∷ [] }

unfoldable pub register_key : User → String → ℕ → ℕ → ℕ → Action UserPublicKey
register_key user public_key_raw key_version key_id now = do
  modify (rotate_keys user.id now)
  modify (with_key (new_key key_id user.id public_key_raw key_version now))
  pure (new_key key_id user.id public_key_raw key_version now)

unfoldable pub get_active_key_for_user : ℕ → Action UserPublicKey
get_active_key_for_user user_id = do
  rows ← gets (λ db. select (is_active_of user_id) db.public_keys)
  row ← scalar_one_or_none rows
  or_raise row Error.public_key_not_found

unfoldable pub list_keys_for_user : ℕ → Action (List UserPublicKey)
list_keys_for_user user_id =
    gets λ db. order_by_desc (λ k. k.created_at) (select (λ k. k.user_id == user_id) db.public_keys)

abbrev pub revoke_at : ℕ → UserPublicKey → UserPublicKey
revoke_at now k = record k { status = KeyStatus.revoked; revoked_at = some now }

abbrev pub set_key : ℕ → (UserPublicKey → UserPublicKey) → Db → Db
set_key key_id f db = record db {
  public_keys = update (λ (k : UserPublicKey). k.id) key_id f db.public_keys;
}

unfoldable pub revoke_key : User → ℕ → ℕ → Action UserPublicKey
revoke_key caller key_id now = do
  found ← gets (λ db. find (λ (k : UserPublicKey). k.id) key_id db.public_keys)
  row ← or_raise found Error.key_ownership
  raise_if (not (row.user_id == caller.id)) Error.key_ownership
  modify (if is_not_revoked row.status then set_key key_id (revoke_at now) else (λ db. db))
  pure (if is_not_revoked row.status then revoke_at now row else row)
