-- ===== src/Auth/Profile.antt =====
-- auth_service.py: the caller's own row, password and notification preferences. `scalar_one` raises
-- where there is no row.
use marketplace_invite_only.Common.{
  ℕ, Bool, true, false, not, Option, none, some, [], ◌∷◌, ◌++◌, String, or_else,
}
use marketplace_invite_only.Common.Tables.{find, update}
use marketplace_invite_only.Models.{User, UserNotificationPrefs, Db}
use marketplace_invite_only.Session.{Error, gets, or_raise, raise_if, modify}
use marketplace_invite_only.Session.Transaction.{Step, act, finish, commit, ◌>>=◌, ◌>>◌}
use marketplace_invite_only.Auth.Security.{Security}
use marketplace_invite_only.Auth.Accounts.{set_user}

abbrev pub find_user : ℕ → Db → Option User
find_user user_id db = find (λ (u : User). u.id) user_id db.users

unfoldable pub get_me : User → Step User
get_me user = do found ← act (gets (find_user user.id)); act (or_raise found Error.no_result_found)

-- `if x is not None: row.x = x` on a column that may be NULL
abbrev pub given_or : Option String → Option String → Option String
given_or none old = old
given_or (some x) old = some x

abbrev pub update_profile : Option String → Option String → Option String → User → User
update_profile display_name phone avatar_url u = record u {
  display_name = or_else display_name u.display_name;
  phone = given_or phone u.phone;
  avatar_url = given_or avatar_url u.avatar_url;
}

unfoldable pub update_me : User → Option String → Option String → Option String → Step User
update_me user display_name phone avatar_url = do
  found ← act (gets (find_user user.id))
  fresh ← act (or_raise found Error.no_result_found)
  act (modify (set_user fresh.id (update_profile display_name phone avatar_url)))
  commit
  finish (update_profile display_name phone avatar_url fresh)

unfoldable pub change_password : Security → User → ℕ → ℕ → ℕ → Step (Unit {0})
change_password security user current_password new_password salt = do
  found ← act (gets (find_user user.id))
  fresh ← act (or_raise found Error.no_result_found)
  act (
      raise_if (not (security.verify_password current_password fresh.password_hash))
        Error.value_error)
  act (
      modify (
        set_user fresh.id
          (λ u. record u { password_hash = security.hash_password salt new_password })))
  commit

abbrev pub default_prefs : ℕ → UserNotificationPrefs
default_prefs user_id = record {
  user_id = user_id;
  push_enabled = true;
  email_enabled = true;
  order_updates = true;
  messages = true;
  marketing = false;
}

abbrev pub find_prefs : ℕ → Db → Option UserNotificationPrefs
find_prefs user_id db = find (λ (p : UserNotificationPrefs). p.user_id) user_id db.prefs

abbrev pub with_prefs : UserNotificationPrefs → Db → Db
with_prefs p db = record db { prefs = db.prefs ++ p ∷ [] }

abbrev pub set_prefs : ℕ → (UserNotificationPrefs → UserNotificationPrefs) → Db → Db
set_prefs user_id f db = record db {
  prefs = update (λ (p : UserNotificationPrefs). p.user_id) user_id f db.prefs;
}

unfoldable pub prefs_or_default : ℕ → Option UserNotificationPrefs → Step UserNotificationPrefs
prefs_or_default user_id (some p) = finish p
prefs_or_default user_id none = do
  act (modify (with_prefs (default_prefs user_id)))
  finish (default_prefs user_id)

unfoldable pub commit_new : Option UserNotificationPrefs → Step (Unit {0})
commit_new none = commit
commit_new (some p) = finish tt

unfoldable pub get_or_create_notification_prefs : User → Step UserNotificationPrefs
get_or_create_notification_prefs user = do
  found ← act (gets (find_prefs user.id))
  prefs ← prefs_or_default user.id found
  commit_new found
  finish prefs

-- The flags that a request gives.
pub record PrefsPatch : Type 0 where
  pub push_enabled : Option Bool
  pub email_enabled : Option Bool
  pub order_updates : Option Bool
  pub messages : Option Bool
  pub marketing : Option Bool

abbrev pub patch_prefs : PrefsPatch → UserNotificationPrefs → UserNotificationPrefs
patch_prefs patch p = record p {
  push_enabled = or_else patch.push_enabled p.push_enabled;
  email_enabled = or_else patch.email_enabled p.email_enabled;
  order_updates = or_else patch.order_updates p.order_updates;
  messages = or_else patch.messages p.messages;
  marketing = or_else patch.marketing p.marketing;
}

unfoldable pub update_notification_prefs : User → PrefsPatch → Step UserNotificationPrefs
update_notification_prefs user patch = do
  found ← act (gets (find_prefs user.id))
  prefs ← prefs_or_default user.id found
  act (modify (set_prefs user.id (patch_prefs patch)))
  commit
  finish (patch_prefs patch prefs)
