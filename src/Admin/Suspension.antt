-- ===== src/Admin/Suspension.antt =====
-- `get_current_user` and `login` after a suspension.
use marketplace_invite_only.Common.{
  ◌≡◌, ◌≢◌, refl, ℕ, Bool, true, false, not, ◌||◌, Option, none, some, List, [], ◌∷◌, String, ◌==◌,
  is_some, Bool-cases, Option-cases, inl, inr, if◌then◌else◌, arith,
}
use mathlib.Core.Path.{subst}
use marketplace_invite_only.Common.Tables.{
  All, All-find, find, find_key, select, update, update_where,
}
use marketplace_invite_only.Common.Rows.{All-select}
use marketplace_invite_only.Models.{is_suspended, User, Db}
use marketplace_invite_only.Session.{
  Error, Result, ok, err, is_ok, gets, or_raise, scalar_one_or_none, raise_if, modify, ◌>>=◌,
}
use marketplace_invite_only.Session.Transaction.{serve, ◌>>=◌ as ◌>>>=◌}
use marketplace_invite_only.Auth.Security.{
  Security, AccessTokenPayload, jwt_verification_keys, decode_with, decode_keys,
  decode_access_token, find_live_user, get_current_user,
}
use marketplace_invite_only.Auth.Accounts.{TokenDraws, LoginResponse, has_email, set_user, login}
use marketplace_invite_only.Admin.Actions.{get_live_user, suspend_at, suspend_user}

-- Every row with the id is suspended.
abbrev is_out : ℕ → User → Bool
is_out user_id u = not (u.id == user_id) || is_suspended u.status

suspended-All :
    (user_id now : ℕ) (reason : String) (us : List User)
    → All (λ u. is_out user_id u ≡ true) (update (λ u. u.id) user_id (suspend_at now reason) us)
unfolding update_where
suspended-All user_id now reason [] = tt
suspended-All user_id now reason (u ∷ us) = (
  elim (Bool-cases (u.id == user_id)) [ inl e ↦ ground (arith, e) | inr e ↦ ground (arith, e) ],
  suspended-All user_id now reason us,
)

pub suspend_user-db :
    (user_id now : ℕ) (reason : String) (db : Db)
    → is_ok (suspend_user user_id reason now db).0 ≡ true
    → (suspend_user user_id reason now db).1 ≡ set_user user_id (suspend_at now reason) db
unfolding suspend_user get_live_user ◌>>=◌
suspend_user-db user_id now reason db done =
    elim (Option-cases (find (λ (u : User). u.id) user_id db.users)) [
      | inl e ↦ absurd (ground (arith, e, done))
      | inr (u, e) ↦ ground (arith, e, done, find_key (λ (u : User). u.id) user_id db.users e)
    ]

decode_with-reads :
    (security : Security) (token now : ℕ) (keys : List ℕ) (db : Db)
    → (decode_with security token now keys db).1 ≡ db
unfolding decode_with ◌>>=◌
decode_with-reads security token now [] db = refl
decode_with-reads security token now (k ∷ keys) db =
    ground (arith, decode_with-reads security token now keys db)

decode_access_token-reads :
    (security : Security) (token now : ℕ) (keys : List ℕ) (db : Db)
    → (decode_keys security token now keys db).1 ≡ db
unfolding decode_keys ◌>>=◌
decode_access_token-reads security token now [] db = refl
decode_access_token-reads security token now (k ∷ keys) db =
    decode_with-reads security token now (k ∷ keys) db

abbrev pub NotBy : ℕ → Result User → Type 0
NotBy user_id (ok u) = u.id ≢ user_id
NotBy user_id (err e) = Unit

abbrev pub NotFor : ℕ → Result LoginResponse → Type 0
NotFor user_id (ok r) = r.user_id ≢ user_id
NotFor user_id (err e) = Unit

-- The end of `get_current_user`, on what it found.
admitted : Option User → Result User
admitted none = err Error.authentication
admitted (some u) =
    if not u.is_active || is_some u.disabled_at || is_suspended u.status
    then err Error.authentication
    else ok u

get_current_user-admitted :
    (security : Security) (token now : ℕ) (db : Db) (p : AccessTokenPayload)
    → (decode_access_token security token now db).0 ≡ ok p
    → (get_current_user security (some token) now db).0 ≡ admitted (find_live_user p.sub db)
unfolding admitted get_current_user decode_access_token ◌>>=◌
get_current_user-admitted security token now db p e =
    ground
      (arith, e, decode_access_token-reads security token now (jwt_verification_keys security) db)

get_current_user-refused :
    (security : Security) (token now : ℕ) (db : Db) (e : Error)
    → (decode_access_token security token now db).0 ≡ err e
    → is_ok (get_current_user security (some token) now db).0 ≡ false
unfolding get_current_user decode_access_token ◌>>=◌
get_current_user-refused security token now db e h = ground (arith, h)

refused-NotBy : (user_id : ℕ) (r : Result User) → is_ok r ≡ false → NotBy user_id r
refused-NotBy user_id (ok u) h = absurd (ground arith)
refused-NotBy user_id (err e) h = tt

admitted-NotBy :
    (user_id : ℕ) (o : Option User)
    → ((u : User) → o ≡ some u → is_out user_id u ≡ true)
    → NotBy user_id (admitted o)
unfolding admitted
admitted-NotBy user_id none h = tt
admitted-NotBy user_id (some u) h =
    elim (Bool-cases (not u.is_active || is_some u.disabled_at || is_suspended u.status)) [
      | inl e ↦ rw e tt
      | inr e ↦ rw e (ground (arith, h u refl, e))
    ]

find_live_user-out :
    (user_id sub : ℕ) (db : Db) (u : User)
    → All (λ u. is_out user_id u ≡ true) db.users
    → find_live_user sub db ≡ some u
    → is_out user_id u ≡ true
find_live_user-out user_id sub db u a h =
    elim (Option-cases (find (λ (u : User). u.id) sub db.users)) [
      | inl e ↦ absurd (ground (arith, e, h))
      | inr (v, e) ↦
          let out : is_out user_id v ≡ true =
            All-find (λ u. is_out user_id u ≡ true) (λ (u : User). u.id) sub db.users e a in
          ground (arith, e, h, out)
    ]

current-NotBy :
    (security : Security) (token now user_id : ℕ) (db : Db) (r : Result AccessTokenPayload)
    → All (λ u. is_out user_id u ≡ true) db.users
    → (decode_access_token security token now db).0 ≡ r
    → NotBy user_id (get_current_user security (some token) now db).0
current-NotBy security token now user_id db (err e) a h =
    refused-NotBy user_id _ (get_current_user-refused security token now db e h)
current-NotBy security token now user_id db (ok p) a h =
    rw (get_current_user-admitted security token now db p h) (
      admitted-NotBy user_id (find_live_user p.sub db) λ u. find_live_user-out user_id p.sub db u a)

login-NotFor :
    (security : Security) (email password salt user_id : ℕ) (device_label : Option String)
    (draws : TokenDraws) (db : Db) (rows : List User)
    → All (λ u. is_out user_id u ≡ true) db.users
    → select (has_email email) db.users ≡ rows
    → NotFor user_id (serve (login security email password device_label salt draws) db).0
unfolding login gets or_raise scalar_one_or_none raise_if modify ◌>>>=◌
login-NotFor security email password salt user_id device_label draws db [] a h = rw h tt
login-NotFor security email password salt user_id device_label draws db (u ∷ v ∷ rows) a h = rw h tt
login-NotFor security email password salt user_id device_label draws db (u ∷ []) a h =
    let kept : All (λ u. (is_out user_id u ≡ true) × (has_email email u ≡ true)) (u ∷ []) =
      subst (All (λ u. (is_out user_id u ≡ true) × (has_email email u ≡ true))) h
        (All-select (λ u. is_out user_id u ≡ true) (has_email email) db.users a) in
    ground (arith, h, kept.0.0)

-- In the database that a suspension leaves, `get_current_user` returns the suspended user for no access
-- token, and `login` gives out no tokens for that user, with whatever email address or password. The
-- condition is that the suspension returns.
pub suspend_user-refused :
    (security : Security) (user_id now later token email password salt : ℕ) (reason : String)
    (device_label : Option String) (draws : TokenDraws) (db : Db)
    → is_ok (suspend_user user_id reason now db).0 ≡ true
    → let after = (suspend_user user_id reason now db).1 in
      NotBy user_id (get_current_user security (some token) later after).0
      × NotFor user_id (serve (login security email password device_label salt draws) after).0
suspend_user-refused security user_id now later token email password salt reason device_label draws
      db done =
    let after = set_user user_id (suspend_at now reason) db in
    let out = suspended-All user_id now reason db.users in
    rw (suspend_user-db user_id now reason db done) (
      current-NotBy security token later user_id after _ out refl,
      login-NotFor security email password salt user_id device_label draws after _ out refl,
    )
