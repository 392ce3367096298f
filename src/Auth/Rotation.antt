-- ===== src/Auth/Rotation.antt =====
-- Refresh tokens of auth_service.py through `refresh` and `logout_all`.
use marketplace_invite_only.Common.{
  ◌≡◌, refl, sym, ap, ℕ, ◌+◌, ◌≤◌, true, none, some, ◌==◌, is_some, ==-refl, Option-cases, inl, inr,
  if◌then◌else◌, arith,
}
use mathlib.Core.Path.{subst}
use marketplace_invite_only.Common.Tables.{find, find_key, find-append}
use marketplace_invite_only.Common.Writes.{find-none-update_where, find-update_where}
use marketplace_invite_only.Models.{User, RefreshToken, Db}
use marketplace_invite_only.Session.{
  Error, ok, err, is_ok, Returns, gets, or_raise, raise_if, modify,
}
use marketplace_invite_only.Session.Transaction.{serve, ◌>>=◌}
use marketplace_invite_only.Orders.Retention.{days}
use marketplace_invite_only.Auth.Security.{Security, find_live_user}
use marketplace_invite_only.Auth.Accounts.{TokenDraws, with_refresh_token}
use marketplace_invite_only.Auth.Sessions.{
  is_active_token, revoke_token, revoke_all, find_token_hash, set_token, usable_user, use_token,
  next_token, RefreshResponse, refresh_response, revoke_family, rotate, refresh, logout_all,
}

module _ (security : Security) where
  refresh-family :
      (plaintext now : ℕ) (draws : TokenDraws) (row : RefreshToken) (db : Db)
      → find_token_hash (security.sha256 plaintext) db ≡ some row
      → is_some row.revoked_at ≡ true
      → serve (refresh security plaintext now draws) db
        ≡ (err Error.token_reused, revoke_all row.user_id now db)
  unfolding refresh revoke_family gets or_raise modify ◌>>=◌
  refresh-family plaintext now draws row db found revoked = ground (arith, found, revoked)

  -- What a refresh that returns has found and left.
  abbrev Rotated : ℕ → ℕ → TokenDraws → Db → Type 0
  Rotated plaintext now draws db =
      (row : RefreshToken) × (user : User) × (find_token_hash (security.sha256 plaintext) db
        ≡ some row)
      × (find_live_user row.user_id db ≡ some user)
      × (usable_user (some user) ≡ some user)
      × ((serve (refresh security plaintext now draws) db).1
          ≡ with_refresh_token (next_token security row user.id now draws)
              (set_token row.id (use_token now) db))

  refresh-Rotated :
      (plaintext now : ℕ) (draws : TokenDraws) (db : Db)
      → is_ok (serve (refresh security plaintext now draws) db).0 ≡ true
      → Rotated plaintext now draws db
  unfolding refresh revoke_family rotate gets or_raise raise_if modify ◌>>=◌
  refresh-Rotated plaintext now draws db done =
      elim (Option-cases (find_token_hash (security.sha256 plaintext) db)) [
        | inl e ↦ absurd (ground (arith, e, done))
        | inr (row, e) ↦ elim (Option-cases (find_live_user row.user_id db)) [
          | inl f ↦ absurd (ground (arith, e, f, done))
          | inr (user, f) ↦
              (row, user, e, f, ground (arith, e, f, done), ground (arith, e, f, done))
        ]
      ]

  abbrev rotated : RefreshToken → ℕ → ℕ → TokenDraws → Db → Db
  rotated row user_id now draws db =
      with_refresh_token (next_token security row user_id now draws)
        (set_token row.id (use_token now) db)

  find_old-rotated :
      (h user_id now : ℕ) (draws : TokenDraws) (row : RefreshToken) (db : Db)
      → find_token_hash h db ≡ some row
      → find_token_hash h (rotated row user_id now draws db) ≡ some (use_token now row)
  find_old-rotated h user_id now draws row db found =
      let kept : find_token_hash h (set_token row.id (use_token now) db)
          ≡ some (use_token now row) =
        subst
          (λ b.
            find_token_hash h (set_token row.id (use_token now) db)
            ≡ some (if b then use_token now row else row))
          (==-refl row.id)
          (find-update_where (λ (t : RefreshToken). t.token_hash) (λ t. t.id == row.id)
            (use_token now) (λ t. refl) h db.refresh_tokens row found) in
      rw
        (
          find-append (λ (t : RefreshToken). t.token_hash) h
              (set_token row.id (use_token now) db).refresh_tokens
              (next_token security row user_id now draws),
          kept,
        )
        refl

  find_new-rotated :
      (user_id now : ℕ) (draws : TokenDraws) (row : RefreshToken) (db : Db)
      → find_token_hash (security.sha256 draws.plaintext) db ≡ none
      → find_token_hash (security.sha256 draws.plaintext) (rotated row user_id now draws db)
        ≡ some (next_token security row user_id now draws)
  find_new-rotated user_id now draws row db fresh =
      let h = security.sha256 draws.plaintext in
      let absent : find_token_hash h (set_token row.id (use_token now) db) ≡ none =
        find-none-update_where (λ (t : RefreshToken). t.token_hash) (λ t. t.id == row.id)
          (use_token now) (λ t. refl) h db.refresh_tokens fresh in
      rw
        (
          find-append (λ (t : RefreshToken). t.token_hash) h
              (set_token row.id (use_token now) db).refresh_tokens
              (next_token security row user_id now draws),
          absent,
          ==-refl h,
        )
        refl

  find_live_user-id :
      (user_id : ℕ) (user : User) (db : Db)
      → find_live_user user_id db ≡ some user
      → user.id ≡ user_id
  find_live_user-id user_id user db e =
      elim (Option-cases (find (λ (u : User). u.id) user_id db.users)) [
        | inl f ↦ absurd (ground (arith, e, f))
        | inr (u, f) ↦ ground (arith, e, f, find_key (λ (u : User). u.id) user_id db.users f)
      ]

  -- A token of a user is revoked in a database where all tokens of the user are.
  revoke_all-refresh :
      (plaintext now later : ℕ) (draws : TokenDraws) (row : RefreshToken) (db : Db)
      → find_token_hash (security.sha256 plaintext) db ≡ some row
      → (serve (refresh security plaintext later draws) (revoke_all row.user_id now db)).0
        ≡ err Error.token_reused
  revoke_all-refresh plaintext now later draws row db found =
      let kept =
        find-update_where (λ (t : RefreshToken). t.token_hash) (is_active_token row.user_id)
          (revoke_token now) (λ t. refl) (security.sha256 plaintext) db.refresh_tokens row found in
      elim (Option-cases row.revoked_at) [
        | inl e ↦
            ap (λ r. r.0)
              (refresh-family plaintext later draws (revoke_token now row)
                (revoke_all row.user_id now db) (ground (arith, kept, e, ==-refl row.user_id)) refl)
        | inr (at, e) ↦
            ap (λ r. r.0)
              (refresh-family plaintext later draws row (revoke_all row.user_id now db)
                (ground (arith, kept, e, ==-refl row.user_id)) (ground (arith, e)))
      ]

  -- A token that was refreshed is refused when it is presented again, and then the token that the
  -- refresh gave out is refused as well. The hash of the new token was not in use.
  pub refresh-refresh :
      (plaintext now later last : ℕ) (draws draws' draws'' : TokenDraws) (db : Db)
      → is_ok (serve (refresh security plaintext now draws) db).0 ≡ true
      → find_token_hash (security.sha256 draws.plaintext) db ≡ none
      → let once = (serve (refresh security plaintext now draws) db).1 in
        let twice = serve (refresh security plaintext later draws') once in
        (twice.0 ≡ err Error.token_reused)
        × ((serve (refresh security draws.plaintext last draws'') twice.1).0
            ≡ err Error.token_reused)
  refresh-refresh plaintext now later last draws draws' draws'' db done fresh =
      let (row, user, found, live, usable, left) = refresh-Rotated plaintext now draws db done in
      let same : user.id ≡ row.user_id = find_live_user-id row.user_id user db live in
      let once = rotated row user.id now draws db in
      let all : serve (refresh security plaintext later draws') once
          ≡ (err Error.token_reused, revoke_all row.user_id later once) =
        refresh-family plaintext later draws' (use_token now row) once
          (find_old-rotated (security.sha256 plaintext) user.id now draws row db found) refl in
      let third =
        revoke_all-refresh draws.plaintext later last draws''
          (next_token security row user.id now draws) once
          (find_new-rotated user.id now draws row db fresh) in
      rw (left, all) (refl, rw (sym same) third)

  refresh_response-Rotated :
      (plaintext now : ℕ) (draws : TokenDraws) (db : Db)
      → is_ok (serve (refresh security plaintext now draws) db).0 ≡ true
      → (user : User) × ((serve (refresh security plaintext now draws) db).0
          ≡ ok (refresh_response security user now draws))
  unfolding refresh revoke_family rotate gets or_raise raise_if modify ◌>>=◌
  refresh_response-Rotated plaintext now draws db done =
      elim (Option-cases (find_token_hash (security.sha256 plaintext) db)) [
        | inl e ↦ absurd (ground (arith, e, done))
        | inr (row, e) ↦ elim (Option-cases (find_live_user row.user_id db)) [
          | inl f ↦ absurd (ground (arith, e, f, done))
          | inr (user, f) ↦ (user, ground (arith, e, f, done))
        ]
      ]

  drawn-alive :
      (plaintext now later : ℕ) (draws draws' : TokenDraws) (db : Db)
      → is_ok (serve (refresh security plaintext now draws) db).0 ≡ true
      → find_token_hash (security.sha256 draws.plaintext) db ≡ none
      → later ≤ now + days 7
      → is_ok
          (serve
            (refresh security draws.plaintext later draws')
            (serve (refresh security plaintext now draws) db).1).0
        ≡ true
  unfolding refresh revoke_family rotate gets or_raise raise_if modify ◌>>=◌
  drawn-alive plaintext now later draws draws' db done fresh soon =
      let (row, user, found, live, usable, left) = refresh-Rotated plaintext now draws db done in
      let same : user.id ≡ row.user_id = find_live_user-id row.user_id user db live in
      let next = find_new-rotated user.id now draws row db fresh in
      let again : find_live_user user.id db ≡ some user = rw same live in
      let once = rotated row user.id now draws db in
      rw left (ground (arith, next, again, usable, soon))

  -- The refresh token in what a refresh returns is good for another refresh, at any time in the next
  -- seven days. The hash of the token drawn was not in use.
  pub refresh-alive :
      (plaintext now later : ℕ) (draws draws' : TokenDraws) (db : Db)
      → is_ok (serve (refresh security plaintext now draws) db).0 ≡ true
      → find_token_hash (security.sha256 draws.plaintext) db ≡ none
      → later ≤ now + days 7
      → Returns
          (λ response.
            is_ok
              (serve
                (refresh security response.refresh_token later draws')
                (serve (refresh security plaintext now draws) db).1).0
            ≡ true)
          (serve (refresh security plaintext now draws) db).0
  refresh-alive plaintext now later draws draws' db done fresh soon =
      let (user, result) = refresh_response-Rotated plaintext now draws db done in
      let after = (serve (refresh security plaintext now draws) db).1 in
      subst
        (Returns (λ (response : RefreshResponse).
          is_ok (serve (refresh security response.refresh_token later draws') after).0 ≡ true))
        (sym result) (drawn-alive plaintext now later draws draws' db done fresh soon)

  -- After a caller has signed out everywhere, every token of the caller is refused.
  pub logout_all-refresh :
      (user : User) (plaintext now later : ℕ) (draws : TokenDraws) (row : RefreshToken) (db : Db)
      → find_token_hash (security.sha256 plaintext) db ≡ some row
      → row.user_id ≡ user.id
      → (serve (refresh security plaintext later draws) (serve (logout_all user now) db).1).0
        ≡ err Error.token_reused
  unfolding logout_all modify ◌>>=◌
  logout_all-refresh user plaintext now later draws row db found own =
      rw (sym own) (revoke_all-refresh plaintext now later draws row db found)
