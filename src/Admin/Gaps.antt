-- ===== src/Admin/Gaps.antt =====
-- What a suspension, and disabling a product, leave possible.
use marketplace_invite_only.Common.{
  ◌≡◌, refl, ℕ, true, String, is_some, ==-refl, Option-cases, inl, inr, arith,
}
use marketplace_invite_only.Common.Tables.{find, find-update, find_key}
use marketplace_invite_only.Models.{UserRole, User, Product, Db}
use marketplace_invite_only.Session.{is_ok, gets, or_raise, raise_if, modify, ◌>>=◌}
use marketplace_invite_only.Session.Transaction.{serve, ◌>>=◌ as ◌>>>=◌}
use marketplace_invite_only.Auth.Security.{Security, find_live_user}
use marketplace_invite_only.Auth.Accounts.{TokenDraws, set_user}
use marketplace_invite_only.Auth.Sessions.{
  find_token_hash, usable_user, revoke_family, rotate, refresh,
}
use marketplace_invite_only.Orders.Loading.{get_caller_seller}
use marketplace_invite_only.Catalog.Products.{
  ensure_own_product, find_product, load_live_product, ensure_product_visible,
  get_product_for_caller,
}
use marketplace_invite_only.Admin.Actions.{
  suspend_at, suspend_user, get_live_product, set_product, disable_at, disable_product,
}
use marketplace_invite_only.Admin.Suspension.{suspend_user-db}

find_live_user-suspended :
    (user_id sub now : ℕ) (reason : String) (db : Db)
    → is_some (usable_user (find_live_user sub (set_user user_id (suspend_at now reason) db)))
      ≡ is_some (usable_user (find_live_user sub db))
find_live_user-suspended user_id sub now reason db =
    let found =
      find-update (λ (u : User). u.id) sub user_id (suspend_at now reason) db.users (λ u. refl) in
    elim (Option-cases (find (λ (u : User). u.id) sub db.users)) [
      | inl e ↦ ground (arith, e, found)
      | inr (u, e) ↦ ground (arith, e, found)
    ]

-- Whether a refresh token is good does not change when its user is suspended: the refresh still
-- returns exactly if it would have before.
pub suspend_user-refresh :
    (security : Security) (user_id now plaintext later : ℕ) (reason : String) (draws : TokenDraws)
    (db : Db)
    → is_ok (suspend_user user_id reason now db).0 ≡ true
    → is_ok
        (serve (refresh security plaintext later draws) (suspend_user user_id reason now db).1).0
      ≡ is_ok (serve (refresh security plaintext later draws) db).0
unfolding refresh revoke_family rotate gets or_raise raise_if modify ◌>>>=◌
suspend_user-refresh security user_id now plaintext later reason draws db done =
    rw (suspend_user-db user_id now reason db done)
      (elim (Option-cases (find_token_hash (security.sha256 plaintext) db)) [
        | inl e ↦ ground (arith, e)
        | inr (row, e) ↦
            ground (arith, e, find_live_user-suspended user_id row.user_id now reason db)
      ])

visible-disabled :
    (role : UserRole) (caller : User) (now : ℕ) (reason : String) (product_id : ℕ) (p : Product)
    (db : Db)
    → is_ok
        (ensure_product_visible role caller
          (disable_at now reason p)
          (set_product product_id (disable_at now reason) db)).0
      ≡ is_ok (ensure_product_visible role caller p db).0
unfolding ensure_product_visible ensure_own_product get_caller_seller ◌>>=◌
visible-disabled UserRole.admin caller now reason product_id p db = refl
visible-disabled UserRole.seller caller now reason product_id p db = ground arith
visible-disabled UserRole.customer caller now reason product_id p db = ground arith
visible-disabled UserRole.driver caller now reason product_id p db = refl

-- Disabling a product hides it from no one: each caller can open it exactly if it was open to the
-- caller before.
pub disable_product-get_product_for_caller :
    (caller : User) (product_id now : ℕ) (reason : String) (db : Db)
    → is_ok (disable_product product_id reason now db).0 ≡ true
    → is_ok
        (get_product_for_caller caller product_id (disable_product product_id reason now db).1).0
      ≡ is_ok (get_product_for_caller caller product_id db).0
unfolding disable_product get_live_product get_product_for_caller load_live_product ◌>>=◌
disable_product-get_product_for_caller caller product_id now reason db done =
    let found =
      find-update (λ (p : Product). p.id) product_id product_id (disable_at now reason) db.products
        (λ p. refl) in
    elim (Option-cases (find_product product_id db)) [
      | inl e ↦ absurd (ground (arith, e, done))
      | inr (p, e) ↦
          let at : p.id ≡ product_id = find_key (λ (p : Product). p.id) product_id db.products e in
          ground (
            arith,
            e,
            at,
            found,
            done,
            ==-refl product_id,
            visible-disabled caller.role caller now reason product_id p db,
          )
    ]
