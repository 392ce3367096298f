-- ===== src/Orders/Effects/Loading.antt =====
-- The effects of the loaders and guards.
use marketplace_invite_only.Common.{◌≡◌, ℕ, false, not, ◌&&◌, some, ◌==◌, is_some}
use marketplace_invite_only.Models.{UserRole, role_is, User, Order, Seller, Db}
use marketplace_invite_only.Session.{Action, ◌>>=◌}
use marketplace_invite_only.Session.Rules.{
  after_assoc, after_pure_bind, after_raise_if, after_or_raise, after_gets, after_or_raise_only,
}
use marketplace_invite_only.Orders.Loading.{
  find_order, load_order_full, reload, lock_order_or_404, load_order_locked, get_caller_seller,
}

-- What `lock_order_or_404` has checked of the order that it returns.
pub record Locked (caller : User) (order_id : ℕ) (db : Db) (o : Order) : Type 0 where
  pub found : find_order order_id db ≡ some o
  pub live : is_some o.deleted_at ≡ false
  pub own_seller : (role_is caller.role UserRole.seller && not (o.seller_id == caller.id)) ≡ false
  pub own_customer :
      (role_is caller.role UserRole.customer && not (o.customer_id == caller.id)) ≡ false

module _ {ℓ} (P : Db → Type ℓ) where
  pub after_reload : (order_id : ℕ) (db : Db) → P db → P (reload order_id db).1
  unfolding reload load_order_full
  after_reload order_id db p = after_gets P _ _ _ (after_or_raise_only P _ _ _ p)

  pub after_lock :
      {A : Type 0} (caller : User) (order_id : ℕ) (f : Order → Action A) (db : Db)
      → P db
      → ((o : Order) → Locked caller order_id db o → P (f o db).1)
      → P ((lock_order_or_404 order_id caller >>= f) db).1
  unfolding lock_order_or_404 load_order_locked
  after_lock caller order_id f db p q = after_assoc P _ _ _ _ (
      after_gets P _ _ _ (
        after_assoc P _ _ _ _ (
          after_or_raise P _ _ _ _ p λ o found. after_assoc P _ _ _ _ (
            after_raise_if P _ _ _ _ p λ live. after_assoc P _ _ _ _ (
              after_raise_if P _ _ _ _ p λ own_seller. after_assoc P _ _ _ _ (
                after_raise_if P _ _ _ _ p λ own_customer. after_pure_bind P _ _ _ (
                  q o (record {
                    found = found;
                    live = live;
                    own_seller = own_seller;
                    own_customer = own_customer;
                  }))))))))

  pub after_caller_seller :
      {A : Type 0} (caller : User) (f : Seller → Action A) (db : Db)
      → P db
      → ((s : Seller) → P (f s db).1)
      → P ((get_caller_seller caller >>= f) db).1
  unfolding get_caller_seller
  after_caller_seller caller f db p q =
      after_assoc P _ _ _ _ (after_gets P _ _ _ (after_or_raise P _ _ _ _ p λ s _. q s))
