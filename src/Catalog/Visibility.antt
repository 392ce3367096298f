-- ===== src/Catalog/Visibility.antt =====
-- The list of products against the access to a single product.
use marketplace_invite_only.Common.{
  ◌≡◌, refl, ℕ, min, max, true, false, ◌&&◌, Option, some, is_none, Option-cases, inl, inr, ◌⊎◌,
  arith,
}
use marketplace_invite_only.Common.Tables.{
  All, All-map, IsUnique, find, order_by_desc, select, select-IsRow,
}
use marketplace_invite_only.Common.Rows.{All-order_by_desc}
use marketplace_invite_only.Models.{UserRole, User, Seller, Product, Db}
use marketplace_invite_only.Session.{ok, is_ok, Returns, ◌>>=◌}
use marketplace_invite_only.Orders.Loading.{live_seller, get_caller_seller}
use marketplace_invite_only.Orders.Views.{take}
use marketplace_invite_only.Orders.Privacy.{All-take, All-of_map}
use marketplace_invite_only.Catalog.Products.{
  with_images_of, find_product, find_store, load_live_product, ensure_own_product,
  ensure_product_visible, get_product_for_caller, product_listed, own_seller_id,
  list_products_for_caller,
}

-- `own` is the id of the seller profile of a caller who is a seller.
abbrev Owns : UserRole → User → ℕ → Db → Type 0
Owns UserRole.seller caller own db =
    (s : Seller) × (live_seller (find (λ (s : Seller). s.user_id) caller.id db.sellers) ≡ some s)
    × (s.id ≡ own)
Owns _ caller own db = Unit

own_seller_id-cases :
    (role : UserRole) (caller : User) (db : Db)
    → (is_ok (own_seller_id role caller db).0 ≡ false)
      ⊎ ((own : ℕ) × (own_seller_id role caller db ≡ (ok own, db)) × Owns role caller own db)
unfolding own_seller_id get_caller_seller ◌>>=◌
own_seller_id-cases UserRole.admin caller db = inr (0, refl, tt)
own_seller_id-cases UserRole.customer caller db = inr (0, refl, tt)
own_seller_id-cases UserRole.driver caller db = inr (0, refl, tt)
own_seller_id-cases UserRole.seller caller db =
    elim (Option-cases (live_seller (find (λ (s : Seller). s.user_id) caller.id db.sellers))) [
      | inl e ↦ inl (ground (arith, e))
      | inr (s, e) ↦ inr (s.id, ground (arith, e), (s, e, refl))
    ]

ensure_product_visible-listed :
    (role : UserRole) (caller : User) (store_id seller_id : Option ℕ) (own : ℕ) (db : Db)
    (p : Product)
    → Owns role caller own db
    → product_listed role caller.referring_seller_id store_id seller_id own db p ≡ true
    → ensure_product_visible role caller p db ≡ (ok tt, db)
unfolding product_listed ensure_product_visible ensure_own_product get_caller_seller ◌>>=◌
ensure_product_visible-listed UserRole.admin caller store_id seller_id own db p o l = refl
ensure_product_visible-listed UserRole.seller caller store_id seller_id own db p (s, e, same) l =
    ground (arith, e, same, l)
ensure_product_visible-listed UserRole.customer caller store_id seller_id own db p o l =
    elim (Option-cases (find_store p.store_id db)) [
      | inl n ↦ absurd (ground (arith, n, l))
      | inr (s, f) ↦ ground (arith, f, l)
    ]
ensure_product_visible-listed UserRole.driver caller store_id seller_id own db p o l =
    absurd (ground arith)

get-visible :
    (caller : User) (db : Db) (p : Product)
    → find_product p.id db ≡ some p
    → is_none p.deleted_at ≡ true
    → ensure_product_visible caller.role caller p db ≡ (ok tt, db)
    → get_product_for_caller caller p.id db ≡ (ok (with_images_of db p), db)
unfolding get_product_for_caller load_live_product ◌>>=◌
get-visible caller db p found live visible = ground (arith, found, live, visible)

listed_rows :
    (P : Product → Type 0) (caller : User) (store_id seller_id : Option ℕ) (own limit : ℕ) (db : Db)
    → IsUnique (λ (p : Product). p.id) db.products
    → ((p : Product)
        → find_product p.id db ≡ some p
        → is_none p.deleted_at ≡ true
        → product_listed caller.role caller.referring_seller_id store_id seller_id own db p ≡ true
        → P p)
    → All P (
        take (min (max limit 1) 100) (
          order_by_desc
            (λ p. p.created_at)
            (select
              (λ p.
                is_none p.deleted_at
                && (p.is_active
                    && product_listed caller.role caller.referring_seller_id store_id seller_id own
                        db p))
              db.products)))
listed_rows P caller store_id seller_id own limit db u h =
    let shown = λ (p : Product).
      is_none p.deleted_at
      && (p.is_active
          && product_listed caller.role caller.referring_seller_id store_id seller_id own db p) in
    All-take P (min (max limit 1) 100) _ (
      All-order_by_desc (λ p. p.created_at) P _
        (All-map (λ p row. h p row.0 (ground (arith, row.1)) (ground (arith, row.1))) _
          (select-IsRow (λ (p : Product). p.id) shown db.products u)))

-- When the list of products returns, each product on it is one that the same caller can open, and the
-- call for that single product returns the very same, images included. The conditions are that the list returns (it
-- raises for a seller without a profile) and that the ids of the products are unique.
pub list_products_for_caller-get_product_for_caller :
    (caller : User) (store_id seller_id : Option ℕ) (limit : ℕ) (db : Db)
    → IsUnique (λ (p : Product). p.id) db.products
    → is_ok (list_products_for_caller caller store_id seller_id limit db).0 ≡ true
    → Returns
        (All (λ p. get_product_for_caller caller p.product.id db ≡ (ok p, db)))
        (list_products_for_caller caller store_id seller_id limit db).0
unfolding list_products_for_caller ◌>>=◌
list_products_for_caller-get_product_for_caller caller store_id seller_id limit db u done =
    elim (own_seller_id-cases caller.role caller db) [
      | inl e ↦ absurd (ground (arith, e, done))
      | inr (own, e, owns) ↦ rw e (
          All-of_map (λ p. get_product_for_caller caller p.product.id db ≡ (ok p, db))
            (with_images_of db) _
            (listed_rows
              (λ p. get_product_for_caller caller p.id db ≡ (ok (with_images_of db p), db)) caller
              store_id seller_id own limit db u
              λ p found live listed. get-visible caller db p found live (
                ensure_product_visible-listed caller.role caller store_id seller_id own db p owns
                  listed)))
    ]
