-- ===== src/Catalog/Products.antt =====
-- The visibility rules of product_service.py and store_service.py, and `soft_delete_product`.
use marketplace_invite_only.Common.{
  ℕ, min, max, Bool, true, false, not, ◌&&◌, ◌||◌, Option, none, some, List, map, ◌==◌, is_some,
  is_none, opt_eq, if◌then◌else◌,
}
use marketplace_invite_only.Common.Tables.{order_by_desc, order_by_asc, select, find, update}
use marketplace_invite_only.Models.{
  UserRole, role_is, User, Seller, Store, Product, ProductImage, Db,
}
use marketplace_invite_only.Session.{
  Error, Action, pure, raise, gets, or_raise, raise_if, modify, ◌>>=◌, ◌>>◌,
}
use marketplace_invite_only.Orders.Loading.{get_caller_seller}
use marketplace_invite_only.Orders.Views.{take}

abbrev pub find_product : ℕ → Db → Option Product
find_product product_id db = find (λ (p : Product). p.id) product_id db.products

abbrev pub find_store : ℕ → Db → Option Store
find_store store_id db = find (λ (s : Store). s.id) store_id db.stores

-- A product with its images, in the order in which they are shown.
pub record FullProduct : Type 0 where
  pub product : Product
  pub images : List ProductImage

-- `selectinload(Product.images)`
abbrev pub images_of : ℕ → Db → List ProductImage
images_of product_id db =
    order_by_asc (λ (i : ProductImage). i.display_order)
      (select (λ i. i.product_id == product_id) db.product_images)

abbrev pub with_images_of : Db → Product → FullProduct
with_images_of db p = record { product = p; images = images_of p.id db }

-- `bool(store_pub.scalar_one_or_none())`
abbrev pub store_is_public : Option Store → Bool
store_is_public none = false
store_is_public (some s) = s.is_public

unfoldable pub load_live_product : ℕ → Action Product
load_live_product product_id = do
  found ← gets (find_product product_id)
  product ← or_raise found Error.product_not_found
  raise_if (is_some product.deleted_at) Error.product_not_found
  pure product

-- The caller's seller profile must own the product.
unfoldable pub ensure_own_product : User → Product → Action (Unit {0})
ensure_own_product caller product = do
  seller ← get_caller_seller caller
  raise_if (not (product.seller_id == seller.id)) Error.product_not_found

unfoldable pub ensure_product_visible : UserRole → User → Product → Action (Unit {0})
ensure_product_visible UserRole.admin caller product = pure tt
ensure_product_visible UserRole.seller caller product = ensure_own_product caller product
ensure_product_visible UserRole.customer caller product = do
  store ← gets (find_store product.store_id)
  raise_if
      (not (store_is_public store) && not (opt_eq caller.referring_seller_id product.seller_id))
      Error.product_not_found
ensure_product_visible UserRole.driver caller product = raise Error.product_not_found

unfoldable pub get_product_for_caller : User → ℕ → Action FullProduct
get_product_for_caller caller product_id = do
  product ← load_live_product product_id
  ensure_product_visible caller.role caller product
  gets (λ db. with_images_of db product)

unfoldable pub ensure_may_change : UserRole → User → Product → Action (Unit {0})
ensure_may_change UserRole.admin caller product = pure tt
ensure_may_change UserRole.seller caller product = ensure_own_product caller product
ensure_may_change _ caller product = raise Error.product_ownership

unfoldable pub soft_delete_product : User → ℕ → ℕ → Action (Unit {0})
soft_delete_product caller product_id now = do
  product ← load_live_product product_id
  ensure_may_change caller.role caller product
  modify (λ db. record db {
    products =
        update (λ (p : Product). p.id) product.id
          (λ p. record p { deleted_at = some now; is_active = false }) db.products;
  })

abbrev pub keeps : Option ℕ → ℕ → Bool
keeps none n = true
keeps (some m) n = m == n

-- `JOIN stores`, with the store not deleted
abbrev pub joined_store : ℕ → Db → Option Store
joined_store store_id db = elim (find_store store_id db) [
  | none ↦ none
  | some s ↦ if is_some s.deleted_at then none else some s
]

-- The customer's part of the WHERE clause.
abbrev pub offered_to : Option ℕ → Db → Product → Bool
offered_to referring db p = elim (joined_store p.store_id db) [
  | none ↦ false
  | some s ↦ opt_eq referring p.seller_id || s.is_public
]

-- The rows that `list_products_for_caller` selects, for the seller profile of a seller.
unfoldable pub product_listed : UserRole → Option ℕ → Option ℕ → Option ℕ → ℕ → Db → Product → Bool
product_listed UserRole.admin referring store_id seller_id own db p =
    keeps store_id p.store_id && keeps seller_id p.seller_id
product_listed UserRole.seller referring store_id seller_id own db p =
    p.seller_id == own && keeps store_id p.store_id
product_listed UserRole.customer referring store_id seller_id own db p =
    offered_to referring db p && (keeps seller_id p.seller_id && keeps store_id p.store_id)
product_listed UserRole.driver referring store_id seller_id own db p = false

-- The id of the caller's seller profile, for a seller; no other role reads it.
unfoldable pub own_seller_id : UserRole → User → Action ℕ
own_seller_id UserRole.seller caller = do seller ← get_caller_seller caller; pure seller.id
own_seller_id _ caller = pure 0

unfoldable pub list_products_for_caller : User → Option ℕ → Option ℕ → ℕ → Action (List FullProduct)
list_products_for_caller caller store_id seller_id limit = do
  own ← own_seller_id caller.role caller
  gets (λ db. map (with_images_of db) (
      take (min (max limit 1) 100) (
        order_by_desc (λ p. p.created_at)
          (select
            (λ p.
              is_none p.deleted_at
              && (p.is_active
                  && product_listed caller.role caller.referring_seller_id store_id seller_id own db
                      p))
            db.products))))

-- `get_store_for_caller`: the checks after the store and its seller are loaded.
unfoldable pub ensure_store_visible : UserRole → User → Store → Seller → Action (Unit {0})
ensure_store_visible UserRole.admin caller store seller = pure tt
ensure_store_visible UserRole.seller caller store seller =
    raise_if (not (seller.user_id == caller.id)) Error.store_not_found
ensure_store_visible UserRole.customer caller store seller =
    raise_if (not store.is_public && not (opt_eq caller.referring_seller_id seller.id))
      Error.not_found
ensure_store_visible UserRole.driver caller store seller = raise Error.store_not_found

unfoldable pub get_store_for_caller : User → ℕ → Action (Store × Seller)
get_store_for_caller caller store_id = do
  found ← gets (find_store store_id)
  store ← or_raise found Error.store_not_found
  raise_if (is_some store.deleted_at && not (role_is caller.role UserRole.admin))
      Error.store_not_found
  owner ← gets (λ db. find (λ (s : Seller). s.id) store.seller_id db.sellers)
  seller ← or_raise owner Error.assertion
  ensure_store_visible caller.role caller store seller
  pure (store, seller)
