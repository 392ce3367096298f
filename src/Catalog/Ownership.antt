-- ===== src/Catalog/Ownership.antt =====
-- Who changes which product.
use marketplace_invite_only.Common.{
  ◌≡◌, ◌≢◌, refl, ℕ, Bool, true, false, ◌&&◌, Option, none, some, ◌==◌, is_none, ==-refl,
  Option-cases, inl, inr, arith,
}
use marketplace_invite_only.Common.Tables.{find, find-update, find_key, select}
use marketplace_invite_only.Models.{UserRole, User, Seller, Product, ProductImage, Db}
use marketplace_invite_only.Session.{is_ok, ◌>>=◌}
use marketplace_invite_only.Orders.Loading.{live_seller, get_caller_seller}
use marketplace_invite_only.Catalog.Products.{
  find_product, load_live_product, ensure_own_product, ensure_may_change,
}
use marketplace_invite_only.Catalog.Stores.{Text}
use marketplace_invite_only.Catalog.Changes.{
  ProductPatch, set_product_row, patch_product, patch_images, reload_product, update_product,
}
use marketplace_invite_only.Catalog.Patches.{
  IsPatched, ImagesGiven, patch_images-others, patch_images-products, patch_product-IsPatched,
  patch_images-own,
}

-- whether the caller is an admin, or a seller whose profile owns the product
abbrev pub may_change : UserRole → Option Seller → Product → Bool
may_change UserRole.admin seller p = true
may_change UserRole.seller none p = false
may_change UserRole.seller (some s) p = p.seller_id == s.id
may_change _ seller p = false

abbrev pub profile_of : User → Db → Option Seller
profile_of caller db = live_seller (find (λ (s : Seller). s.user_id) caller.id db.sellers)

update-cases :
    (text : Text) (caller : User) (product_id : ℕ) (patch : ProductPatch) (image_id : ℕ → ℕ)
    (p : Product) (db : Db)
    → find_product product_id db ≡ some p
    → is_ok (update_product text caller product_id patch image_id db).0 ≡ true
    → ((may_change caller.role (profile_of caller db) p && is_none p.deleted_at) ≡ true)
      × ((update_product text caller product_id patch image_id db).1
          ≡ patch_images image_id product_id patch.images
              (set_product_row text product_id patch db))
unfolding update_product load_live_product ensure_may_change ensure_own_product get_caller_seller
    reload_product ◌>>=◌
update-cases text caller product_id patch image_id p db found done =
    let at : p.id ≡ product_id = find_key (λ (p : Product). p.id) product_id db.products found in
    elim (Option-cases (profile_of caller db)) [
      | inl e ↦ (ground (arith, found, done, e), ground (arith, found, done, e, at))
      | inr (s, e) ↦ (ground (arith, found, done, e), ground (arith, found, done, e, at))
    ]

-- A product that is changed is live and the caller is an admin or the seller who owns it. Its row has
-- the fields that the request gives, texts trimmed, and is as before in every other column; its images
-- are those that the request names, or as before if it names none. Every other product and its images
-- stay as they were. The condition is that the call returns.
pub update_product-Owned :
    (text : Text) (caller : User) (product_id other : ℕ) (patch : ProductPatch) (image_id : ℕ → ℕ)
    (p : Product) (db : Db)
    → find_product product_id db ≡ some p
    → other ≢ product_id
    → is_ok (update_product text caller product_id patch image_id db).0 ≡ true
    → let after = (update_product text caller product_id patch image_id db).1 in
      ((may_change caller.role (profile_of caller db) p && is_none p.deleted_at) ≡ true)
      × ((q : Product) × (find_product product_id after ≡ some q) × IsPatched text patch p q)
      × ImagesGiven patch.images
          (select (λ i. i.product_id == product_id) db.product_images)
          (select (λ i. i.product_id == product_id) after.product_images)
      × (find_product other after ≡ find_product other db)
      × (select (λ (i : ProductImage). i.product_id == other) after.product_images
          ≡ select (λ i. i.product_id == other) db.product_images)
update_product-Owned text caller product_id other patch image_id p db found h done =
    let (may, left) = update-cases text caller product_id patch image_id p db found done in
    let set = set_product_row text product_id patch db in
    let same = patch_images-products image_id product_id patch.images set in
    let written = λ (j : ℕ).
      find-update (λ (p : Product). p.id) j product_id (patch_product text patch) db.products
        (λ p. refl) in
    rw left (
      may,
      (
        patch_product text patch p,
        rw same (ground (arith, written product_id, found, ==-refl product_id)),
        patch_product-IsPatched text patch p,
      ),
      patch_images-own image_id product_id patch.images set,
      rw same (ground (arith, written other, h)),
      patch_images-others image_id product_id other patch.images set h,
    )
