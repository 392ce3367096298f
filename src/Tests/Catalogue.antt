-- ===== src/Tests/Catalogue.antt =====
-- Stores and products that change, at the shop of the tests.
use marketplace_invite_only.Common.{
  ◌≡◌, refl, ℕ, suc, ◌+◌, true, false, ◌&&◌, none, some, [], ◌∷◌, ◌==◌, is_none, arith,
}
use marketplace_invite_only.Common.Tables.{find, select, update_where}
use marketplace_invite_only.Models.{Product, ProductImage}
use marketplace_invite_only.Session.{◌>>=◌}
use marketplace_invite_only.Catalog.Products.{
  find_product, load_live_product, ensure_own_product, ensure_may_change,
}
use marketplace_invite_only.Orders.Loading.{get_caller_seller}
use marketplace_invite_only.Catalog.Stores.{Text, slug_in_use, unique_slug}
use marketplace_invite_only.Catalog.Changes.{ProductPatch, reload_product, update_product}
use marketplace_invite_only.Catalog.Slugs.{unique_slug-free}
use marketplace_invite_only.Catalog.Patches.{IsPatched, ImagesGiven}
use marketplace_invite_only.Catalog.Ownership.{may_change, profile_of, update_product-Owned}
use marketplace_invite_only.Tests.{shop, soap, vendor}

abbrev numbers : Text
numbers = record {
  strip = λ s. s;
  is_blank = λ s. false;
  lower = λ s. 1;
  slugify = λ s. 1;
  numbered = λ base n. suc (base + n);
}

unique_slug-free_example :
    (slug : ℕ) × (unique_slug numbers 1 shop.stores ≡ some slug)
    × (slug_in_use slug shop.stores ≡ false)
unique_slug-free_example =
    unique_slug-free numbers (λ base j k h. omega arith) (λ base k h. omega arith) 1 shop.stores

abbrev cheaper : ProductPatch
cheaper = record {
  name = none;
  description = some "mild";
  price_minor = some 90;
  stock_quantity = none;
  is_active = none;
  images = some (record { s3_key = "soap.png"; display_order = 0 } ∷ []);
}

update_product-Owned_example :
    let after = (update_product numbers vendor 100 cheaper (λ n. n) shop).1 in
    ((may_change vendor.role (profile_of vendor shop) soap && is_none soap.deleted_at) ≡ true)
    × ((q : Product) × (find_product 100 after ≡ some q) × IsPatched numbers cheaper soap q)
    × ImagesGiven cheaper.images
        (select (λ i. i.product_id == 100) shop.product_images)
        (select (λ i. i.product_id == 100) after.product_images)
    × (find_product 101 after ≡ find_product 101 shop)
    × (select (λ (i : ProductImage). i.product_id == 101) after.product_images
        ≡ select (λ i. i.product_id == 101) shop.product_images)
unfolding find select update_where update_product load_live_product ensure_may_change
    ensure_own_product get_caller_seller reload_product ◌>>=◌
update_product-Owned_example =
    update_product-Owned numbers vendor 100 101 cheaper (λ n. n) soap shop refl (λ h. omega arith)
      refl
