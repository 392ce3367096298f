-- ===== src/Catalog/Changes.antt =====
-- product_service.py: creating and changing a product with its images. The ids of images are drawn by
-- place, as a function of the number of images before.
use marketplace_invite_only.Common.{
  ℕ, suc, Bool, true, false, not, Option, none, some, List, [], ◌∷◌, ◌++◌, String, ◌==◌, or_else,
}
use marketplace_invite_only.Common.Tables.{select, delete_where, update}
use marketplace_invite_only.Models.{User, Seller, Store, Product, ProductImage, ProductStatus, Db}
use marketplace_invite_only.Session.{
  Error, Action, gets, or_raise, scalar_one_or_none, raise_if, modify, ◌>>=◌, ◌>>◌,
}
use marketplace_invite_only.Orders.Loading.{get_caller_seller}
use marketplace_invite_only.Catalog.Products.{
  FullProduct, with_images_of, find_product, load_live_product, ensure_may_change,
}
use marketplace_invite_only.Catalog.Stores.{Text, live_store_of}

abbrev pub full_product : Db → Option Product → Option FullProduct
full_product db none = none
full_product db (some p) = some (with_images_of db p)

-- `loaded = await _load_product_with_images(…); assert loaded is not None; return loaded`
unfoldable pub reload_product : ℕ → Action FullProduct
reload_product product_id = do
  loaded ← gets (λ db. full_product db (find_product product_id db))
  or_raise loaded Error.assertion

-- what a request says of an image
pub record ImageSpec : Type 0 where
  pub s3_key : String
  pub display_order : ℕ

unfoldable pub new_images : (ℕ → ℕ) → ℕ → ℕ → List ImageSpec → List ProductImage
new_images image_id n product_id [] = []
new_images image_id n product_id (spec ∷ rest) =
    record {
      id = image_id n;
      product_id = product_id;
      s3_key = spec.s3_key;
      display_order = spec.display_order;
    }
    ∷ new_images image_id (suc n) product_id rest

abbrev pub with_images : List ProductImage → Db → Db
with_images images db = record db { product_images = db.product_images ++ images }

-- `_replace_images`
abbrev pub replace_images : (ℕ → ℕ) → ℕ → List ImageSpec → Db → Db
replace_images image_id product_id specs db = record db {
  product_images =
      delete_where (λ (i : ProductImage). i.product_id == product_id) db.product_images
      ++ new_images image_id 0 product_id specs;
}

-- `if images is not None: _replace_images(product, images)`
abbrev pub patch_images : (ℕ → ℕ) → ℕ → Option (List ImageSpec) → Db → Db
patch_images image_id product_id none db = db
patch_images image_id product_id (some specs) db = replace_images image_id product_id specs db

-- `_get_caller_store`
unfoldable pub get_caller_store : Seller → Action Store
get_caller_store seller = do
  live ← gets (λ db. select (live_store_of seller.id) db.stores)
  store ← scalar_one_or_none live
  or_raise store Error.store_not_found

-- `store_id is not None and store_id != store.id`
abbrev pub other_store : Option ℕ → ℕ → Bool
other_store none id = false
other_store (some store_id) id = not (store_id == id)

abbrev pub with_product : Product → Db → Db
with_product p db = record db { products = db.products ++ p ∷ [] }

-- What a request says of a new product.
pub record ProductSpec : Type 0 where
  pub name : String
  pub price_minor : ℕ
  pub description : Option String
  pub stock_quantity : Option ℕ
  pub images : List ImageSpec
  pub store_id : Option ℕ

-- What a request changes of a product.
pub record ProductPatch : Type 0 where
  pub name : Option String
  pub description : Option String
  pub price_minor : Option ℕ
  pub stock_quantity : Option ℕ
  pub is_active : Option Bool
  pub images : Option (List ImageSpec)

abbrev pub given_quantity : Option ℕ → Option ℕ → Option ℕ
given_quantity none old = old
given_quantity (some n) old = some n

abbrev pub given_price : Option ℕ → ℕ → ℕ
given_price none old = old
given_price (some n) old = n

module _ (text : Text) where
  abbrev pub new_product : ℕ → ℕ → ℕ → ProductSpec → ℕ → Product
  new_product id seller_id store_id spec now = record {
    id = id;
    seller_id = seller_id;
    store_id = store_id;
    name = text.strip spec.name;
    description = text.strip (or_else spec.description "");
    price_minor = spec.price_minor;
    stock_quantity = spec.stock_quantity;
    is_active = true;
    status = ProductStatus.active;
    disabled_at = none;
    disabled_reason = none;
    created_at = now;
    deleted_at = none;
  }

  unfoldable pub create_product : User → ProductSpec → ℕ → (ℕ → ℕ) → ℕ → Action FullProduct
  create_product caller spec product_id image_id now = do
    seller ← get_caller_seller caller
    store ← get_caller_store seller
    raise_if (other_store spec.store_id store.id) Error.store_not_found
    modify (with_product (new_product product_id seller.id store.id spec now))
    modify (with_images (new_images image_id 0 product_id spec.images))
    reload_product product_id

  abbrev pub trimmed : Option String → String → String
  trimmed none old = old
  trimmed (some x) old = text.strip x

  abbrev pub patch_product : ProductPatch → Product → Product
  patch_product patch p = record p {
    name = trimmed patch.name p.name;
    description = trimmed patch.description p.description;
    price_minor = given_price patch.price_minor p.price_minor;
    stock_quantity = given_quantity patch.stock_quantity p.stock_quantity;
    is_active = or_else patch.is_active p.is_active;
  }

  abbrev pub set_product_row : ℕ → ProductPatch → Db → Db
  set_product_row product_id patch db = record db {
    products = update (λ (p : Product). p.id) product_id (patch_product patch) db.products;
  }

  unfoldable pub update_product : User → ℕ → ProductPatch → (ℕ → ℕ) → Action FullProduct
  update_product caller product_id patch image_id = do
    product ← load_live_product product_id
    ensure_may_change caller.role caller product
    modify (set_product_row product.id patch)
    modify (patch_images image_id product.id patch.images)
    reload_product product.id
