-- ===== src/Catalog/Patches.antt =====
-- What a change leaves of a product's row and of the images.
use marketplace_invite_only.Common.{
  ◌≡◌, ◌≢◌, refl, ap, String, map, ℕ, suc, Option, none, some, List, [], ◌∷◌, ◌==◌, ==-refl,
  Option-cases, inl, inr, arith,
}
use mathlib.Core.List.{append-nil}
use marketplace_invite_only.Common.Tables.{select, delete_where}
use marketplace_invite_only.Common.Rows.{select-append}
use marketplace_invite_only.Models.{Product, ProductImage, Db}
use marketplace_invite_only.Catalog.Stores.{Text}
use marketplace_invite_only.Catalog.Changes.{
  ImageSpec, ProductPatch, new_images, patch_product, patch_images,
}

others_images :
    (image_id : ℕ → ℕ) (n product_id other : ℕ) (specs : List ImageSpec)
    → other ≢ product_id
    → select (λ i. i.product_id == other) (new_images image_id n product_id specs) ≡ []
unfolding select new_images
others_images image_id n product_id other [] h = refl
others_images image_id n product_id other (s ∷ specs) h =
    ground (arith, others_images image_id (suc n) product_id other specs h, h)

deleted_images :
    (product_id other : ℕ) (rows : List ProductImage)
    → other ≢ product_id
    → select
        (λ (i : ProductImage). i.product_id == other)
        (delete_where (λ (i : ProductImage). i.product_id == product_id) rows)
      ≡ select (λ i. i.product_id == other) rows
unfolding select delete_where
deleted_images product_id other [] h = refl
deleted_images product_id other (i ∷ rows) h =
    ground (arith, deleted_images product_id other rows h, h)

pub patch_images-others :
    (image_id : ℕ → ℕ) (product_id other : ℕ) (specs : Option (List ImageSpec)) (db : Db)
    → other ≢ product_id
    → select
        (λ (i : ProductImage). i.product_id == other)
        (patch_images image_id product_id specs db).product_images
      ≡ select (λ i. i.product_id == other) db.product_images
patch_images-others image_id product_id other none db h = refl
patch_images-others image_id product_id other (some specs) db h =
    let kept = delete_where (λ (i : ProductImage). i.product_id == product_id) db.product_images in
    ground (
      arith,
      select-append (λ (i : ProductImage). i.product_id == other) kept
          (new_images image_id 0 product_id specs),
      others_images image_id 0 product_id other specs h,
      deleted_images product_id other db.product_images h,
      append-nil (select (λ (i : ProductImage). i.product_id == other) db.product_images),
    )

pub patch_images-products :
    (image_id : ℕ → ℕ) (product_id : ℕ) (specs : Option (List ImageSpec)) (db : Db)
    → (patch_images image_id product_id specs db).products ≡ db.products
patch_images-products image_id product_id none db = refl
patch_images-products image_id product_id (some specs) db = refl

-- A column after a change: as before if the request leaves the field out, else what it makes of the
-- given value.
abbrev pub Given {ℓ} : {A B : Type ℓ} → Option A → (A → B) → B → B → Type ℓ
Given none f old new = new ≡ old
Given (some x) f old new = new ≡ f x

-- What a change leaves of a row: the texts that are given, trimmed, the price, the stock and the flag
-- that are given, and every other column as it was.
pub record IsPatched (text : Text) (patch : ProductPatch) (old new : Product) : Type 0 where
  pub name : Given patch.name text.strip old.name new.name
  pub description : Given patch.description text.strip old.description new.description
  pub price_minor : Given patch.price_minor (λ n. n) old.price_minor new.price_minor
  pub stock_quantity : Given patch.stock_quantity some old.stock_quantity new.stock_quantity
  pub is_active : Given patch.is_active (λ b. b) old.is_active new.is_active
  pub identity :
      (new.id ≡ old.id)
      × ((new.seller_id ≡ old.seller_id)
          × ((new.store_id ≡ old.store_id) × (new.created_at ≡ old.created_at)))
  pub moderation :
      (new.status ≡ old.status)
      × ((new.disabled_at ≡ old.disabled_at)
          × ((new.disabled_reason ≡ old.disabled_reason) × (new.deleted_at ≡ old.deleted_at)))

pub patch_product-IsPatched :
    (text : Text) (patch : ProductPatch) (p : Product)
    → IsPatched text patch p (patch_product text patch p)
patch_product-IsPatched text patch p = record {
  name = elim (Option-cases patch.name) [ inl e ↦ rw e refl | inr (x, e) ↦ rw e refl ];
  description = elim (Option-cases patch.description) [
    | inl e ↦ rw e refl
    | inr (x, e) ↦ rw e refl
  ];
  price_minor = elim (Option-cases patch.price_minor) [
    | inl e ↦ rw e refl
    | inr (x, e) ↦ rw e refl
  ];
  stock_quantity = elim (Option-cases patch.stock_quantity) [
    | inl e ↦ rw e refl
    | inr (x, e) ↦ rw e refl
  ];
  is_active = elim (Option-cases patch.is_active) [ inl e ↦ rw e refl | inr (x, e) ↦ rw e refl ];
  identity = (refl, (refl, (refl, refl)));
  moderation = (refl, (refl, (refl, refl)));
}

abbrev pub key_and_place : ProductImage → String × ℕ
key_and_place i = (i.s3_key, i.display_order)

abbrev pub spec_key_and_place : ImageSpec → String × ℕ
spec_key_and_place s = (s.s3_key, s.display_order)

-- The images of a product after a change: the same rows if the request names none, else exactly the
-- ones that it names, in their order.
abbrev pub ImagesGiven : Option (List ImageSpec) → List ProductImage → List ProductImage → Type 0
ImagesGiven none old new = new ≡ old
ImagesGiven (some specs) old new = map key_and_place new ≡ map spec_key_and_place specs

images_at : ℕ → List ProductImage → List ProductImage
images_at product_id = select (λ (i : ProductImage). i.product_id == product_id)

cleared_images :
    (product_id : ℕ) (rows : List ProductImage)
    → images_at product_id (delete_where (λ (i : ProductImage). i.product_id == product_id) rows)
      ≡ []
unfolding images_at select delete_where
cleared_images product_id [] = refl
cleared_images product_id (i ∷ rows) = ground (arith, cleared_images product_id rows)

named_images :
    (image_id : ℕ → ℕ) (n product_id : ℕ) (specs : List ImageSpec)
    → map key_and_place (images_at product_id (new_images image_id n product_id specs))
      ≡ map spec_key_and_place specs
unfolding images_at select new_images
named_images image_id n product_id [] = refl
named_images image_id n product_id (s ∷ specs) =
    rw (==-refl product_id)
      (ap (λ l. (s.s3_key, s.display_order) ∷ l) (named_images image_id (suc n) product_id specs))

pub patch_images-own :
    (image_id : ℕ → ℕ) (product_id : ℕ) (specs : Option (List ImageSpec)) (db : Db)
    → ImagesGiven specs (select (λ i. i.product_id == product_id) db.product_images) (
        select
          (λ i. i.product_id == product_id)
          (patch_images image_id product_id specs db).product_images)
unfolding images_at
patch_images-own image_id product_id none db = refl
patch_images-own image_id product_id (some specs) db =
    let of = λ (i : ProductImage). i.product_id == product_id in
    rw
      (
        select-append of (delete_where of db.product_images)
            (new_images image_id 0 product_id specs),
        cleared_images product_id db.product_images,
      )
      (named_images image_id 0 product_id specs)
