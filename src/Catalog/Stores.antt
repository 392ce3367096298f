-- ===== src/Catalog/Stores.antt =====
-- store_service.py: creating and changing the caller's one store. Trimming and slugs are functions of
-- a record, since slugs are numbers here: `numbered base n` is the text `base-n`.
use marketplace_invite_only.Common.{
  ℕ, zero, suc, Bool, true, false, ◌&&◌, Option, none, some, List, [], ◌∷◌, ◌++◌, String, ◌==◌,
  is_some, is_none, or_else, if◌then◌else◌,
}
use marketplace_invite_only.Common.Tables.{find, length, select, update}
use marketplace_invite_only.Common.Text.{is_empty}
use marketplace_invite_only.Models.{User, Seller, Store, Db}
use marketplace_invite_only.Session.{
  Error, Action, pure, gets, or_raise, scalar_one_or_none, raise_if, modify, ◌>>=◌, ◌>>◌,
}
use marketplace_invite_only.Orders.Loading.{get_caller_seller}

pub record Text : Type 0 where
  pub strip : String → String
  pub is_blank : String → Bool
  -- `slug.strip().lower()` and `_slugify`
  pub lower : String → ℕ
  pub slugify : String → ℕ
  pub numbered : ℕ → ℕ → ℕ

abbrev pub slug_in_use : ℕ → List Store → Bool
slug_in_use slug stores = is_some (find (λ (s : Store). s.slug) slug stores)

abbrev pub live_store_of : ℕ → Store → Bool
live_store_of seller_id s = s.seller_id == seller_id && is_none s.deleted_at

abbrev pub set_city : ℕ → String → Db → Db
set_city seller_id city db = record db {
  sellers = update (λ (s : Seller). s.id) seller_id (λ s. record s { city = city }) db.sellers;
}

abbrev pub with_store : Store → Db → Db
with_store s db = record db { stores = db.stores ++ s ∷ [] }

abbrev pub set_store : ℕ → (Store → Store) → Db → Db
set_store store_id f db = record db { stores = update (λ (s : Store). s.id) store_id f db.stores }

module _ (text : Text) where
  -- `candidate` after so many turns of the loop
  abbrev pub candidate : ℕ → ℕ → ℕ
  candidate base zero = base
  candidate base (suc n) = text.numbered base (suc n)

  -- the loop of `_unique_slug`, for at most so many turns
  unfoldable pub unique_slug_from : ℕ → ℕ → ℕ → List Store → Option ℕ
  unique_slug_from base suffix zero stores = none
  unique_slug_from base suffix (suc fuel) stores =
      let rest = unique_slug_from base (suc suffix) fuel stores in
      if slug_in_use (candidate base suffix) stores then rest else some (candidate base suffix)

  -- `_unique_slug`, with one turn more than there are stores
  unfoldable pub unique_slug : ℕ → List Store → Option ℕ
  unfolding unique_slug_from
  unique_slug base stores = unique_slug_from base 0 (suc (length stores)) stores

  -- `slug.strip().lower() if slug else _slugify(name)`
  abbrev pub wanted_slug : Option String → String → ℕ
  wanted_slug none name = text.slugify name
  wanted_slug (some slug) name = if is_empty slug then text.slugify name else text.lower slug

  abbrev pub new_store : ℕ → ℕ → String → ℕ → Option String → Bool → Store
  new_store id seller_id name slug description is_public = record {
    id = id;
    seller_id = seller_id;
    name = text.strip name;
    slug = slug;
    description = text.strip (or_else description "");
    is_active = true;
    is_public = is_public;
    deleted_at = none;
  }

  -- A store of the seller that is deleted still holds the unique column `seller_id`.
  unfoldable pub create_store :
      User → String → String → Option String → Option String → Bool → ℕ → Action Store
  create_store caller name city description slug is_public store_id = do
    raise_if (text.is_blank city) Error.store_city_required
    raise_if (text.is_blank name) Error.store_city_required
    seller ← get_caller_seller caller
    live ← gets (λ db. select (live_store_of seller.id) db.stores)
    existing ← scalar_one_or_none live
    raise_if (is_some existing) Error.store_already_exists
    modify (set_city seller.id (text.strip city))
    free ← gets (λ db. unique_slug (wanted_slug slug name) db.stores)
    final_slug ← or_raise free Error.assertion
    held ← gets (λ db. find (λ (s : Store). s.seller_id) seller.id db.stores)
    raise_if (is_some held) Error.store_already_exists
    modify (with_store (new_store store_id seller.id name final_slug description is_public))
    pure (new_store store_id seller.id name final_slug description is_public)

  unfoldable pub get_own_store : User → Action Store
  get_own_store caller = do
    seller ← get_caller_seller caller
    live ← gets (λ db. select (live_store_of seller.id) db.stores)
    found ← scalar_one_or_none live
    or_raise found Error.store_not_found

  -- `if x is not None and not x.strip(): raise …`
  abbrev pub blank_given : Option String → Bool
  blank_given none = false
  blank_given (some x) = text.is_blank x

  abbrev pub stripped : Option String → String → String
  stripped none old = old
  stripped (some x) old = text.strip x

  abbrev pub set_name : Option String → Store → Store
  set_name name s = record s { name = stripped name s.name }

  abbrev pub patch_store : Option String → Option Bool → Option Bool → Store → Store
  patch_store description is_active is_public s = record s {
    description = stripped description s.description;
    is_active = or_else is_active s.is_active;
    is_public = or_else is_public s.is_public;
  }

  unfoldable pub update_own_store :
      User
      → Option String
      → Option String
      → Option String
      → Option Bool
      → Option Bool
      → Action Store
  update_own_store caller name city description is_active is_public = do
    seller ← get_caller_seller caller
    live ← gets (λ db. select (live_store_of seller.id) db.stores)
    found ← scalar_one_or_none live
    store ← or_raise found Error.store_not_found
    raise_if (blank_given name) Error.store_city_required
    modify (set_store store.id (set_name name))
    raise_if (blank_given city) Error.store_city_required
    modify (set_city seller.id (stripped city seller.city))
    modify (set_store store.id (patch_store description is_active is_public))
    pure (patch_store description is_active is_public (set_name name store))
