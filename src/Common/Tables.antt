-- ===== src/Common/Tables.antt =====
-- Tables as lists of rows. A select by a key that the schema declares unique takes the first row
-- with that key; other selects keep every row that passes their test.
use Prim.Native.Nat.{ℕ, ◌+◌}
use mathlib.Core.Path.{◌≡◌, refl, subst}
use mathlib.Core.Logic.{inl, inr}
use mathlib.Core.Bool.{Bool, true}
use mathlib.Core.Option.{Option, none, some, some-injective}
use mathlib.Core.Option
use mathlib.Core.List.{List, [], ◌∷◌, ◌++◌}
use native.Mathlib.Omega.{arith}
use marketplace_invite_only.Common.Tests.{◌==◌, leb, if◌then◌else◌, Bool-cases}

module _ {ℓ} {R : Type ℓ} where
  -- `SELECT … WHERE p`
  unfoldable pub select : (R → Bool) → List R → List R
  select p [] = []
  select p (r ∷ rs) = if p r then r ∷ select p rs else select p rs

  -- `UPDATE … WHERE p`
  unfoldable pub update_where : (R → Bool) → (R → R) → List R → List R
  update_where p f [] = []
  update_where p f (r ∷ rs) = (if p r then f r else r) ∷ update_where p f rs

  -- `DELETE … WHERE p`
  unfoldable pub delete_where : (R → Bool) → List R → List R
  delete_where p [] = []
  delete_where p (r ∷ rs) = if p r then delete_where p rs else r ∷ delete_where p rs

  -- `rows[0]`
  abbrev pub first : List R → Option R
  first [] = none
  first (r ∷ rs) = some r

  unfoldable pub length : List R → ℕ
  length [] = 0
  length (r ∷ rs) = 1 + length rs

  unfoldable pub count : (R → Bool) → List R → ℕ
  count p [] = 0
  count p (r ∷ rs) = (if p r then 1 else 0) + count p rs

  abbrev pub All {κ} : (R → Type κ) → List R → Type κ
  All P [] = Unit
  All P (r ∷ rs) = P r × All P rs

module _ {ℓ} {R : Type ℓ} (key : R → ℕ) where
  unfoldable pub insert_desc : R → List R → List R
  insert_desc r [] = r ∷ []
  insert_desc r (q ∷ rs) = if leb (key q) (key r) then r ∷ q ∷ rs else q ∷ insert_desc r rs

  -- `ORDER BY key DESC`
  unfoldable pub order_by_desc : List R → List R
  unfolding insert_desc
  order_by_desc [] = []
  order_by_desc (r ∷ rs) = insert_desc r (order_by_desc rs)

  unfoldable pub insert_asc : R → List R → List R
  insert_asc r [] = r ∷ []
  insert_asc r (q ∷ rs) = if leb (key r) (key q) then r ∷ q ∷ rs else q ∷ insert_asc r rs

  -- `ORDER BY key ASC`
  unfoldable pub order_by_asc : List R → List R
  unfolding insert_asc
  order_by_asc [] = []
  order_by_asc (r ∷ rs) = insert_asc r (order_by_asc rs)

  -- `SELECT … WHERE key = k` on a unique column
  unfoldable pub find : ℕ → List R → Option R
  find k [] = none
  find k (r ∷ rs) = if key r == k then some r else find k rs

  -- a row object whose columns are assigned to
  abbrev pub update : ℕ → (R → R) → List R → List R
  update k = update_where (λ r. key r == k)

  abbrev pub remove : ℕ → List R → List R
  remove k = delete_where (λ r. key r == k)

  pub find_key : (k : ℕ) (rs : List R) {r : R} → find k rs ≡ some r → key r ≡ k
  unfolding find
  find_key k [] h = ground arith
  find_key k (q ∷ rs) {r} h = ground (arith, find_key k rs {r = r})

  pub find-update :
      (j k : ℕ) (f : R → R) (rs : List R)
      → ((r : R) → key (f r) ≡ key r)
      → find j (update k f rs) ≡ (if j == k then Option.map f (find j rs) else find j rs)
  unfolding find update_where
  find-update j k f [] h = ground arith
  find-update j k f (r ∷ rs) h = ground (arith, find-update j k f rs, h r)

  pub find-remove :
      (j k : ℕ) (rs : List R) → find j (remove k rs) ≡ (if j == k then none else find j rs)
  unfolding find delete_where
  find-remove j k [] = ground arith
  find-remove j k (r ∷ rs) = ground (arith, find-remove j k rs)

  pub find-append :
      (k : ℕ) (rs : List R) (r : R)
      → find k (rs ++ r ∷ [])
        ≡ elim (find k rs) [ some q ↦ some q | none ↦ if key r == k then some r else none ]
  unfolding find
  find-append k [] r = ground arith
  find-append k (q ∷ rs) r = ground (arith, find-append k rs r)

module _ {ℓ κ} {R : Type ℓ} (P : R → Type κ) where
  pub All-update_where :
      (p : R → Bool) (f : R → R) (rs : List R)
      → ((r : R) → p r ≡ true → P r → P (f r))
      → All P rs
      → All P (update_where p f rs)
  unfolding update_where
  All-update_where p f [] h a = tt
  All-update_where p f (r ∷ rs) h a = ground (arith, h r, All-update_where p f rs h a.1)

  pub All-delete_where : (p : R → Bool) (rs : List R) → All P rs → All P (delete_where p rs)
  unfolding delete_where
  All-delete_where p [] a = tt
  All-delete_where p (r ∷ rs) a = ground (arith, All-delete_where p rs a.1)

  pub All-append : (rs qs : List R) → All P rs → All P qs → All P (rs ++ qs)
  All-append [] qs a b = b
  All-append (r ∷ rs) qs a b = (a.0, All-append rs qs a.1 b)

  pub All-find :
      (key : R → ℕ) (k : ℕ) (rs : List R) {r : R} → find key k rs ≡ some r → All P rs → P r
  unfolding find
  All-find key k [] h a = absurd (ground arith)
  All-find key k (q ∷ rs) {r} h a = elim (Bool-cases (key q == k)) [
    | inl e ↦ subst P (some-injective _ _ (rw e at h)) a.0
    | inr e ↦ All-find key k rs (rw e at h) a.1
  ]

-- No two rows have one key.
abbrev pub IsUnique {ℓ} : {R : Type ℓ} → (R → ℕ) → List R → Type ℓ
IsUnique key [] = Unit
IsUnique key (r ∷ rs) = (find key (key r) rs ≡ none) × IsUnique key rs

module _ {ℓ} {R : Type ℓ} (key : R → ℕ) where
  pub update-IsUnique :
      (k : ℕ) (f : R → R) (rs : List R)
      → ((r : R) → key (f r) ≡ key r)
      → IsUnique key rs
      → IsUnique key (update key k f rs)
  unfolding update_where
  update-IsUnique k f [] h u = tt
  update-IsUnique k f (r ∷ rs) h u = ground (
    arith,
    h r,
    find-update key (key r) k f rs h,
    find-update key (key (f r)) k f rs h,
    update-IsUnique k f rs h u.1,
  )

  find-none-delete_where :
      (p : R → Bool) (k : ℕ) (rs : List R)
      → find key k rs ≡ none
      → find key k (delete_where p rs) ≡ none
  unfolding find delete_where
  find-none-delete_where p k [] h = h
  find-none-delete_where p k (r ∷ rs) h = ground (arith, find-none-delete_where p k rs)

  pub delete_where-IsUnique :
      (p : R → Bool) (rs : List R) → IsUnique key rs → IsUnique key (delete_where p rs)
  unfolding delete_where
  delete_where-IsUnique p [] u = tt
  delete_where-IsUnique p (r ∷ rs) u =
      ground (arith, delete_where-IsUnique p rs u.1, find-none-delete_where p (key r) rs)

  pub append-IsUnique :
      (r : R) (rs : List R)
      → find key (key r) rs ≡ none
      → IsUnique key rs
      → IsUnique key (rs ++ r ∷ [])
  unfolding find
  append-IsUnique r [] h u = (refl, tt)
  append-IsUnique r (q ∷ rs) h u =
      ground (arith, append-IsUnique r rs, find-append key (key q) rs r)

  -- A row that a select returns is the row with its key, and passes the test.
  abbrev pub IsRow : (R → Bool) → List R → R → Type ℓ
  IsRow p rs r = (find key (key r) rs ≡ some r) × (p r ≡ true)

  weaken_rows :
      (p : R → Bool) (q : R) (rs xs : List R)
      → find key (key q) rs ≡ none
      → All (IsRow p rs) xs
      → All (IsRow p (q ∷ rs)) xs
  unfolding find
  weaken_rows p q rs [] h a = tt
  weaken_rows p q rs (x ∷ xs) h a = ((ground (arith, a.0), a.0.1), weaken_rows p q rs xs h a.1)

  pub select-IsRow : (p : R → Bool) (rs : List R) → IsUnique key rs → All (IsRow p rs) (select p rs)
  unfolding select find
  select-IsRow p [] u = tt
  select-IsRow p (r ∷ rs) u = elim (Bool-cases (p r)) [
    | inl e ↦ rw e ((ground arith, e), weaken_rows p r rs (select p rs) u.0 (select-IsRow p rs u.1))
    | inr e ↦ rw e (weaken_rows p r rs (select p rs) u.0 (select-IsRow p rs u.1))
  ]

module _ {ℓ κ μ} {R : Type ℓ} {P : R → Type κ} {Q : R → Type μ} where
  pub All-map : ((r : R) → P r → Q r) → (rs : List R) → All P rs → All Q rs
  All-map h [] a = tt
  All-map h (r ∷ rs) a = (h r a.0, All-map h rs a.1)
