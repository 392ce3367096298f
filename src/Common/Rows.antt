-- ===== src/Common/Rows.antt =====
-- Predicates on every row of a table, under selects, orderings and writes to the row with one key.
use Prim.Native.Nat.{ℕ, ◌+◌, ◌≤◌}
use mathlib.Core.Path.{◌≡◌, refl, sym, subst}
use mathlib.Core.Logic.{inl, inr}
use mathlib.Core.Bool.{Bool, true}
use mathlib.Core.Option.{none, some, some-injective}
use mathlib.Core.List.{List, [], ◌∷◌, ◌++◌}
use native.Mathlib.Omega.{arith}
use marketplace_invite_only.Common.Tests.{◌==◌, leb, if◌then◌else◌, Bool-cases}
use marketplace_invite_only.Common.Tables.{
  All, IsUnique, count, delete_where, find, first, insert_desc, order_by_desc, select, update,
  update_where,
}

module _ {ℓ} {R : Type ℓ} (key : R → ℕ) where
  pub update_absent :
      (k : ℕ) (f : R → R) (rs : List R) → find key k rs ≡ none → update key k f rs ≡ rs
  unfolding find update_where
  update_absent k f [] h = refl
  update_absent k f (r ∷ rs) h = ground (arith, update_absent k f rs)

  -- Only the row that a find returns is written to.
  pub All-update {κ} :
      (P : R → Type κ) (k : ℕ) (f : R → R) (rs : List R) (o : R)
      → IsUnique key rs
      → find key k rs ≡ some o
      → (P o → P (f o))
      → All P rs
      → All P (update key k f rs)
  unfolding find update_where
  All-update P k f [] o u e h a = tt
  All-update P k f (r ∷ rs) o u e h a = elim (Bool-cases (key r == k)) [
    | inl at ↦
        let same : r ≡ o = some-injective _ _ (rw at at e) in
        let gone : find key k rs ≡ none = ground arith in
        rw (at, update_absent k f rs gone)
          (subst (λ x. P (f x)) (sym same) (h (subst P same a.0)), a.1)
    | inr off ↦ rw off (a.0, All-update P k f rs o u.1 (rw off at e) h a.1)
  ]

  pub All-order_by_desc {κ} :
      (P : R → Type κ) (rs : List R) → All P rs → All P (order_by_desc key rs)
  unfolding order_by_desc
  All-order_by_desc P [] a = tt
  All-order_by_desc P (r ∷ rs) a =
      inserted r (order_by_desc key rs) a.0 (All-order_by_desc P rs a.1)
    where
      inserted : (r : R) (xs : List R) → P r → All P xs → All P (insert_desc key r xs)
      inserted r [] p a = (p, tt)
      inserted r (x ∷ xs) p a = elim (Bool-cases (leb (key x) (key r))) [
        | inl e ↦ rw e (p, a)
        | inr e ↦ rw e (a.0, inserted r xs p a.1)
      ]

module _ {ℓ κ} {R : Type ℓ} (P : R → Type κ) where
  pub All-select :
      (p : R → Bool) (rs : List R) → All P rs → All (λ r. P r × (p r ≡ true)) (select p rs)
  unfolding select
  All-select p [] a = tt
  All-select p (r ∷ rs) a = elim (Bool-cases (p r)) [
    | inl e ↦ rw e ((a.0, e), All-select p rs a.1)
    | inr e ↦ rw e (All-select p rs a.1)
  ]

  pub All-first : (rs : List R) (r : R) → first rs ≡ some r → All P rs → P r
  All-first [] r e a = absurd (ground arith)
  All-first (q ∷ rs) r e a = subst P (some-injective q r e) a.0

module _ {ℓ} {R : Type ℓ} (p : R → Bool) where
  pub select-append : (rs qs : List R) → select p (rs ++ qs) ≡ select p rs ++ select p qs
  unfolding select
  select-append [] qs = refl
  select-append (r ∷ rs) qs = ground (arith, select-append rs qs)

  pub count-delete_where : (q : R → Bool) (rs : List R) → count p (delete_where q rs) ≤ count p rs
  unfolding count delete_where
  count-delete_where q [] = omega arith
  count-delete_where q (r ∷ rs) = ground (arith, count-delete_where q rs)

  pub count-append : (rs qs : List R) → count p (rs ++ qs) ≡ count p rs + count p qs
  unfolding count
  count-append [] qs = omega arith
  count-append (r ∷ rs) qs = omega (arith, count-append rs qs)

  pub count-select : (rs : List R) → select p rs ≡ [] → count p rs ≡ 0
  unfolding count select
  count-select [] h = refl
  count-select (r ∷ rs) h = ground (arith, count-select rs)

  -- A write that makes no row pass the test that did not pass it before.
  pub count-update_where :
      (q : R → Bool) (f : R → R) (rs : List R)
      → ((r : R) → p (f r) ≡ true → p r ≡ true)
      → count p (update_where q f rs) ≤ count p rs
  unfolding count update_where
  count-update_where q f [] h = omega arith
  count-update_where q f (r ∷ rs) h = ground (arith, h r, count-update_where q f rs h)

  pub count-update :
      (key : R → ℕ) (k : ℕ) (f : R → R) (rs : List R) (o : R)
      → IsUnique key rs
      → find key k rs ≡ some o
      → (p (f o) ≡ true → p o ≡ true)
      → count p (update key k f rs) ≤ count p rs
  unfolding count find update_where
  count-update key k f [] o u e h = omega arith
  count-update key k f (r ∷ rs) o u e h = elim (Bool-cases (key r == k)) [
    | inl at ↦
        let same : r ≡ o = some-injective _ _ (rw at at e) in
        let gone : find key k rs ≡ none = ground arith in
        rw (at, update_absent key k f rs gone, same) (ground (arith, h))
    | inr off ↦ rw off (omega (arith, count-update key k f rs o u.1 (rw off at e) h))
  ]

  -- A write to one row changes a count by what that row counts for.
  pub count-update-row :
      (key : R → ℕ) (k : ℕ) (f : R → R) (rs : List R) (o : R)
      → IsUnique key rs
      → find key k rs ≡ some o
      → count p (update key k f rs) + (if p o then 1 else 0)
        ≡ count p rs + (if p (f o) then 1 else 0)
  unfolding count find update_where
  count-update-row key k f [] o u e = absurd (ground arith)
  count-update-row key k f (r ∷ rs) o u e = elim (Bool-cases (key r == k)) [
    | inl at ↦
        let same : r ≡ o = some-injective _ _ (rw at at e) in
        let gone : find key k rs ≡ none = ground arith in
        rw (at, update_absent key k f rs gone, same) (omega arith)
    | inr off ↦ rw off (omega (arith, count-update-row key k f rs o u.1 (rw off at e)))
  ]
