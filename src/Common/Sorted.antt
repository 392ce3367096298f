-- ===== src/Common/Sorted.antt =====
-- Rows in the order of a key that falls strictly, and selects from them.
use Prim.Native.Nat.{ℕ}
use mathlib.Core.Path.{◌≡◌, refl}
use mathlib.Core.Logic.{inl, inr}
use mathlib.Core.Bool.{Bool, true, false, ◌&&◌}
use mathlib.Core.Option.{none}
use mathlib.Core.List.{List, [], ◌∷◌}
use native.Mathlib.Omega.{arith}
use marketplace_invite_only.Common.Tests.{◌==◌, ltb, leb, if◌then◌else◌, Bool-cases}
use marketplace_invite_only.Common.Tables.{
  All, All-map, IsUnique, find, insert_desc, order_by_desc, select,
}
use marketplace_invite_only.Common.Rows.{All-order_by_desc}

module _ {R : Type 0} (p q : R → Bool) where
  pub select-select : (rs : List R) → select q (select p rs) ≡ select (λ r. p r && q r) rs
  unfolding select
  select-select [] = refl
  select-select (r ∷ rs) = ground (arith, select-select rs)

  -- The second of two selects is the narrower one.
  pub select-narrow :
      (rs : List R) → ((r : R) → q r ≡ true → p r ≡ true) → select q (select p rs) ≡ select q rs
  unfolding select
  select-narrow [] h = refl
  select-narrow (r ∷ rs) h = ground (arith, select-narrow rs h, h r)

module _ {R : Type 0} (p : R → Bool) where
  pub select-every : (rs : List R) → All (λ r. p r ≡ true) rs → select p rs ≡ rs
  unfolding select
  select-every [] a = refl
  select-every (r ∷ rs) a = ground (arith, a.0, select-every rs a.1)

  pub All-select-keeps {κ} : (P : R → Type κ) (rs : List R) → All P rs → All P (select p rs)
  unfolding select
  All-select-keeps P [] a = tt
  All-select-keeps P (r ∷ rs) a = elim (Bool-cases (p r)) [
    | inl e ↦ rw e (a.0, All-select-keeps P rs a.1)
    | inr e ↦ rw e (All-select-keeps P rs a.1)
  ]

  pub select-passes : (rs : List R) → All (λ r. p r ≡ true) (select p rs)
  unfolding select
  select-passes [] = tt
  select-passes (r ∷ rs) = elim (Bool-cases (p r)) [
    | inl e ↦ rw e (e, select-passes rs)
    | inr e ↦ rw e (select-passes rs)
  ]

module _ {R : Type 0} (key : R → ℕ) where
  abbrev pub IsStrict : List R → Type 0
  IsStrict [] = Unit
  IsStrict (r ∷ rs) = All (λ q. ltb (key q) (key r) ≡ true) rs × IsStrict rs

  All-insert_desc {κ} :
      (P : R → Type κ) (r : R) (rs : List R) → P r → All P rs → All P (insert_desc key r rs)
  unfolding insert_desc
  All-insert_desc P r [] h a = (h, tt)
  All-insert_desc P r (q ∷ rs) h a = elim (Bool-cases (leb (key q) (key r))) [
    | inl e ↦ rw e (h, a)
    | inr e ↦ rw e (a.0, All-insert_desc P r rs h a.1)
  ]

  below_trans :
      (q r : R) (rs : List R)
      → ltb (key q) (key r) ≡ true
      → All (λ x. ltb (key x) (key q) ≡ true) rs
      → All (λ x. ltb (key x) (key r) ≡ true) rs
  below_trans q r rs h a = All-map (λ x b. ground arith) rs a

  insert_desc-IsStrict :
      (r : R) (rs : List R)
      → IsStrict rs
      → All (λ q. (key q == key r) ≡ false) rs
      → IsStrict (insert_desc key r rs)
  unfolding insert_desc
  insert_desc-IsStrict r [] s a = (tt, tt)
  insert_desc-IsStrict r (q ∷ rs) s a = elim (Bool-cases (leb (key q) (key r))) [
    | inl e ↦
        let below : ltb (key q) (key r) ≡ true = ground (arith, e, a.0) in
        rw e ((below, below_trans q r rs below s.0), s)
    | inr e ↦ rw e (
      All-insert_desc (λ x. ltb (key x) (key q) ≡ true) r rs (ground (arith, e)) s.0,
      insert_desc-IsStrict r rs s.1 a.1,
    )
  ]

  find-none-All : (k : ℕ) (rs : List R) → find key k rs ≡ none → All (λ q. (key q == k) ≡ false) rs
  unfolding find
  find-none-All k [] h = tt
  find-none-All k (r ∷ rs) h = elim (Bool-cases (key r == k)) [
    | inl e ↦ absurd (ground (arith, e, h))
    | inr e ↦ (e, find-none-All k rs (ground (arith, e, h)))
  ]

  pub order_by_desc-IsStrict : (rs : List R) → IsUnique key rs → IsStrict (order_by_desc key rs)
  unfolding order_by_desc
  order_by_desc-IsStrict [] u = tt
  order_by_desc-IsStrict (r ∷ rs) u =
      insert_desc-IsStrict r (order_by_desc key rs) (order_by_desc-IsStrict rs u.1)
        (All-order_by_desc key (λ q. (key q == key r) ≡ false) rs (find-none-All (key r) rs u.0))

  pub select-IsStrict : (p : R → Bool) (rs : List R) → IsStrict rs → IsStrict (select p rs)
  unfolding select
  select-IsStrict p [] s = tt
  select-IsStrict p (r ∷ rs) s = elim (Bool-cases (p r)) [
    | inl e ↦
        rw e (All-select-keeps p (λ q. ltb (key q) (key r) ≡ true) rs s.0, select-IsStrict p rs s.1)
    | inr e ↦ rw e (select-IsStrict p rs s.1)
  ]

  insert_desc-first :
      (r : R) (rs : List R)
      → All (λ q. leb (key q) (key r) ≡ true) rs
      → insert_desc key r rs ≡ r ∷ rs
  unfolding insert_desc
  insert_desc-first r [] a = refl
  insert_desc-first r (q ∷ rs) a = rw a.0 refl

  select-insert_desc :
      (p : R → Bool) (r : R) (rs : List R)
      → IsStrict rs
      → select p (insert_desc key r rs)
        ≡ (if p r then insert_desc key r (select p rs) else select p rs)
  unfolding insert_desc select
  select-insert_desc p r [] s = refl
  select-insert_desc p r (q ∷ rs) s = elim (Bool-cases (leb (key q) (key r))) [
    | inl e ↦
        let low : All (λ x. leb (key x) (key r) ≡ true) (q ∷ rs) =
          (e, All-map (λ x b. ground (arith, e)) rs s.0) in
        let first =
          insert_desc-first r (select p (q ∷ rs))
            (All-select-keeps p (λ x. leb (key x) (key r) ≡ true) (q ∷ rs) low) in
        ground (arith, e, first)
    | inr e ↦ ground (arith, e, select-insert_desc p r rs s.1)
  ]

  -- Selecting and then ordering is ordering and then selecting.
  pub order_by_desc-select :
      (p : R → Bool) (rs : List R)
      → IsUnique key rs
      → order_by_desc key (select p rs) ≡ select p (order_by_desc key rs)
  unfolding order_by_desc select
  order_by_desc-select p [] u = refl
  order_by_desc-select p (r ∷ rs) u = ground (
    arith,
    order_by_desc-select p rs u.1,
    select-insert_desc p r (order_by_desc key rs) (order_by_desc-IsStrict rs u.1),
  )
