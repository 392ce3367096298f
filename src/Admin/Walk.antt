-- ===== src/Admin/Walk.antt =====
-- A client who follows the cursor of a listing of admin_service.py.
use marketplace_invite_only.Common.{
  ◌≡◌, refl, sym, ap, ◌∙◌, ℕ, zero, suc, ◌+◌, ◌-◌, ◌≤◌, ◌<◌, Bool, true, false, ◌&&◌, Option, none,
  some, List, [], ◌∷◌, ◌++◌, ltb, Bool-cases, inl, inr, arith,
}
use mathlib.Core.Path.{subst}
use marketplace_invite_only.Common.Tables.{
  length, All, IsUnique, select, insert_desc, order_by_desc,
}
use marketplace_invite_only.Common.Sorted.{
  IsStrict, select-narrow, select-select, select-every, select-passes, select-IsStrict,
  order_by_desc-IsStrict, order_by_desc-select,
}
use marketplace_invite_only.Orders.Views.{take}
use marketplace_invite_only.Orders.Privacy.{All-take}
use marketplace_invite_only.Admin.Pages.{last, page_size, before, next_cursor, cut, page, walk}

module _ {R : Type 0} where
  abbrev skip : ℕ → List R → List R
  skip zero rs = rs
  skip (suc n) [] = []
  skip (suc n) (r ∷ rs) = skip n rs

  take-skip : (n : ℕ) (rs : List R) → take n rs ++ skip n rs ≡ rs
  take-skip zero rs = refl
  take-skip (suc n) [] = refl
  take-skip (suc n) (r ∷ rs) = ap (λ x. r ∷ x) (take-skip n rs)

  length-skip : (n : ℕ) (rs : List R) → length (skip n rs) ≡ length rs - n
  unfolding length
  length-skip zero rs = omega arith
  length-skip (suc n) [] = omega arith
  length-skip (suc n) (r ∷ rs) = omega (arith, length-skip n rs)

  take-take : (n : ℕ) (rs : List R) → take n (take (suc n) rs) ≡ take n rs
  take-take zero rs = refl
  take-take (suc n) [] = refl
  take-take (suc n) (r ∷ rs) = ap (λ x. r ∷ x) (take-take n rs)

  length-take : (n : ℕ) (rs : List R) → ltb n (length (take (suc n) rs)) ≡ ltb n (length rs)
  unfolding length
  length-take zero [] = refl
  length-take zero (r ∷ rs) = ground arith
  length-take (suc n) [] = refl
  length-take (suc n) (r ∷ rs) = ground (arith, length-take n rs)

  take-short : (n : ℕ) (rs : List R) → length rs ≤ n → take n rs ≡ rs
  unfolding length
  take-short zero [] h = refl
  take-short zero (r ∷ rs) h = absurd (ground arith)
  take-short (suc n) [] h = refl
  take-short (suc n) (r ∷ rs) h = ap (λ x. r ∷ x) (take-short n rs (ground arith))

  All-true : (rs : List R) → All (λ r. true ≡ true) rs
  All-true [] = tt
  All-true (r ∷ rs) = (refl, All-true rs)

  All-last {κ} : (P : R → Type κ) (r : R) (rs : List R) → P r → All P rs → P (last r rs)
  unfolding last
  All-last P r [] p a = p
  All-last P r (q ∷ rs) p a = All-last P q rs a.0 a.1

  select-none : (p : R → Bool) (rs : List R) → All (λ r. p r ≡ false) rs → select p rs ≡ []
  unfolding select
  select-none p [] a = refl
  select-none p (r ∷ rs) a = ground (arith, a.0, select-none p rs a.1)

module _ {R : Type 0} (key : R → ℕ) where
  -- The rows before the last one that a page shows are the rest.
  select-rest :
      (n : ℕ) (r : R) (rs : List R)
      → IsStrict key (r ∷ rs)
      → n < length (r ∷ rs)
      → select (before key (some (key (last r (take n rs))))) (r ∷ rs) ≡ skip n rs
  unfolding select last length
  select-rest zero r rs s h = ground (arith, select-every (before key (some (key r))) rs s.0)
  select-rest (suc n) r [] s h = absurd (ground arith)
  select-rest (suc n) r (q ∷ rs) s h =
      let low : ltb (key (last q (take n rs))) (key r) ≡ true =
        All-last (λ x. ltb (key x) (key r) ≡ true) q (take n rs) s.0.0
          (All-take (λ x. ltb (key x) (key r) ≡ true) n rs s.0.1) in
      ground (arith, low, select-rest n q rs s.1)

  -- A page of a size, from the rows that are left.
  page-cut :
      (keep : R → Bool) (cursor : Option ℕ) (limit size : ℕ) (rows rest : List R)
      → page_size limit ≡ size
      → order_by_desc key (select (λ r. keep r && before key cursor r) rows) ≡ rest
      → page key keep cursor limit rows
        ≡ (take size rest, next_cursor key (ltb size (length rest)) (take size rest))
  unfolding page
  page-cut keep cursor limit size rows rest p e =
      ap
        (λ n.
          cut key n
            (take (suc n) (order_by_desc key (select (λ r. keep r && before key cursor r) rows))))
        p
      ∙ rw (e, take-take size rest, length-take size rest) refl

  listing :
      (keep : R → Bool) (rows : List R) (cursor : Option ℕ) (rest : List R)
      → IsUnique key (select keep rows)
      → select (before key cursor) (order_by_desc key (select keep rows)) ≡ rest
      → order_by_desc key (select (λ r. keep r && before key cursor r) rows) ≡ rest
  listing keep rows cursor rest u e =
      ap (order_by_desc key) (sym (select-select keep (before key cursor) rows))
      ∙ order_by_desc-select key (before key cursor) (select keep rows) u
      ∙ e

  before_trans :
      (cursor : Option ℕ) (c x : R)
      → before key cursor c ≡ true
      → before key (some (key c)) x ≡ true
      → before key cursor x ≡ true
  before_trans none c x h k = refl
  before_trans (some ts) c x h k = ground (arith, h, k)

  -- The rows before the last one shown, of all rows, are the rest.
  narrowed :
      (keep : R → Bool) (rows : List R) (n : ℕ) (cursor : Option ℕ) (r : R) (rest : List R)
      → IsUnique key (select keep rows)
      → select (before key cursor) (order_by_desc key (select keep rows)) ≡ r ∷ rest
      → n < length (r ∷ rest)
      → select
          (before key (some (key (last r (take n rest)))))
          (order_by_desc key (select keep rows))
        ≡ skip n rest
  narrowed keep rows n cursor r rest u e h =
      let all = order_by_desc key (select keep rows) in
      let next = before key (some (key (last r (take n rest)))) in
      let passed : All (λ x. before key cursor x ≡ true) (r ∷ rest) =
        subst (All (λ x. before key cursor x ≡ true)) e (select-passes (before key cursor) all) in
      let last_passed : before key cursor (last r (take n rest)) ≡ true =
        All-last (λ x. before key cursor x ≡ true) r (take n rest) passed.0
          (All-take (λ x. before key cursor x ≡ true) n rest passed.1) in
      let strict : IsStrict key (r ∷ rest) = subst (IsStrict key) e (
        select-IsStrict key (before key cursor) all
          (order_by_desc-IsStrict key (select keep rows) u)) in
      sym (
        select-narrow (before key cursor) next all
          λ x. before_trans cursor (last r (take n rest)) x last_passed)
      ∙ ap (select next) e
      ∙ select-rest n r rest strict h

  length-insert : (r : R) (rs : List R) → length (insert_desc key r rs) ≡ 1 + length rs
  unfolding insert_desc length
  length-insert r [] = omega arith
  length-insert r (q ∷ rs) = ground (arith, length-insert r rs)

  length-order : (rs : List R) → length (order_by_desc key rs) ≤ length rs
  unfolding order_by_desc length
  length-order [] = omega arith
  length-order (r ∷ rs) = omega (arith, length-order rs, length-insert r (order_by_desc key rs))

  next-none : (rs : List R) → next_cursor key false rs ≡ none
  next-none [] = refl
  next-none (r ∷ rs) = refl

  walk-rest :
      (keep : R → Bool) (size limit : ℕ) (rows : List R) (n : ℕ) (cursor : Option ℕ) (rest : List R)
      → page_size limit ≡ suc size
      → IsUnique key (select keep rows)
      → select (before key cursor) (order_by_desc key (select keep rows)) ≡ rest
      → length rest < n
      → walk key keep limit rows n cursor ≡ some rest
  unfolding walk length
  walk-rest keep size limit rows zero cursor rest p u e h = absurd (omega arith)
  walk-rest keep size limit rows (suc n) cursor [] p u e h =
      rw (page-cut keep cursor limit (suc size) rows [] p (listing keep rows cursor [] u e)) refl
  walk-rest keep size limit rows (suc n) cursor (r ∷ rest) p u e h =
      let shown =
        page-cut keep cursor limit (suc size) rows (r ∷ rest) p
          (listing keep rows cursor (r ∷ rest) u e) in
      elim (Bool-cases (ltb (suc size) (length (r ∷ rest)))) [
        | inr f ↦ rw (shown, f, take-short size rest (ground (arith, f))) refl
        | inl f ↦
            let next =
              walk-rest keep size limit rows n (some (key (last r (take size rest))))
                (skip size rest) p u (narrowed keep rows size cursor r rest u e (ground (arith, f)))
                (omega (arith, length-skip size rest)) in
            rw (shown, f, next) (ap some (take-skip (suc size) (r ∷ rest)))
      ]

  -- A client who follows the cursor of a listing from the first page comes to a page with no cursor,
  -- after at most one page more than the listing keeps rows, and has then seen every row that it
  -- keeps, once and in falling order. The rows that it keeps have different times.
  pub walk-order_by_desc :
      (keep : R → Bool) (limit : ℕ) (rows : List R)
      → IsUnique key (select keep rows)
      → walk key keep limit rows (suc (length (select keep rows))) none
        ≡ some (order_by_desc key (select keep rows))
  walk-order_by_desc keep limit rows u =
      walk-rest keep (page_size limit - 1) limit rows (suc (length (select keep rows))) none
        (order_by_desc key (select keep rows)) (omega arith) u
        (select-every (before key none) _ (All-true (order_by_desc key (select keep rows))))
        (omega (arith, length-order (select keep rows)))
