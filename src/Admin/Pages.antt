-- ===== src/Admin/Pages.antt =====
-- The pages of admin_service.py. The three listings differ in the table, the tests and the column of
-- the cursor, which is the time of the last row on a page; a cursor that cannot be read is none.
use marketplace_invite_only.Common.{
  ℕ, zero, suc, ◌++◌, max, min, Bool, true, ◌&&◌, Option, none, some, List, [], ◌∷◌, ltb,
  if◌then◌else◌,
}
use mathlib.Core.Option
use marketplace_invite_only.Common.Tables.{length, select, order_by_desc}
use marketplace_invite_only.Orders.Views.{take}

module _ {R : Type 0} where
  -- `rows[-1]`
  unfoldable pub last : R → List R → R
  last r [] = r
  last r (q ∷ rs) = last q rs

-- `limit = max(1, min(limit, 100))`
abbrev pub page_size : ℕ → ℕ
page_size limit = max 1 (min limit 100)

module _ {R : Type 0} (key : R → ℕ) where
  -- `stmt.where(created_at < ts)` if there is a cursor
  abbrev pub before : Option ℕ → R → Bool
  before none r = true
  before (some ts) r = ltb (key r) ts

  -- `rows[-1].created_at.isoformat() if has_more and rows else None`
  abbrev pub next_cursor : Bool → List R → Option ℕ
  next_cursor has_more [] = none
  next_cursor has_more (r ∷ rs) = if has_more then some (key (last r rs)) else none

  -- what is left after the database has cut off at `limit + 1`
  abbrev pub cut : ℕ → List R → List R × Option ℕ
  cut size rows = (take size rows, next_cursor (ltb size (length rows)) (take size rows))

  unfoldable pub page : (R → Bool) → Option ℕ → ℕ → List R → List R × Option ℕ
  page keep cursor limit rows = cut (page_size limit) (
      take (suc (page_size limit))
        (order_by_desc key (select (λ r. keep r && before cursor r) rows)))

  -- A page, and what comes after its cursor.
  abbrev pub add_page : List R × Option ℕ → (ℕ → Option (List R)) → Option (List R)
  add_page (shown, none) after = some shown
  add_page (shown, some ts) after = Option.map (λ rest. shown ++ rest) (after ts)

  -- What a client sees who follows the cursor until there is none; `none` if so many pages are not
  -- enough for that.
  unfoldable pub walk : (R → Bool) → ℕ → List R → ℕ → Option ℕ → Option (List R)
  walk keep limit rows zero cursor = none
  walk keep limit rows (suc n) cursor =
      add_page (page keep cursor limit rows) λ ts. walk keep limit rows n (some ts)
