-- ===== src/Orders/Effects/Placing.antt =====
-- The effect of placing an order.
use marketplace_invite_only.Common.{◌≡◌, ℕ, false, not, ◌||◌, some, List, [], ◌∷◌, map, is_some}
use marketplace_invite_only.Common.Tables.{first}
use marketplace_invite_only.Models.{User, Address, Db}
use marketplace_invite_only.Session.{Action, ◌>>=◌}
use marketplace_invite_only.Session.Rules.{
  after_assoc, after_pure_bind, after_raise_if, after_or_raise, after_gets, after_modify,
}
use marketplace_invite_only.Orders.Placing.{
  LineItem, Line, aggregate, resolve, all_from, too_few, check_lines, decrement, lowest_id,
  subtotal, order_item, new_order, with_new_order, create_order,
}
use marketplace_invite_only.Orders.Effects.Loading.{after_reload}

-- Every product of the lines can be sold in the quantity asked for.
abbrev pub Sellable : List Line → Type 0
Sellable [] = Unit
Sellable (l ∷ rest) =
    ((is_some l.product.deleted_at || not l.product.is_active) ≡ false)
    × (too_few l.product.stock_quantity l.quantity ≡ false)
    × Sellable rest

module _ {ℓ} (P : Db → Type ℓ) where
  pub after_check_lines :
      {A : Type 0} (lines : List Line) (f : Unit {0} → Action A) (db : Db)
      → P db
      → (Sellable lines → P (f tt db).1)
      → P ((check_lines lines >>= f) db).1
  unfolding check_lines
  after_check_lines [] f db p q = after_pure_bind P _ _ _ (q tt)
  after_check_lines (l ∷ rest) f db p q = after_assoc P _ _ _ _ (
      after_raise_if P _ _ _ db p λ visible. after_assoc P _ _ _ _ (
        after_raise_if P _ _ _ db p
          λ stocked. after_check_lines rest f db p λ s. q (visible, stocked, s)))

  pub after_create_order :
      (customer : User) (items : List LineItem) (address : Address) (order_id : ℕ) (uuid : ℕ → ℕ)
      (now : ℕ) (db : Db)
      → P db
      → ((seller_id : ℕ) (lines : List Line) (head : Line)
          → customer.referring_seller_id ≡ some seller_id
          → resolve db (aggregate items) ≡ some lines
          → not (all_from seller_id lines) ≡ false
          → Sellable lines
          → first lines ≡ some head
          → P (
              with_new_order
                (new_order order_id customer seller_id
                  (lowest_id head lines).product.store_id
                  (subtotal lines)
                  address
                  now)
                (map (order_item uuid order_id) lines)
                (decrement lines db)))
      → P (create_order customer items address order_id uuid now db).1
  unfolding create_order
  after_create_order customer items address order_id uuid now db p q =
      after_raise_if P _ _ _ db p λ is_customer. after_raise_if P _ _ _ db p λ nonempty.
        after_or_raise P _ _ _ db p λ seller_id referred. after_gets P _ _ _ (
          after_or_raise P _ _ _ db p λ lines resolved. after_or_raise P _ _ _ db p λ head at_head.
            after_raise_if P _ _ _ db p λ own. after_check_lines lines _ db p λ sellable.
              after_modify P _ _ _ (
                after_modify P _ _ _ (
                  after_reload P _ _
                    (q seller_id lines head referred resolved own sellable at_head))))
