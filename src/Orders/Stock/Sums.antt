-- ===== src/Orders/Stock/Sums.antt =====
-- The quantities that `create_order` adds up for each product: one entry for a product, with the sum.
use marketplace_invite_only.Common.{
  ◌≡◌, refl, ℕ, ◌+◌, false, none, List, [], ◌∷◌, ◌==◌, if◌then◌else◌, arith,
}
use marketplace_invite_only.Common.Tables.{IsUnique, find}
use marketplace_invite_only.Orders.Placing.{LineItem, Quantities, add_quantity, aggregate_from}

-- How many of a product the items ask for.
unfoldable pub asked : ℕ → List LineItem → ℕ
asked k [] = 0
asked k (i ∷ rest) = (if i.product_id == k then i.quantity else 0) + asked k rest

unfoldable pub sold : ℕ → Quantities → ℕ
sold k [] = 0
sold k ((j, n) ∷ rest) = (if j == k then n else 0) + sold k rest

sold-add_quantity :
    (k pid qty : ℕ) (q : Quantities)
    → sold k (add_quantity pid qty q) ≡ sold k q + (if pid == k then qty else 0)
unfolding sold add_quantity
sold-add_quantity k pid qty [] = ground arith
sold-add_quantity k pid qty ((j, n) ∷ rest) = ground (arith, sold-add_quantity k pid qty rest)

pub sold-aggregate_from :
    (k : ℕ) (q : Quantities) (items : List LineItem)
    → sold k (aggregate_from q items) ≡ sold k q + asked k items
unfolding aggregate_from asked
sold-aggregate_from k q [] = omega arith
sold-aggregate_from k q (i ∷ rest) = omega (
  arith,
  sold-aggregate_from k (add_quantity i.product_id i.quantity q) rest,
  sold-add_quantity k i.product_id i.quantity q,
)

find-add_quantity :
    (k pid qty : ℕ) (q : Quantities)
    → find (λ (e : ℕ × ℕ). e.0) k q ≡ none
    → (pid == k) ≡ false
    → find (λ (e : ℕ × ℕ). e.0) k (add_quantity pid qty q) ≡ none
unfolding find add_quantity
find-add_quantity k pid qty [] h d = ground arith
find-add_quantity k pid qty ((j, n) ∷ rest) h d = ground (arith, find-add_quantity k pid qty rest)

add_quantity-IsUnique :
    (pid qty : ℕ) (q : Quantities)
    → IsUnique (λ (e : ℕ × ℕ). e.0) q
    → IsUnique (λ (e : ℕ × ℕ). e.0) (add_quantity pid qty q)
unfolding find add_quantity
add_quantity-IsUnique pid qty [] u = (refl, tt)
add_quantity-IsUnique pid qty ((j, n) ∷ rest) u =
    ground (arith, add_quantity-IsUnique pid qty rest u.1, find-add_quantity j pid qty rest u.0)

pub aggregate_from-IsUnique :
    (q : Quantities) (items : List LineItem)
    → IsUnique (λ (e : ℕ × ℕ). e.0) q
    → IsUnique (λ (e : ℕ × ℕ). e.0) (aggregate_from q items)
unfolding aggregate_from
aggregate_from-IsUnique q [] u = u
aggregate_from-IsUnique q (i ∷ rest) u =
    aggregate_from-IsUnique (add_quantity i.product_id i.quantity q) rest
      (add_quantity-IsUnique i.product_id i.quantity q u)

pub sold-absent : (k : ℕ) (q : Quantities) → find (λ (e : ℕ × ℕ). e.0) k q ≡ none → sold k q ≡ 0
unfolding sold find
sold-absent k [] h = refl
sold-absent k ((j, n) ∷ rest) h = ground (arith, sold-absent k rest)
