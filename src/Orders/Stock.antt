-- ===== src/Orders/Stock.antt =====
-- What an order takes from the stock and what it costs, against the line items that were asked for.
mod Sums
use marketplace_invite_only.Common.{
  ◌≡◌, ◌∙◌, sym, refl, ℕ, ◌+◌, ◌*◌, ◌-◌, ◌≤◌, false, Option, none, some, List, [], ◌∷◌, map, ◌==◌,
  if◌then◌else◌, Bool-cases, Option-cases, inl, inr, ◌⊎◌, arith,
}
use native.Mathlib.Nat.{mul-add}
use mathlib.Core.Path.{subst}
use mathlib.Core.Option.{some-injective}
use marketplace_invite_only.Common.Tables.{
  IsUnique, find, find_key, find-update, find-append, update,
}
use marketplace_invite_only.Models.{OrderItem, User, Product, Address, Order, Db}
use marketplace_invite_only.Orders.Loading.{find_order}
use marketplace_invite_only.Orders.Placing.{
  LineItem, Quantities, add_quantity, aggregate_from, aggregate, Line, resolve, take_stock,
  decrement, lowest_id, subtotal, order_item, new_order, with_new_order, create_order,
}
use marketplace_invite_only.Orders.Lifecycle.Steps.{orders-decrement}
use marketplace_invite_only.Orders.Effects.Placing.{Sellable, after_create_order}
use Sums.{asked, sold, sold-aggregate_from, aggregate_from-IsUnique, sold-absent}

abbrev find_product : ℕ → Db → Option Product
find_product k db = find (λ (p : Product). p.id) k db.products

-- The stock of a product, where it is there and its stock is kept.
abbrev tracked : Option Product → Option ℕ
tracked none = none
tracked (some p) = p.stock_quantity

abbrev pub stock_of : ℕ → Db → Option ℕ
stock_of k db = tracked (find_product k db)

abbrev line_of : Product → ℕ → Line
line_of p qty = record { product = p; quantity = qty }

resolve-first :
    (db : Db) (pid qty : ℕ) (rest : Quantities) (lines : List Line)
    → resolve db ((pid, qty) ∷ rest) ≡ some lines
    → (p : Product) × (ls : List Line) × (find_product pid db ≡ some p)
      × (resolve db rest ≡ some ls)
      × (lines ≡ line_of p qty ∷ ls)
unfolding resolve
resolve-first db pid qty rest lines e = elim (Option-cases (find_product pid db)) [
  | inl n ↦ absurd (ground (arith, n))
  | inr (p, f) ↦ elim (Option-cases (resolve db rest)) [
    | inl n ↦ absurd (ground (arith, n, f))
    | inr (ls, g) ↦ (p, ls, f, g, some-injective _ _ (ground (arith, e, f, g)))
  ]
]

abbrev taken : Line → Db → Db
taken l db = record db {
  products = update (λ (p : Product). p.id) l.product.id (take_stock l.quantity) db.products;
}

find_product-taken :
    (k : ℕ) (l : Line) (db : Db)
    → (l.product.id == k) ≡ false
    → find_product k (taken l db) ≡ find_product k db
find_product-taken k l db h = ground (
  arith,
  find-update (λ (p : Product). p.id) k l.product.id (take_stock l.quantity) db.products
      (λ p. refl),
)

stock_of-taken :
    (k : ℕ) (l : Line) (db : Db) (stock : ℕ)
    → l.product.id ≡ k
    → stock_of k db ≡ some stock
    → stock_of k (taken l db) ≡ some (stock - l.quantity)
stock_of-taken k l db stock at h =
    let law =
      find-update (λ (p : Product). p.id) k l.product.id (take_stock l.quantity) db.products
        (λ p. refl) in
    elim (Option-cases (find_product k db)) [
      | inl n ↦ absurd (ground (arith, n, h))
      | inr (p, f) ↦ ground (arith, law, f, h, at)
    ]

decrement-absent :
    (k : ℕ) (q : Quantities) (db0 db : Db) (lines : List Line)
    → find (λ (e : ℕ × ℕ). e.0) k q ≡ none
    → resolve db0 q ≡ some lines
    → find_product k (decrement lines db) ≡ find_product k db
unfolding find decrement resolve
decrement-absent k [] db0 db lines h e = rw (sym (some-injective _ _ e)) refl
decrement-absent k ((pid, qty) ∷ rest) db0 db lines h e =
    let (p, ls, f, g, same) = resolve-first db0 pid qty rest lines e in
    let at : p.id ≡ pid = find_key (λ (p : Product). p.id) pid db0.products f in
    rw same (
      decrement-absent k rest db0 (taken (line_of p qty) db) ls (ground arith) g
      ∙ find_product-taken k (line_of p qty) db (ground (arith, at)))

decrement-sold :
    (k : ℕ) (q : Quantities) (db0 db : Db) (lines : List Line) (stock : ℕ)
    → IsUnique (λ (e : ℕ × ℕ). e.0) q
    → resolve db0 q ≡ some lines
    → Sellable lines
    → stock_of k db0 ≡ some stock
    → stock_of k db ≡ some stock
    → (left : ℕ) × (stock_of k (decrement lines db) ≡ some left) × (left + sold k q ≡ stock)
unfolding decrement sold resolve
decrement-sold k [] db0 db lines stock u e s h0 h =
    (stock, rw (sym (some-injective _ _ e)) h, ground arith)
decrement-sold k ((pid, qty) ∷ rest) db0 db lines stock u e s h0 h =
    let (p, ls, f, g, same) = resolve-first db0 pid qty rest lines e in
    let at : p.id ≡ pid = find_key (λ (p : Product). p.id) pid db0.products f in
    let (shown, stocked, s') = subst Sellable same s in
    elim (Bool-cases (pid == k)) [
      | inl hit ↦
          let here : pid ≡ k = ground arith in
          let gone : find (λ (e : ℕ × ℕ). e.0) k rest ≡ none = rw (sym here) u.0 in
          let enough : qty ≤ stock = ground (arith, f, h0, here, stocked) in
          (
            stock - qty,
            rw (same, decrement-absent k rest db0 (taken (line_of p qty) db) ls gone g)
                (stock_of-taken k (line_of p qty) db stock (at ∙ here) h),
            ground (arith, hit, sold-absent k rest gone),
          )
      | inr miss ↦
          let (left, after, total) =
            decrement-sold k rest db0 (taken (line_of p qty) db) ls stock u.1 g s' h0
              (rw (find_product-taken k (line_of p qty) db (ground (arith, at))) h) in
          (left, rw same after, ground (arith, miss, total))
    ]

abbrev price_in : Option Product → ℕ
price_in none = 0
price_in (some p) = p.price_minor

-- What the items cost at the prices in the database.
unfoldable pub cost : Db → List LineItem → ℕ
cost db [] = 0
cost db (i ∷ rest) = price_in (find_product i.product_id db) * i.quantity + cost db rest

unfoldable worth : Db → Quantities → ℕ
worth db [] = 0
worth db ((j, n) ∷ rest) = price_in (find_product j db) * n + worth db rest

worth-add_quantity :
    (db : Db) (pid qty : ℕ) (q : Quantities)
    → worth db (add_quantity pid qty q) ≡ worth db q + price_in (find_product pid db) * qty
unfolding worth add_quantity
worth-add_quantity db pid qty [] = omega arith
worth-add_quantity db pid qty ((j, n) ∷ rest) = elim (Bool-cases (j == pid)) [
  | inl e ↦
      let same : j ≡ pid = ground arith in
      rw (e, same, mul-add (price_in (find_product pid db)) n qty) (omega arith)
  | inr e ↦ rw e (omega (arith, worth-add_quantity db pid qty rest))
]

worth-aggregate_from :
    (db : Db) (q : Quantities) (items : List LineItem)
    → worth db (aggregate_from q items) ≡ worth db q + cost db items
unfolding aggregate_from cost
worth-aggregate_from db q [] = omega arith
worth-aggregate_from db q (i ∷ rest) = omega (
  arith,
  worth-aggregate_from db (add_quantity i.product_id i.quantity q) rest,
  worth-add_quantity db i.product_id i.quantity q,
)

subtotal-worth :
    (db : Db) (q : Quantities) (lines : List Line)
    → resolve db q ≡ some lines
    → subtotal lines ≡ worth db q
unfolding subtotal worth resolve
subtotal-worth db [] lines e = rw (sym (some-injective _ _ e)) refl
subtotal-worth db ((pid, qty) ∷ rest) lines e =
    let (p, ls, f, g, same) = resolve-first db pid qty rest lines e in
    rw (same, f) (omega (arith, subtotal-worth db rest ls g))

-- The stock of one product after the order, and the total of the order that was placed.
abbrev pub Charged : ℕ → ℕ → List LineItem → Db → Db → Order → Type 0
Charged k stock items db db' o =
    (left : ℕ) × (stock_of k db' ≡ some left)
    × (left + asked k items ≡ stock)
    × (o.total_minor ≡ cost db items)

-- An order that is written after the checks.
placed-Charged :
    (k stock : ℕ) (items : List LineItem) (lines : List Line) (rows : List OrderItem) (o : Order)
    (db : Db)
    → find_order o.id db ≡ none
    → stock_of k db ≡ some stock
    → resolve db (aggregate items) ≡ some lines
    → Sellable lines
    → o.total_minor ≡ subtotal lines
    → (find_order o.id (with_new_order o rows (decrement lines db)) ≡ some o)
      × Charged k stock items db (with_new_order o rows (decrement lines db)) o
unfolding aggregate sold worth
placed-Charged k stock items lines rows o db fresh h resolved sellable total =
    let (left, after, sum) =
      decrement-sold k (aggregate items) db db lines stock (aggregate_from-IsUnique [] items tt)
        resolved sellable h h in
    let same : find_order o.id (decrement lines db) ≡ none = rw (orders-decrement lines db) fresh in
    let law = find-append (λ (p : Order). p.id) o.id (decrement lines db).orders o in
    (
      ground (arith, law, same),
      (
        left,
        after,
        omega (arith, sum, sold-aggregate_from k [] items),
        omega (
          arith,
          total,
          subtotal-worth db (aggregate items) lines resolved,
          worth-aggregate_from db [] items,
        ),
      ),
    )

-- When placing an order leaves one under its fresh id, then the stock of every product whose stock is
-- kept has gone down by exactly the sum of the quantities that the items ask for of it, so that no
-- more is sold than there was, and the total of the order is the sum of price times quantity over
-- the items, at the prices in the database. The items may name a product more than once.
pub create_order-Charged :
    (customer : User) (items : List LineItem) (address : Address) (id : ℕ) (uuid : ℕ → ℕ) (now : ℕ)
    (k stock : ℕ) (db : Db) (o : Order)
    → find_order id db ≡ none
    → stock_of k db ≡ some stock
    → find_order id (create_order customer items address id uuid now db).1 ≡ some o
    → Charged k stock items db (create_order customer items address id uuid now db).1 o
create_order-Charged customer items address id uuid now k stock db o fresh h placed =
    elim (after_create_order
      (λ db'.
        (find_order id db' ≡ none)
        ⊎ ((p : Order) × (find_order id db' ≡ some p) × Charged k stock items db db' p))
      customer items address id uuid now db (inl fresh)
      λ seller_id lines head referred resolved own sellable at_head.
        let (found, charged) =
          placed-Charged k stock items lines (map (order_item uuid id) lines)
            (new_order id customer seller_id (lowest_id head lines).product.store_id
              (subtotal lines) address now)
            db fresh h resolved sellable refl in
        inr (_, found, charged)) [
          | inl none_yet ↦ absurd (ground arith)
          | inr (p, found, charged) ↦
              subst
                (Charged k stock items db (create_order customer items address id uuid now db).1)
                (some-injective _ _ (sym found ∙ placed)) charged
        ]
