-- ===== src/Orders/Deletion.antt =====
-- What the hard delete of an order needs and leaves.
use marketplace_invite_only.Common.{
  ◌≡◌, ◌∙◌, sym, ℕ, ◌+◌, ◌≤◌, true, false, Option, none, some, ◌==◌, is_some, if◌then◌else◌,
  Bool-cases, inl, inr, ◌⊎◌, arith, not-false,
}
use mathlib.Core.Path.{subst, ap}
use mathlib.Core.Option.{some-injective}
use marketplace_invite_only.Common.Tables.{find, find_key, find-append, find-remove}
use marketplace_invite_only.Models.{PlatformSettings, User, Order, OrderStatus, status_is, Db}
use marketplace_invite_only.Orders.Loading.{find_order}
use marketplace_invite_only.Orders.Closing.{find_snapshot, snapshot_of, with_snapshot}
use marketplace_invite_only.Orders.Retention.{
  days, terminal_at, may_delete, delete_cascade, delete_order,
}
use marketplace_invite_only.Orders.Lifecycle.Steps.{orders-with_final_snapshot}
use marketplace_invite_only.Orders.Effects.Closing.{
  settings_at, with_settings, with_final_snapshot, after_delete_order,
}

-- The order was one that the caller may delete, in a terminal state for the time of retention, and a
-- snapshot of it is there if it was completed.
abbrev pub Retained : User → ℕ → Order → Db → Db → Type 0
Retained caller now o db db' =
    (may_delete caller o ≡ true)
    × ((ended : ℕ) × (terminal_at o ≡ some ended)
        × (ended + days (settings_at now db).retention_min_days ≤ now))
    × ((status_is o.status OrderStatus.completed ≡ false)
        ⊎ (is_some (find_snapshot o.id db') ≡ true))

with_snapshot-found :
    (snapshot_id now : ℕ) (o : Order) (db : Db)
    → is_some (find_snapshot o.id (with_snapshot snapshot_id now o db)) ≡ true
unfolding snapshot_of
with_snapshot-found snapshot_id now o db = elim (Bool-cases (is_some (find_snapshot o.id db))) [
  | inl e ↦ ground (arith, e)
  | inr e ↦
      ground (
        arith,
        e,
        find-append (λ s. s.order_id) o.id db.snapshots (snapshot_of snapshot_id now o db),
      )
]

final_snapshot-found :
    (snapshot_id now : ℕ) (o : Order) (db : Db)
    → (status_is o.status OrderStatus.completed ≡ false)
      ⊎ (is_some
            (find_snapshot o.id (delete_cascade o.id (with_final_snapshot snapshot_id now o db)))
          ≡ true)
final_snapshot-found snapshot_id now o db =
    elim (Bool-cases (status_is o.status OrderStatus.completed)) [
      | inr e ↦ inl e
      | inl e ↦ inr (rw e (with_snapshot-found snapshot_id now o db))
    ]

-- The rows are deleted: either those of another order or those of one that was retained.
erased-Retained :
    (caller : User) (order_id snapshot_id now later k ended : ℕ) (s : Option PlatformSettings)
    (db : Db) (o p : Order)
    → find_order k db ≡ some o
    → find_order order_id db ≡ some p
    → may_delete caller p ≡ true
    → terminal_at p ≡ some ended
    → ended + days (settings_at now db).retention_min_days ≤ now
    → (find_order k
          (delete_cascade p.id (with_final_snapshot snapshot_id later p (with_settings s db)))
        ≡ some o)
      ⊎ Retained caller now o db
          (delete_cascade p.id (with_final_snapshot snapshot_id later p (with_settings s db)))
erased-Retained caller order_id snapshot_id now later k ended s db o p found at allowed terminal
      over =
    let key : p.id ≡ order_id = find_key (λ (q : Order). q.id) order_id db.orders at in
    let db1 = with_final_snapshot snapshot_id later p (with_settings s db) in
    elim (Bool-cases (k == order_id)) [
      | inl e ↦
          let here : k ≡ order_id = ground arith in
          let same : p ≡ o =
            some-injective _ _ (sym at ∙ sym (ap (λ j. find_order j db) here) ∙ found) in
          inr (
            subst (λ q. Retained caller now q db (delete_cascade p.id db1)) same
              (
                allowed,
                (ended, terminal, over),
                final_snapshot-found snapshot_id later p (with_settings s db),
              ))
      | inr e ↦
          let rows : db1.orders ≡ db.orders =
            orders-with_final_snapshot snapshot_id later p (with_settings s db) in
          let other : (k == p.id) ≡ false = ground (arith, key, e) in
          let kept : find_order k db1 ≡ some o =
            subst (λ os. find (λ (q : Order). q.id) k os ≡ some o) (sym rows) found in
          inl (
            find-remove (λ (q : Order). q.id) k p.id db1.orders
            ∙ subst (λ b. (if b then none else find_order k db1) ≡ some o) (sym other) kept)
    ]

-- When a call to delete an order makes the order under any id go away, then the caller is one who may
-- delete it (its customer, its seller or an admin), it is completed or cancelled since at least the
-- days of retention in the settings (30 where none are stored), and there is an analytics snapshot
-- of it if it was completed.
pub delete_order-Retained :
    (caller : User) (order_id snapshot_id now later k : ℕ) (db : Db) (o : Order)
    → find_order k db ≡ some o
    → find_order k (delete_order caller order_id snapshot_id now later db).1 ≡ none
    → Retained caller now o db (delete_order caller order_id snapshot_id now later db).1
delete_order-Retained caller order_id snapshot_id now later k db o found gone =
    elim (after_delete_order (λ db'. (find_order k db' ≡ some o) ⊎ Retained caller now o db db')
      caller order_id snapshot_id now later db (λ s. inl found)
      λ p s ended at allowed terminal elapsed.
        erased-Retained caller order_id snapshot_id now later k ended s db o p found at
          (not-false allowed) terminal (ground (arith, elapsed))) [
            | inl still ↦ absurd (ground (arith, still, gone))
            | inr r ↦ r
          ]
