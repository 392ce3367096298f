-- ===== src/Orders/Lifecycle/Sweep.antt =====
-- A run of the purge job moves each order along the diagram: its first loop completes delivered
-- orders, and its second erases what is terminal by then.
use marketplace_invite_only.Common.{
  ◌≡◌, refl, ap, ℕ, true, ◌⊎◌, inl, inr, Option, none, some, List, ◌∷◌, ◌==◌, Bool-cases, arith,
}
use marketplace_invite_only.Common.Tables.{
  All, All-map, IsUnique, IsRow, select-IsRow, update-IsUnique, find-update, select,
}
use mathlib.Core.Option
use marketplace_invite_only.Models.{OrderStatus, Order, Db}
use marketplace_invite_only.Orders.Loading.{find_order, with_order}
use marketplace_invite_only.Orders.Closing.{complete_at, is_terminal}
use marketplace_invite_only.Orders.Retention.{is_due, is_purgeable, run_purge_job}
use marketplace_invite_only.Orders.Effects.Closing.{settings_at, with_final_snapshot}
use marketplace_invite_only.Orders.Effects.Purge.{
  completed_round, purged_round, after_run_purge_job,
}
use marketplace_invite_only.Orders.Lifecycle.{
  Moves, status_in, status_of, completing, stay, follow, erase, complete_and_erase,
}
use marketplace_invite_only.Orders.Lifecycle.Steps.{
  Follows, delete-Moves, orders-with_final_snapshot, orders-with_snapshot,
}

-- Where an order stands after the first loop.
abbrev Stage : Option OrderStatus → Option OrderStatus → Type 0
Stage before now =
    (now ≡ before) ⊎ ((before ≡ some OrderStatus.delivered) × (now ≡ some OrderStatus.completed))

Stage-completed :
    (before : Option OrderStatus) (found : Option Order) (now : ℕ)
    → before ≡ some OrderStatus.delivered
    → Stage before (status_in found)
    → Stage before (status_in (Option.map (complete_at now) found))
Stage-completed before none now h s = ground arith
Stage-completed before (some o) now h s = inr (h, refl)

Stage-Moves : (before now : Option OrderStatus) → Stage before now → Moves before now
Stage-Moves before now (inl e) = rw e stay
Stage-Moves before now (inr (d, c)) = rw (d, c) (follow completing)

-- What is terminal after the first loop can be erased.
Stage-erase :
    (before : Option OrderStatus) (t : OrderStatus)
    → Stage before (some t)
    → is_terminal t ≡ true
    → Moves before none
Stage-erase before t (inl e) h = rw (← e) (erase h)
Stage-erase before t (inr (d, c)) h = rw d complete_and_erase

module _ (db : Db) where
  -- Along the first loop: every order stands as the loop leaves it, and those to come were
  -- delivered.
  abbrev Completing : List Order → Db → Type 0
  Completing rows db' =
      ((j : ℕ) → Stage (status_of j db) (status_of j db'))
      × IsUnique (λ (o : Order). o.id) db'.orders
      × All (λ o. status_of o.id db ≡ some OrderStatus.delivered) rows

  -- Along the second loop: those to come may be erased.
  abbrev Erasing : List Order → Db → Type 0
  Erasing rows db' =
      ((j : ℕ) → Moves (status_of j db) (status_of j db'))
      × All (λ o. Moves (status_of o.id db) none) rows

  Completing-round :
      (uuid : ℕ → ℕ) (now : ℕ) (o : Order) (rest : List Order) (db' : Db)
      → Completing (o ∷ rest) db'
      → Completing rest (completed_round uuid now o db')
  Completing-round uuid now o rest db' q =
      rw
        (orders-with_snapshot (uuid o.id) now (complete_at now o)
          (with_order o.id (complete_at now) db'))
        (
          (λ j.
              rw (find-update (λ (p : Order). p.id) j o.id (complete_at now) db'.orders (λ p. refl))
                (elim (Bool-cases (j == o.id)) [
                  | inl e ↦
                      let at : j ≡ o.id = ground arith in
                      rw e (
                        Stage-completed (status_of j db) (find_order j db') now (rw at q.2.0)
                          (q.0 j))
                  | inr e ↦ rw e (q.0 j)
                ])),
          update-IsUnique (λ (p : Order). p.id) o.id (complete_at now) db'.orders (λ p. refl) q.1,
          q.2.1,
        )

  Erasing-round :
      (uuid : ℕ → ℕ) (now : ℕ) (o : Order) (rest : List Order) (db' : Db)
      → Erasing (o ∷ rest) db'
      → Erasing rest (purged_round uuid now o db')
  Erasing-round uuid now o rest db' r = (
    (λ j.
        delete-Moves o.id j (status_of j db) (with_final_snapshot (uuid o.id) now o db')
          (rw (orders-with_final_snapshot (uuid o.id) now o db') (r.0 j))
          (λ e. let at : j ≡ o.id = ground arith in rw at r.1.0)),
    r.1.1,
  )

  -- The rows of the two selects.
  due-delivered :
      (now grace : ℕ) (o : Order)
      → IsRow (λ (p : Order). p.id) (is_due now grace) db.orders o
      → status_of o.id db ≡ some OrderStatus.delivered
  due-delivered now grace o (found, due) =
      let h : o.status ≡ OrderStatus.delivered = ground arith in rw found (ap some h)

  purgeable-erasable :
      (now min_days : ℕ) (db' : Db) (o : Order)
      → ((j : ℕ) → Stage (status_of j db) (status_of j db'))
      → IsRow (λ (p : Order). p.id) (is_purgeable now min_days) db'.orders o
      → Moves (status_of o.id db) none
  purgeable-erasable now min_days db' o stages (found, purgeable) =
      Stage-erase (status_of o.id db) o.status (rw found at (stages o.id)) (ground arith)

  pub purge-Follows :
      (k : ℕ) (uuid uuid' : ℕ → ℕ) (now : ℕ)
      → IsUnique (λ (o : Order). o.id) db.orders
      → Follows db k (run_purge_job uuid uuid' now db).1
  purge-Follows k uuid uuid' now unique =
      after_run_purge_job (Follows db k) Completing Erasing uuid uuid' now
        (Completing-round uuid now) (Erasing-round uuid' now) db
        (λ s. (
          (λ j. inl refl),
          unique,
          All-map (due-delivered now (settings_at now db).order_auto_complete_grace_hours)
              (select (is_due now (settings_at now db).order_auto_complete_grace_hours) db.orders)
              (select-IsRow (λ (o : Order). o.id)
                (is_due now (settings_at now db).order_auto_complete_grace_hours) db.orders unique),
        ))
        (λ db' q. (
          (λ j. Stage-Moves (status_of j db) (status_of j db') (q.0 j)),
          All-map
              (λ o row.
                purgeable-erasable now (settings_at now db).retention_min_days db' o q.0 row)
              (select (is_purgeable now (settings_at now db).retention_min_days) db'.orders)
              (select-IsRow (λ (o : Order). o.id)
                (is_purgeable now (settings_at now db).retention_min_days) db'.orders q.1),
        ))
        (λ db' r. r.0 k)
