-- ===== src/Orders/Purged.antt =====
-- What a run of the purge job leaves behind.
use marketplace_invite_only.Common.{
  ◌≡◌, refl, ℕ, Bool, true, false, List, [], ◌∷◌, ◌==◌, is_some, Bool-cases, inl, inr, ◌⊎◌, arith,
}
use mathlib.Core.Path.{subst, sym}
use marketplace_invite_only.Common.Tables.{All, All-map, find, select, update_where, delete_where}
use marketplace_invite_only.Models.{Order, Db}
use marketplace_invite_only.Orders.Loading.{with_order}
use marketplace_invite_only.Orders.Closing.{complete_at}
use marketplace_invite_only.Orders.Retention.{is_due, is_purgeable, run_purge_job}
use marketplace_invite_only.Orders.Effects.Closing.{settings_at}
use marketplace_invite_only.Orders.Effects.Purge.{after_run_purge_job}
use marketplace_invite_only.Orders.Lifecycle.Steps.{
  orders-with_final_snapshot, orders-with_snapshot,
}

module _ {ℓ κ μ} {R : Type ℓ} (P : R → Type κ) (Q : R → Type μ) (p : R → Bool) where
  All-updated :
      (f : R → R) (rs : List R)
      → ((r : R) → p r ≡ true → P r → Q (f r))
      → ((r : R) → p r ≡ false → P r → Q r)
      → All P rs
      → All Q (update_where p f rs)
  unfolding update_where
  All-updated f [] h g a = tt
  All-updated f (r ∷ rs) h g a = elim (Bool-cases (p r)) [
    | inl e ↦ rw e (h r e a.0, All-updated f rs h g a.1)
    | inr e ↦ rw e (g r e a.0, All-updated f rs h g a.1)
  ]

  All-kept :
      (rs : List R) → ((r : R) → p r ≡ false → P r → Q r) → All P rs → All Q (delete_where p rs)
  unfolding delete_where
  All-kept [] g a = tt
  All-kept (r ∷ rs) g a = elim (Bool-cases (p r)) [
    | inl e ↦ rw e (All-kept rs g a.1)
    | inr e ↦ rw e (g r e a.0, All-kept rs g a.1)
  ]

-- An order that fails the test, or is among the rows that are still to be worked on.
abbrev Waits : (Order → Bool) → List Order → Order → Type 0
Waits p rows o = (p o ≡ false) ⊎ (is_some (find (λ (q : Order). q.id) o.id rows) ≡ true)

Waits-more :
    (p : Order → Bool) (r : Order) (rows : List Order) (o : Order)
    → Waits p rows o
    → Waits p (r ∷ rows) o
unfolding find
Waits-more p r rows o (inl e) = inl e
Waits-more p r rows o (inr e) = inr (ground (arith, e))

Waits-less :
    (p : Order → Bool) (r : Order) (rows : List Order) (o : Order)
    → (o.id == r.id) ≡ false
    → Waits p (r ∷ rows) o
    → Waits p rows o
unfolding find
Waits-less p r rows o d (inl e) = inl e
Waits-less p r rows o d (inr e) = inr (ground (arith, e, d))

Waits-none : (p : Order → Bool) (o : Order) → Waits p [] o → p o ≡ false
unfolding find
Waits-none p o (inl e) = e
Waits-none p o (inr e) = absurd (ground arith)

select-Waits : (p : Order → Bool) (rs : List Order) → All (Waits p (select p rs)) rs
unfolding select find
select-Waits p [] = tt
select-Waits p (r ∷ rs) = elim (Bool-cases (p r)) [
  | inl e ↦
      let same : select p (r ∷ rs) ≡ r ∷ select p rs = rw e refl in
      subst (λ xs. All (Waits p xs) (r ∷ rs)) (sym same)
        (inr (ground arith), All-map (Waits-more p r (select p rs)) rs (select-Waits p rs))
  | inr e ↦
      let same : select p (r ∷ rs) ≡ select p rs = rw e refl in
      subst (λ xs. All (Waits p xs) (r ∷ rs)) (sym same) (inl e, select-Waits p rs)
]

All-both : (P Q : Order → Type 0) (rs : List Order) → All P rs → All Q rs → All (λ o. P o × Q o) rs
All-both P Q [] a b = tt
All-both P Q (r ∷ rs) a b = ((a.0, b.0), All-both P Q rs a.1 b.1)

-- After a run of the purge job no order is left that is due for completion or for erasure at the time
-- of the run, by the settings at its start.
pub run_purge_job-clean :
    (uuid uuid' : ℕ → ℕ) (now : ℕ) (db : Db)
    → All
        (λ o.
          (is_due now (settings_at now db).order_auto_complete_grace_hours o ≡ false)
          × (is_purgeable now (settings_at now db).retention_min_days o ≡ false))
        (run_purge_job uuid uuid' now db).1.orders
run_purge_job-clean uuid uuid' now db =
    let due = is_due now (settings_at now db).order_auto_complete_grace_hours in
    let over = is_purgeable now (settings_at now db).retention_min_days in
    after_run_purge_job (λ db'. All (λ o. (due o ≡ false) × (over o ≡ false)) db'.orders)
      (λ rows db'. All (Waits due rows) db'.orders)
      (λ rows db'. All (λ o. (due o ≡ false) × Waits over rows o) db'.orders) uuid uuid' now
      (λ o rest db' a.
        rw
          (orders-with_snapshot (uuid o.id) now (complete_at now o)
            (with_order o.id (complete_at now) db'))
          (All-updated (Waits due (o ∷ rest)) (Waits due rest) (λ q. q.id == o.id) (complete_at now)
            db'.orders (λ q e w. inl refl) (λ q e w. Waits-less due o rest q e w) a))
      (λ o rest db' a. rw (orders-with_final_snapshot (uuid' o.id) now o db') (
        All-kept (λ q. (due q ≡ false) × Waits over (o ∷ rest) q)
          (λ q. (due q ≡ false) × Waits over rest q) (λ q. q.id == o.id) db'.orders
          (λ q e w. (w.0, Waits-less over o rest q e w.1)) a))
      db (λ s. select-Waits due db.orders)
      (λ db' a.
        All-both (λ o. due o ≡ false) (Waits over (select over db'.orders)) db'.orders
          (All-map (Waits-none due) db'.orders a) (select-Waits over db'.orders))
      (λ db' a. All-map (λ o w. (w.0, Waits-none over o w.1)) db'.orders a)
