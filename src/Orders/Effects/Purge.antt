-- ===== src/Orders/Effects/Purge.antt =====
-- The effects of the purge job: one rule for each loop, over what is left of its rows.
use marketplace_invite_only.Common.{ℕ, ◌+◌, List, [], ◌∷◌, Option}
use marketplace_invite_only.Common.Tables.{select}
use marketplace_invite_only.Models.{Order, PlatformSettings, Db}
use marketplace_invite_only.Session.{Action, ◌>>=◌}
use marketplace_invite_only.Session.Rules.{
  after_assoc, after_pure, after_pure_bind, after_gets, after_modify,
}
use marketplace_invite_only.Orders.Loading.{with_order}
use marketplace_invite_only.Orders.Closing.{with_snapshot, write_snapshot, complete_at}
use marketplace_invite_only.Orders.Retention.{
  delete_cascade, is_due, is_purgeable, auto_complete, purge, run_purge_job,
}
use marketplace_invite_only.Orders.Effects.Closing.{
  settings_at, with_settings, with_final_snapshot, known_settings, after_snapshot_if_completed,
}

-- One round of each loop.
abbrev pub completed_round : (ℕ → ℕ) → ℕ → Order → Db → Db
completed_round uuid now o db =
    with_snapshot (uuid o.id) now (complete_at now o) (with_order o.id (complete_at now) db)

abbrev pub purged_round : (ℕ → ℕ) → ℕ → Order → Db → Db
purged_round uuid now o db = delete_cascade o.id (with_final_snapshot (uuid o.id) now o db)

module _ {ℓ κ} (P : Db → Type ℓ) (Q : List Order → Db → Type κ) (uuid : ℕ → ℕ) (now : ℕ) where
  pub after_auto_complete :
      {A : Type 0}
      → ((o : Order) (rest : List Order) (db : Db)
          → Q (o ∷ rest) db
          → Q rest (completed_round uuid now o db))
      → (rows : List Order) (f : ℕ → Action A) (db : Db) → Q rows db
      → ((n : ℕ) (db' : Db) → Q [] db' → P (f n db').1)
      → P ((auto_complete uuid now rows >>= f) db).1
  unfolding auto_complete write_snapshot
  after_auto_complete step [] f db q h = after_pure_bind P _ _ _ (h 0 db q)
  after_auto_complete step (o ∷ rest) f db q h = after_assoc P _ _ _ _ (
      after_modify P _ _ _ (
        after_assoc P _ _ _ _ (
          after_modify P _ _ _ (
            after_assoc P _ _ _ _ (
              after_auto_complete step rest _ _ (step o rest db q)
                (λ n db' q'. after_pure_bind P _ _ _ (h (n + 1) db' q')))))))

  pub after_purge :
      {A : Type 0}
      → ((o : Order) (rest : List Order) (db : Db)
          → Q (o ∷ rest) db
          → Q rest (purged_round uuid now o db))
      → (rows : List Order) (f : ℕ → Action A) (db : Db) → Q rows db
      → ((n : ℕ) (db' : Db) → Q [] db' → P (f n db').1)
      → P ((purge uuid now rows >>= f) db).1
  unfolding purge
  after_purge step [] f db q h = after_pure_bind P _ _ _ (h 0 db q)
  after_purge step (o ∷ rest) f db q h = after_assoc P _ _ _ _ (
      after_snapshot_if_completed P (uuid o.id) now o _ _ (
        after_assoc P _ _ _ _ (
          after_modify P _ _ _ (
            after_assoc P _ _ _ _ (
              after_purge step rest _ _ (step o rest db q)
                (λ n db' q'. after_pure_bind P _ _ _ (h (n + 1) db' q')))))))

-- `Q` holds along the first loop and `R` along the second; `R` starts from any database that the
-- first loop can leave.
module _ {ℓ κ μ} (P : Db → Type ℓ) (Q : List Order → Db → Type κ) (R : List Order → Db → Type μ)
    (uuid uuid' : ℕ → ℕ) (now : ℕ) where
  pub after_run_purge_job :
      ((o : Order) (rest : List Order) (db : Db)
        → Q (o ∷ rest) db
        → Q rest (completed_round uuid now o db))
      → ((o : Order) (rest : List Order) (db : Db)
          → R (o ∷ rest) db
          → R rest (purged_round uuid' now o db))
      → (db : Db)
      → ((s : Option PlatformSettings)
          → Q
              (select (is_due now (settings_at now db).order_auto_complete_grace_hours) db.orders)
              (with_settings s db))
      → ((db' : Db)
          → Q [] db'
          → R (select (is_purgeable now (settings_at now db).retention_min_days) db'.orders) db')
      → ((db' : Db) → R [] db' → P db')
      → P (run_purge_job uuid uuid' now db).1
  unfolding run_purge_job
  after_run_purge_job complete delete db start between finish = known_settings P now _ db λ s.
      after_gets P _ _ _ (
        after_auto_complete P Q uuid now complete _ _ _ (start s) λ n db' q. after_gets P _ _ _ (
          after_purge P R uuid' now delete _ _ _ (between db' q)
            λ m db'' r. after_pure P _ _ (finish db'' r)))
