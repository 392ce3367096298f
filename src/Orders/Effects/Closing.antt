-- ===== src/Orders/Effects/Closing.antt =====
-- The effects of completing, cancelling and deleting an order.
use marketplace_invite_only.Common.{
  ◌≡◌, refl, ℕ, ◌+◌, Bool, true, false, not, ◌||◌, String, Option, none, some, ltb, if◌then◌else◌,
  or_else, not-false,
}
use marketplace_invite_only.Models.{
  UserRole, OrderStatus, status_is, User, Order, PlatformSettings, Db,
}
use marketplace_invite_only.Session.{Action, ◌>>=◌}
use marketplace_invite_only.Session.Rules.{
  after_assoc, after_pure, after_pure_bind, after_raise_bind, after_raise_if, after_or_raise,
  after_gets, after_modify, after_modify_only, after_when,
}
use marketplace_invite_only.Orders.Loading.{find_order, load_order_locked, with_order}
use marketplace_invite_only.Orders.Closing.{
  with_snapshot, write_snapshot, complete_at, complete_order, is_terminal, ensure_may_cancel,
  cancel_at, withdraw_open, cancel_order,
}
use marketplace_invite_only.Orders.Retention.{
  days, get_retention_settings, add_default_settings, default_settings, terminal_at, may_delete,
  delete_cascade, snapshot_if_completed, delete_order, update_retention_settings,
}
use marketplace_invite_only.Orders.Effects.Loading.{Locked, after_lock, after_reload}

abbrev pub with_settings : Option PlatformSettings → Db → Db
with_settings s db = record db { settings = s }

-- What `get_retention_settings` returns.
abbrev pub settings_at : ℕ → Db → PlatformSettings
settings_at now db = or_else db.settings (default_settings now)

-- What `snapshot_if_completed` leaves.
abbrev pub with_final_snapshot : ℕ → ℕ → Order → Db → Db
with_final_snapshot snapshot_id now o db =
    if status_is o.status OrderStatus.completed then with_snapshot snapshot_id now o db else db

-- The states that `ensure_may_cancel` lets a role leave.
abbrev pub may_cancel : UserRole → OrderStatus → Bool
may_cancel UserRole.customer s = status_is s OrderStatus.pending
may_cancel UserRole.seller s =
    status_is s OrderStatus.pending
    || status_is s OrderStatus.accepted
    || status_is s OrderStatus.preparing
may_cancel UserRole.admin s = true
may_cancel UserRole.driver s = false

module _ {ℓ} (P : Db → Type ℓ) where
  pub after_complete_order :
      (caller : User) (order_id snapshot_id now later : ℕ) (db : Db)
      → P db
      → ((o : Order)
          → Locked caller order_id db o
          → not (status_is o.status OrderStatus.delivered) ≡ false
          → P (
              with_snapshot snapshot_id later
                (complete_at now o)
                (with_order o.id (complete_at now) db)))
      → P (complete_order caller order_id snapshot_id now later db).1
  unfolding complete_order write_snapshot
  after_complete_order caller order_id snapshot_id now later db p q =
      after_raise_if P _ _ _ db p λ customer. after_lock P caller order_id _ db p λ o locked.
        after_raise_if P _ _ _ db p λ delivered.
          after_modify P _ _ _ (after_modify P _ _ _ (after_reload P _ _ (q o locked delivered)))

  pub after_ensure_may_cancel :
      {A : Type 0} (role : UserRole) (s : OrderStatus) (f : Unit {0} → Action A) (db : Db)
      → P db
      → (may_cancel role s ≡ true → P (f tt db).1)
      → P ((ensure_may_cancel role s >>= f) db).1
  unfolding ensure_may_cancel
  after_ensure_may_cancel UserRole.customer s f db p q =
      after_raise_if P _ _ _ db p λ e. q (not-false e)
  after_ensure_may_cancel UserRole.seller s f db p q =
      after_raise_if P _ _ _ db p λ e. q (not-false e)
  after_ensure_may_cancel UserRole.admin s f db p q = after_pure_bind P _ _ _ (q refl)
  after_ensure_may_cancel UserRole.driver s f db p q = after_raise_bind P _ _ _ p

  pub after_cancel_order :
      (caller : User) (order_id : ℕ) (reason : Option String) (now : ℕ) (db : Db)
      → P db
      → ((o : Order)
          → Locked caller order_id db o
          → (is_terminal o.status || status_is o.status OrderStatus.delivered) ≡ false
          → may_cancel caller.role o.status ≡ true
          → P (withdraw_open o.id (with_order o.id (cancel_at now reason) db)))
      → P (cancel_order caller order_id reason now db).1
  unfolding cancel_order
  after_cancel_order caller order_id reason now db p q =
      after_lock P caller order_id _ db p λ o locked. after_raise_if P _ _ _ db p λ active.
        after_ensure_may_cancel caller.role o.status _ db p λ may.
          after_modify P _ _ _ (after_modify P _ _ _ (after_reload P _ _ (q o locked active may)))

  after_add_default_settings :
      {A : Type 0} (now : ℕ) (found : Option PlatformSettings) (f : PlatformSettings → Action A)
      (db : Db)
      → ((s : Option PlatformSettings)
          → P (f (or_else found (default_settings now)) (with_settings s db)).1)
      → P ((add_default_settings now found >>= f) db).1
  unfolding add_default_settings
  after_add_default_settings now (some ps) f db q = after_pure_bind P _ _ _ (q db.settings)
  after_add_default_settings now none f db q =
      after_assoc P _ _ _ _
        (after_modify P _ _ _ (after_pure_bind P _ _ _ (q (some (default_settings now)))))

  pub known_settings :
      {A : Type 0} (now : ℕ) (f : PlatformSettings → Action A) (db : Db)
      → ((s : Option PlatformSettings) → P (f (settings_at now db) (with_settings s db)).1)
      → P ((get_retention_settings now >>= f) db).1
  unfolding get_retention_settings
  known_settings now f db q =
      after_assoc P _ _ _ _ (after_gets P _ _ _ (after_add_default_settings now db.settings _ db q))

  pub after_settings :
      {A : Type 0} (now : ℕ) (f : PlatformSettings → Action A) (db : Db)
      → ((ps : PlatformSettings) (s : Option PlatformSettings) → P (f ps (with_settings s db)).1)
      → P ((get_retention_settings now >>= f) db).1
  after_settings now f db q = known_settings now f db (q (settings_at now db))

  pub after_snapshot_if_completed :
      {A : Type 0} (snapshot_id now : ℕ) (o : Order) (f : Unit {0} → Action A) (db : Db)
      → P (f tt (with_final_snapshot snapshot_id now o db)).1
      → P ((snapshot_if_completed snapshot_id now o >>= f) db).1
  unfolding snapshot_if_completed write_snapshot
  after_snapshot_if_completed snapshot_id now o f db p =
      after_when P (status_is o.status OrderStatus.completed) _ f db p

  pub after_delete_order :
      (caller : User) (order_id snapshot_id now later : ℕ) (db : Db)
      → ((s : Option PlatformSettings) → P (with_settings s db))
      → ((o : Order) (s : Option PlatformSettings) (ended : ℕ)
          → find_order order_id db ≡ some o
          → not (may_delete caller o) ≡ false
          → terminal_at o ≡ some ended
          → ltb now (ended + days (settings_at now db).retention_min_days) ≡ false
          → P (delete_cascade o.id (with_final_snapshot snapshot_id later o (with_settings s db))))
      → P (delete_order caller order_id snapshot_id now later db).1
  unfolding delete_order load_order_locked
  after_delete_order caller order_id snapshot_id now later db p q = after_gets P _ _ _ (
      after_or_raise P _ _ _ db (p db.settings) λ o found.
        after_raise_if P _ _ _ db (p db.settings) λ live.
          after_raise_if P _ _ _ db (p db.settings) λ allowed.
            after_or_raise P _ _ _ db (p db.settings) λ ended terminal. known_settings now _ db λ s.
              after_raise_if P _ _ _ _ (p s) λ elapsed.
                after_snapshot_if_completed snapshot_id later o _ _
                  (after_modify_only P _ _ (q o s ended found allowed terminal elapsed)))

  pub after_update_settings :
      (caller : User) (min_days grace_hours : Option ℕ) (now : ℕ) (db : Db)
      → ((s : Option PlatformSettings) → P (with_settings s db))
      → P (update_retention_settings caller min_days grace_hours now db).1
  unfolding update_retention_settings
  after_update_settings caller min_days grace_hours now db p = after_settings now _ db λ ps s.
      after_raise_if P _ _ _ _ (p s) λ days_ok.
        after_modify P _ _ _
          (after_raise_if P _ _ _ _ (p _) λ hours_ok. after_modify P _ _ _ (after_pure P _ _ (p _)))
