-- ===== src/Orders/Retention.antt =====
-- Retention in order_service.py: the settings, hard deletes, and the purge job.
use marketplace_invite_only.Common.{
  ℕ, ◌+◌, ◌*◌, Bool, true, false, not, ◌&&◌, Option, none, some, List, [], ◌∷◌, ◌==◌, ltb, leb,
  is_some, is_none, if◌then◌else◌,
}
use marketplace_invite_only.Common.Tables.{select, delete_where, remove}
use marketplace_invite_only.Models.{
  UserRole, OrderStatus, status_is, User, Order, OrderItem, Delivery, DriverAssignment,
  PlatformSettings, OrderTrackingPoint, OrderMessage, DeliveryCode, DeliveryCodeAttempt, Db,
}
use marketplace_invite_only.Session.{
  Error, Action, pure, gets, or_raise, raise_if, modify, ◌>>=◌, ◌>>◌,
}
use marketplace_invite_only.Orders.Loading.{load_order_locked, set_order}
use marketplace_invite_only.Orders.Closing.{write_snapshot, complete_at}

-- `timedelta(days=n)` and `timedelta(hours=n)` in microseconds
abbrev pub days : ℕ → ℕ
days n = n * 86400000000

abbrev pub hours : ℕ → ℕ
hours n = n * 3600000000

abbrev pub default_settings : ℕ → PlatformSettings
default_settings now = record {
  retention_min_days = 30;
  order_auto_complete_grace_hours = 72;
  message_retention_days = 90;
  currency_code = "USD";
  updated_at = now;
  updated_by_user_id = none;
}

unfoldable pub add_default_settings : ℕ → Option PlatformSettings → Action PlatformSettings
add_default_settings now (some ps) = pure ps
add_default_settings now none = do
  modify (λ db. record db { settings = some (default_settings now) })
  pure (default_settings now)

unfoldable pub get_retention_settings : ℕ → Action PlatformSettings
get_retention_settings now = do found ← gets (λ db. db.settings); add_default_settings now found

-- `if x is not None: if x < 1: raise RetentionSettingInvalid()`
abbrev pub below_one : Option ℕ → Bool
below_one none = false
below_one (some n) = ltb n 1

abbrev pub new_value : Option ℕ → ℕ → ℕ
new_value none old = old
new_value (some n) old = n

unfoldable pub update_retention_settings : User → Option ℕ → Option ℕ → ℕ → Action PlatformSettings
update_retention_settings caller min_days grace_hours now = do
  ps ← get_retention_settings now
  raise_if (below_one min_days) Error.retention_setting_invalid
  modify (λ db. record db {
    settings = some (record ps { retention_min_days = new_value min_days ps.retention_min_days });
  })
  raise_if (below_one grace_hours) Error.retention_setting_invalid
  let ps' = record ps {
    retention_min_days = new_value min_days ps.retention_min_days;
    order_auto_complete_grace_hours = new_value grace_hours ps.order_auto_complete_grace_hours;
    updated_at = now;
    updated_by_user_id = some caller.id;
  }
  modify (λ db. record db { settings = some ps' })
  pure ps'

-- `_terminal_at`
abbrev pub terminal_at : Order → Option ℕ
terminal_at o =
    if status_is o.status OrderStatus.completed
    then o.completed_at
    else if status_is o.status OrderStatus.cancelled
    then o.cancelled_at
    else none

-- The role checks of `delete_order`.
abbrev pub may_delete : User → Order → Bool
may_delete caller o = elim caller.role [
  | UserRole.customer ↦ o.customer_id == caller.id
  | UserRole.seller ↦ o.seller_id == caller.id
  | UserRole.driver ↦ false
  | UserRole.admin ↦ true
]

-- `DELETE FROM orders WHERE id = …` with the foreign keys' ON DELETE CASCADE.
abbrev pub delete_cascade : ℕ → Db → Db
delete_cascade order_id db = record db {
  orders = remove (λ (o : Order). o.id) order_id db.orders;
  order_items = delete_where (λ (i : OrderItem). i.order_id == order_id) db.order_items;
  deliveries = delete_where (λ (d : Delivery). d.order_id == order_id) db.deliveries;
  assignments = delete_where (λ (a : DriverAssignment). a.order_id == order_id) db.assignments;
  points = delete_where (λ (p : OrderTrackingPoint). p.order_id == order_id) db.points;
  messages = delete_where (λ (m : OrderMessage). m.order_id == order_id) db.messages;
  codes = delete_where (λ (c : DeliveryCode). c.order_id == order_id) db.codes;
  attempts = delete_where (λ (a : DeliveryCodeAttempt). a.order_id == order_id) db.attempts;
}

unfoldable pub snapshot_if_completed : ℕ → ℕ → Order → Action (Unit {0})
snapshot_if_completed snapshot_id now o =
    if status_is o.status OrderStatus.completed then write_snapshot snapshot_id now o else pure tt

-- `now` is the reading that the window is measured at, `later` the one inside `_write_snapshot`
unfoldable pub delete_order : User → ℕ → ℕ → ℕ → ℕ → Action (Unit {0})
delete_order caller order_id snapshot_id now later = do
  found ← load_order_locked order_id
  order ← or_raise found Error.order_not_found
  raise_if (is_some order.deleted_at) Error.order_not_found
  raise_if (not (may_delete caller order)) Error.order_not_found
  ended ← or_raise (terminal_at order) Error.order_retention_not_met
  ps ← get_retention_settings now
  raise_if (ltb now (ended + days ps.retention_min_days)) Error.order_retention_not_met
  snapshot_if_completed snapshot_id later order
  modify (delete_cascade order.id)

-- `x is not None and x + window <= now`: the cutoffs of the purge job, without subtraction
abbrev pub elapsed : ℕ → ℕ → Option ℕ → Bool
elapsed now window none = false
elapsed now window (some at) = leb (at + window) now

-- The WHERE clauses of the two selects of the purge job.
abbrev pub is_due : ℕ → ℕ → Order → Bool
is_due now grace o =
    status_is o.status OrderStatus.delivered
    && elapsed now (hours grace) o.delivered_at
    && is_none o.deleted_at

abbrev pub is_purgeable : ℕ → ℕ → Order → Bool
is_purgeable now min_days o = elapsed now (days min_days) (terminal_at o) && is_none o.deleted_at

-- The loops of the purge job. `uuid` gives the id of the snapshot of an order; a loop returns
-- its count. The `continue` of the source is for a status that the select has excluded.
unfoldable pub auto_complete : (ℕ → ℕ) → ℕ → List Order → Action ℕ
auto_complete uuid now [] = pure 0
auto_complete uuid now (o ∷ rest) = do
  set_order o.id (complete_at now)
  write_snapshot (uuid o.id) now (complete_at now o)
  n ← auto_complete uuid now rest
  pure (n + 1)

unfoldable pub purge : (ℕ → ℕ) → ℕ → List Order → Action ℕ
purge uuid now [] = pure 0
purge uuid now (o ∷ rest) = do
  snapshot_if_completed (uuid o.id) now o
  modify (delete_cascade o.id)
  n ← purge uuid now rest
  pure (n + 1)

pub record PurgeReport : Type 0 where
  pub purged_count : ℕ
  pub auto_completed_count : ℕ

unfoldable pub run_purge_job : (ℕ → ℕ) → (ℕ → ℕ) → ℕ → Action PurgeReport
run_purge_job uuid uuid' now = do
  ps ← get_retention_settings now
  due ← gets (λ db. select (is_due now ps.order_auto_complete_grace_hours) db.orders)
  auto_completed ← auto_complete uuid now due
  candidates ← gets (λ db. select (is_purgeable now ps.retention_min_days) db.orders)
  purged ← purge uuid' now candidates
  pure (record { purged_count = purged; auto_completed_count = auto_completed })
