-- ===== src/Models/Enums.antt =====
-- backend/app/models/enums.py: the enumerations of the schema, with their equality tests.
use mathlib.Core.Bool.{Bool, true, false}

pub data UserRole : Type 0 where
  admin seller customer driver : UserRole

pub data OrderStatus : Type 0 where
  pending accepted preparing out_for_delivery delivered completed cancelled : OrderStatus

pub data DeliveryStatus : Type 0 where
  pending in_transit delivered failed : DeliveryStatus

pub data AssignmentStatus : Type 0 where
  requested assigned accepted declined cancelled : AssignmentStatus

pub data InviteLinkType : Type 0 where
  admin_invite seller_referral : InviteLinkType

-- `users.status`
pub data UserStatus : Type 0 where
  active suspended : UserStatus

-- `products.status`
pub data ProductStatus : Type 0 where
  active disabled out_of_stock : ProductStatus

-- `user_public_keys.status`
pub data KeyStatus : Type 0 where
  active rotated revoked : KeyStatus

-- `role == …`
abbrev pub role_is : UserRole → UserRole → Bool
role_is UserRole.admin UserRole.admin = true
role_is UserRole.seller UserRole.seller = true
role_is UserRole.customer UserRole.customer = true
role_is UserRole.driver UserRole.driver = true
role_is _ _ = false

-- `status == …`
abbrev pub status_is : OrderStatus → OrderStatus → Bool
status_is OrderStatus.pending OrderStatus.pending = true
status_is OrderStatus.accepted OrderStatus.accepted = true
status_is OrderStatus.preparing OrderStatus.preparing = true
status_is OrderStatus.out_for_delivery OrderStatus.out_for_delivery = true
status_is OrderStatus.delivered OrderStatus.delivered = true
status_is OrderStatus.completed OrderStatus.completed = true
status_is OrderStatus.cancelled OrderStatus.cancelled = true
status_is _ _ = false

-- `delivery.status == "delivered"`
abbrev pub is_delivered : DeliveryStatus → Bool
is_delivered DeliveryStatus.delivered = true
is_delivered _ = false

-- `status.in_(("requested", "assigned", "accepted"))`
abbrev pub is_open : AssignmentStatus → Bool
is_open AssignmentStatus.requested = true
is_open AssignmentStatus.assigned = true
is_open AssignmentStatus.accepted = true
is_open _ = false

-- `status.in_(("assigned", "accepted"))`
abbrev pub is_taken : AssignmentStatus → Bool
is_taken AssignmentStatus.assigned = true
is_taken AssignmentStatus.accepted = true
is_taken _ = false

-- `status == "cancelled"`
abbrev pub is_withdrawn : AssignmentStatus → Bool
is_withdrawn AssignmentStatus.cancelled = true
is_withdrawn _ = false

abbrev pub is_referral : InviteLinkType → Bool
is_referral InviteLinkType.seller_referral = true
is_referral InviteLinkType.admin_invite = false

-- `user.status == "suspended"`
abbrev pub is_suspended : UserStatus → Bool
is_suspended UserStatus.suspended = true
is_suspended UserStatus.active = false

-- `status == "active"`
abbrev pub is_active_key : KeyStatus → Bool
is_active_key KeyStatus.active = true
is_active_key _ = false

-- `row.status != "revoked"`
abbrev pub is_not_revoked : KeyStatus → Bool
is_not_revoked KeyStatus.revoked = false
is_not_revoked _ = true
