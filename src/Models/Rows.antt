-- ===== src/Models/Rows.antt =====
-- The rows of backend/app/models, with the columns that the modelled services read or write.
use Prim.Native.Nat.{ℕ}
use Prim.Native.String.{String}
use mathlib.Core.Bool.{Bool}
use mathlib.Core.Option.{Option}
use marketplace_invite_only.Models.Enums.{
  UserRole, OrderStatus, DeliveryStatus, AssignmentStatus, InviteLinkType, UserStatus,
  ProductStatus, KeyStatus,
}

-- models/user.py; an email address and a password hash are only compared, so they are numbers
pub record User : Type 0 where
  pub id : ℕ
  pub email : ℕ
  pub password_hash : ℕ
  pub role : UserRole
  pub display_name : String
  pub phone : Option String
  pub is_active : Bool
  pub disabled_at : Option ℕ
  pub status : UserStatus
  pub suspended_at : Option ℕ
  pub suspended_reason : Option String
  pub avatar_url : Option String
  pub referring_seller_id : Option ℕ
  pub created_at : ℕ
  pub deleted_at : Option ℕ

-- models/seller.py
pub record Seller : Type 0 where
  pub id : ℕ
  pub user_id : ℕ
  pub city : String
  pub deleted_at : Option ℕ

-- models/store.py; a slug is only compared and numbered, so it is a number
pub record Store : Type 0 where
  pub id : ℕ
  pub seller_id : ℕ
  pub name : String
  pub slug : ℕ
  pub description : String
  pub is_active : Bool
  pub is_public : Bool
  pub deleted_at : Option ℕ

-- models/product.py
pub record Product : Type 0 where
  pub id : ℕ
  pub seller_id : ℕ
  pub store_id : ℕ
  pub name : String
  pub description : String
  pub price_minor : ℕ
  pub stock_quantity : Option ℕ
  pub is_active : Bool
  pub status : ProductStatus
  pub disabled_at : Option ℕ
  pub disabled_reason : Option String
  pub created_at : ℕ
  pub deleted_at : Option ℕ

-- models/product_image.py
pub record ProductImage : Type 0 where
  pub id : ℕ
  pub product_id : ℕ
  pub s3_key : String
  pub display_order : ℕ

-- the keys of `orders.delivery_address` that the code reads; `text` is the rest of the JSON
pub record Address : Type 0 where
  pub lat : Option ℕ
  pub lng : Option ℕ
  pub text : String

-- models/order.py
pub record Order : Type 0 where
  pub id : ℕ
  pub customer_id : ℕ
  pub seller_id : ℕ
  pub store_id : ℕ
  pub status : OrderStatus
  pub subtotal_minor : ℕ
  pub total_minor : ℕ
  pub delivery_address : Address
  pub placed_at : ℕ
  pub accepted_at : Option ℕ
  pub preparing_at : Option ℕ
  pub out_for_delivery_at : Option ℕ
  pub delivered_at : Option ℕ
  pub completed_at : Option ℕ
  pub cancelled_at : Option ℕ
  pub cancellation_reason : Option String
  pub driver_accepted_at : Option ℕ
  pub customer_visible_after : Option ℕ
  pub seller_full_visible_until : Option ℕ
  pub delivery_code_locked : Bool
  pub deleted_at : Option ℕ

-- models/order_item.py
pub record OrderItem : Type 0 where
  pub id : ℕ
  pub order_id : ℕ
  pub product_id : Option ℕ
  pub product_name_snapshot : String
  pub unit_price_minor_snapshot : ℕ
  pub quantity : ℕ

-- models/delivery.py
pub record Delivery : Type 0 where
  pub id : ℕ
  pub order_id : ℕ
  pub driver_id : Option ℕ
  pub seller_id : ℕ
  pub status : DeliveryStatus
  pub started_at : Option ℕ
  pub delivered_at : Option ℕ
  pub current_lat : Option ℕ
  pub current_lng : Option ℕ
  pub last_location_at : Option ℕ
  pub distance_meters : Option ℕ
  pub duration_seconds : Option ℕ
  pub current_eta_seconds : Option ℕ
  pub current_eta_updated_at : Option ℕ

-- models/driver_assignment.py
pub record DriverAssignment : Type 0 where
  pub id : ℕ
  pub order_id : ℕ
  pub driver_id : Option ℕ
  pub status : AssignmentStatus
  pub requested_by_seller_id : ℕ
  pub requested_at : ℕ
  pub assigned_by_admin_id : Option ℕ
  pub assigned_at : Option ℕ

-- models/order_analytics_snapshot.py
pub record OrderAnalyticsSnapshot : Type 0 where
  pub id : ℕ
  pub order_id : ℕ
  pub seller_id : ℕ
  pub store_id : ℕ
  pub customer_id : ℕ
  pub city : String
  pub item_count : ℕ
  pub subtotal_minor : ℕ
  pub total_minor : ℕ
  pub delivered_at : ℕ
  pub delivery_duration_seconds : Option ℕ
  pub delivery_distance_meters : Option ℕ

-- models/platform_settings.py, the one row with id 1
pub record PlatformSettings : Type 0 where
  pub retention_min_days : ℕ
  pub order_auto_complete_grace_hours : ℕ
  pub message_retention_days : ℕ
  pub currency_code : String
  pub updated_at : ℕ
  pub updated_by_user_id : Option ℕ

-- models/delivery_flow.py
pub record OrderTrackingPoint : Type 0 where
  pub id : ℕ
  pub order_id : ℕ
  pub driver_id : Option ℕ
  pub lat : ℕ
  pub lng : ℕ
  pub recorded_at : ℕ

pub record OrderMessage : Type 0 where
  pub id : ℕ
  pub order_id : ℕ
  pub sender_id : ℕ
  pub sender_role : UserRole
  pub ciphertext : String
  pub nonce : String
  pub created_at : ℕ
  pub archived_at : Option ℕ

pub record DeliveryCode : Type 0 where
  pub order_id : ℕ
  pub code_hash : ℕ
  pub code_plain : ℕ
  pub attempts_used : ℕ
  pub locked : Bool
  pub consumed_at : Option ℕ

pub record DeliveryCodeAttempt : Type 0 where
  pub order_id : ℕ
  pub driver_id : ℕ
  pub submitted_code : ℕ
  pub success : Bool

-- models/invite_link.py
pub record InviteLink : Type 0 where
  pub id : ℕ
  pub issuer_id : ℕ
  pub type : InviteLinkType
  pub token : ℕ
  pub role_target : Option UserRole
  pub max_uses : Option ℕ
  pub used_count : ℕ
  pub expires_at : Option ℕ
  pub revoked_at : Option ℕ

-- models/refresh_token.py; a hash is only compared, so it is a number
pub record RefreshToken : Type 0 where
  pub id : ℕ
  pub user_id : ℕ
  pub token_hash : ℕ
  pub device_label : Option String
  pub issued_at : ℕ
  pub last_used_at : Option ℕ
  pub expires_at : ℕ
  pub revoked_at : Option ℕ

-- models/referral.py
pub record Referral : Type 0 where
  pub id : ℕ
  pub referrer_id : ℕ
  pub referred_user_id : ℕ
  pub invite_link_id : ℕ

-- models/user_notification_prefs.py
pub record UserNotificationPrefs : Type 0 where
  pub user_id : ℕ
  pub push_enabled : Bool
  pub email_enabled : Bool
  pub order_updates : Bool
  pub messages : Bool
  pub marketing : Bool

-- models/conversation.py
pub record Conversation : Type 0 where
  pub id : ℕ
  pub user_a_id : ℕ
  pub user_b_id : ℕ
  pub created_at : ℕ
  pub last_message_at : Option ℕ

-- models/message.py
pub record Message : Type 0 where
  pub id : ℕ
  pub conversation_id : ℕ
  pub sender_id : ℕ
  pub ciphertext : String
  pub nonce : String
  pub ephemeral_public_key : String
  pub recipient_key_id : Option ℕ
  pub sent_at : ℕ
  pub read_at : Option ℕ
  pub deleted_at : Option ℕ

-- models/user_public_key.py
pub record UserPublicKey : Type 0 where
  pub id : ℕ
  pub user_id : ℕ
  pub public_key : String
  pub key_version : ℕ
  pub status : KeyStatus
  pub registered_at : ℕ
  pub rotated_at : Option ℕ
  pub revoked_at : Option ℕ
  pub created_at : ℕ
