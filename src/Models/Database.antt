-- ===== src/Models/Database.antt =====
-- The database: one list of rows for each table, in the order of insertion.
use mathlib.Core.Option.{Option}
use mathlib.Core.List.{List}
use marketplace_invite_only.Models.Rows.{
  User, Seller, Store, Product, Order, OrderItem, Delivery, DriverAssignment,
  OrderAnalyticsSnapshot, PlatformSettings, OrderTrackingPoint, OrderMessage, DeliveryCode,
  DeliveryCodeAttempt, InviteLink, RefreshToken, Referral, UserNotificationPrefs, Conversation,
  Message, UserPublicKey, ProductImage,
}

pub record Db : Type 0 where
  pub users : List User
  pub sellers : List Seller
  pub stores : List Store
  pub products : List Product
  pub product_images : List ProductImage
  pub orders : List Order
  pub order_items : List OrderItem
  pub deliveries : List Delivery
  pub assignments : List DriverAssignment
  pub snapshots : List OrderAnalyticsSnapshot
  pub settings : Option PlatformSettings
  pub points : List OrderTrackingPoint
  pub messages : List OrderMessage
  pub codes : List DeliveryCode
  pub attempts : List DeliveryCodeAttempt
  pub invites : List InviteLink
  pub refresh_tokens : List RefreshToken
  pub referrals : List Referral
  pub prefs : List UserNotificationPrefs
  pub conversations : List Conversation
  pub conversation_messages : List Message
  pub public_keys : List UserPublicKey
