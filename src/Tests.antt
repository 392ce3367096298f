-- ===== src/Tests.antt =====
-- A shop with a few rows in each table, and the theorems at work on it.
pub mod Accounts
pub mod Talks
pub mod Sockets
pub mod Admins
pub mod Catalogue
pub mod Figures
use marketplace_invite_only.Common.{
  ◌≡◌, refl, ℕ, ◌+◌, ◌≤◌, max, true, false, Option, none, some, List, [], ◌∷◌, ◌⊎◌,
}
use marketplace_invite_only.Common.Tables.{
  All, IsUnique, count, find, select, update_where, delete_where,
}
use marketplace_invite_only.Models.{
  UserRole, UserStatus, ProductStatus, OrderStatus, DeliveryStatus, InviteLinkType, User, Product,
  Address, Order, Delivery, DeliveryCode, InviteLink, Db,
}
use marketplace_invite_only.Session.{ok, is_ok, Returns, ◌>>=◌}
use marketplace_invite_only.Orders.Loading.{
  find_order, get_order_for_caller, load_order_locked, load_order_full, reload,
}
use marketplace_invite_only.Orders.Closing.{
  complete_at, snapshot_of, total_quantity, write_snapshot,
}
use marketplace_invite_only.Orders.Retention.{
  days, get_retention_settings, add_default_settings, snapshot_if_completed, delete_order,
}
use marketplace_invite_only.Orders.Placing.{
  LineItem, aggregate, resolve, all_from, check_lines, decrement, subtotal, lowest_id, new_order,
  create_order,
}
use marketplace_invite_only.Orders.Views.{list_orders_for_caller, list_orders}
use marketplace_invite_only.Orders.Lifecycle.{Op, exec, status_of}
use marketplace_invite_only.Orders.Timeline.Calls.{AllStamped, exec-AllStamped}
use marketplace_invite_only.Orders.Stock.{Charged, create_order-Charged}
use marketplace_invite_only.Orders.Deletion.{Retained, delete_order-Retained}
use marketplace_invite_only.Orders.Masks.{CustomerMay, SellerMay}
use marketplace_invite_only.Orders.Privacy.{
  list_orders_for_caller-get_order_for_caller, list_orders-customer, list_orders-seller,
}
use marketplace_invite_only.DeliveryFlow.Codes.{find_code, complete_delivery}
use marketplace_invite_only.DeliveryFlow.Lockout.{
  accepts, Submission, submit_all, CodesCounted, complete_delivery-accepts, submit_all-wrong,
  complete_delivery-CodesCounted,
}
use marketplace_invite_only.Tracking.Views.{get_track_view}
use marketplace_invite_only.Tracking.Privacy.{elsewhere, get_track_view-customer}
use marketplace_invite_only.Orders.Loading.{with_delivery}
use marketplace_invite_only.Invites.Links.{
  check_role, consume_invite, validate_invite, is_active_referral, regenerate_seller_referral,
}
use marketplace_invite_only.Invites.Uses.{
  consume_invite-validate_invite, regenerate_seller_referral-single,
}
use marketplace_invite_only.Models.{AssignmentStatus, DriverAssignment, OrderMessage}
use marketplace_invite_only.Common.{◌==◌, ◌&&◌, is_none, arith}
use marketplace_invite_only.Orders.Transitions.{accept_at}
use marketplace_invite_only.Orders.Requests.{AtMostOneOpen, exec-AtMostOneOpen}
use marketplace_invite_only.DeliveryFlow.Codes.{
  get_order_or_404, try_code, confirm_code, accept_order as flow_accept,
}
use marketplace_invite_only.DeliveryFlow.Chat.{post_order_message}
use marketplace_invite_only.DeliveryFlow.Handover.{
  accept_order-complete_delivery, complete_delivery-chat,
}
use marketplace_invite_only.Catalog.Products.{
  get_product_for_caller, own_seller_id, list_products_for_caller,
}
use marketplace_invite_only.Catalog.Visibility.{list_products_for_caller-get_product_for_caller}
use marketplace_invite_only.Orders.Retention.{is_due, is_purgeable, run_purge_job}
use marketplace_invite_only.Orders.Purged.{run_purge_job-clean}
use marketplace_invite_only.Tracking.Updates.{post_location}
use marketplace_invite_only.Tracking.Reports.{Reported, post_location-Reported}

abbrev pub user : ℕ → UserRole → Option ℕ → User
user id role seller_id = record {
  id = id;
  email = 1000 + id;
  password_hash = 2000 + id;
  role = role;
  display_name = "user";
  phone = none;
  is_active = true;
  disabled_at = none;
  status = UserStatus.active;
  suspended_at = none;
  suspended_reason = none;
  avatar_url = none;
  referring_seller_id = seller_id;
  created_at = id;
  deleted_at = none;
}

abbrev pub buyer : User
buyer = user 1 UserRole.customer (some 2)

abbrev pub vendor : User
vendor = user 2 UserRole.seller none

abbrev pub courier : User
courier = user 3 UserRole.driver none

abbrev pub manager : User
manager = user 4 UserRole.admin none

abbrev address : Address
address = record { lat = some 52; lng = some 13; text = "Main Street 1" }

-- an order of the buyer, placed at the time of its id
abbrev placed : ℕ → Order
placed id = new_order id buyer 2 30 900 address id

abbrev pub delivered : ℕ → ℕ → Order
delivered id at = record (placed id) {
  status = OrderStatus.delivered;
  accepted_at = some at;
  preparing_at = some at;
  out_for_delivery_at = some at;
  delivered_at = some at;
}

abbrev delivery : Delivery
delivery = record {
  id = 700;
  order_id = 500;
  driver_id = some 3;
  seller_id = 2;
  status = DeliveryStatus.in_transit;
  started_at = some 510;
  delivered_at = none;
  current_lat = some 52;
  current_lng = some 13;
  last_location_at = some 520;
  distance_meters = some 1200;
  duration_seconds = none;
  current_eta_seconds = some 300;
  current_eta_updated_at = some 520;
}

abbrev pub soap : Product
soap = record {
  id = 100;
  seller_id = 2;
  store_id = 30;
  name = "soap";
  description = "";
  price_minor = 250;
  stock_quantity = some 5;
  is_active = true;
  status = ProductStatus.active;
  disabled_at = none;
  disabled_reason = none;
  created_at = 1;
  deleted_at = none;
}

abbrev code : DeliveryCode
code = record {
  order_id = 500;
  code_hash = 124;
  code_plain = 123;
  attempts_used = 2;
  locked = false;
  consumed_at = none;
}

abbrev pub invitation : InviteLink
invitation = record {
  id = 900;
  issuer_id = 4;
  type = InviteLinkType.admin_invite;
  token = 77;
  role_target = some UserRole.seller;
  max_uses = some 1;
  used_count = 0;
  expires_at = some 1000;
  revoked_at = none;
}

abbrev pub shop : Db
shop = record {
  users = buyer ∷ vendor ∷ courier ∷ manager ∷ [];
  sellers = record { id = 2; user_id = 2; city = "Berlin"; deleted_at = none } ∷ [];
  stores =
      record {
        id = 30;
        seller_id = 2;
        name = "shop";
        slug = 1;
        description = "";
        is_active = true;
        is_public = true;
        deleted_at = none;
      }
      ∷ [];
  products = soap ∷ [];
  product_images = [];
  orders = placed 500 ∷ delivered 501 505 ∷ complete_at 510 (delivered 502 506) ∷ [];
  order_items = [];
  deliveries = delivery ∷ [];
  assignments = [];
  snapshots = [];
  settings = none;
  points = [];
  messages = [];
  codes = code ∷ [];
  attempts = [];
  invites = invitation ∷ [];
  refresh_tokens = [];
  referrals = [];
  prefs = [];
  conversations = [];
  conversation_messages = [];
  public_keys = [];
}

abbrev order_keys : IsUnique (λ (o : Order). o.id) shop.orders
unfolding find
order_keys = (refl, (refl, (refl, tt)))

abbrev delivery_keys : IsUnique (λ (d : Delivery). d.order_id) shop.deliveries
unfolding find
delivery_keys = (refl, tt)

-- the buyer asks for soap twice
abbrev basket : List LineItem
basket = record { product_id = 100; quantity = 2 } ∷ record { product_id = 100; quantity = 1 } ∷ []

abbrev calls : List Op
calls =
    Op.create buyer basket address 600 (λ n. n) 600
    ∷ Op.accept vendor 600 610
    ∷ Op.prepare vendor 600 620
    ∷ []

abbrev pub hashed : ℕ → ℕ
hashed n = n + 1

abbrev guesses : List Submission
guesses =
    record { driver = courier; submitted = 5; now = 600 }
    ∷ record { driver = courier; submitted = 6; now = 601 }
    ∷ []

abbrev stamps : AllStamped shop
stamps = (
  record {
    at_accept = refl;
    at_prepare = refl;
    at_dispatch = refl;
    at_deliver = refl;
    at_complete = refl;
    at_cancel = refl;
  },
  (
    record {
      at_accept = refl;
      at_prepare = refl;
      at_dispatch = refl;
      at_deliver = refl;
      at_complete = refl;
      at_cancel = refl;
    },
    (
      record {
        at_accept = refl;
        at_prepare = refl;
        at_dispatch = refl;
        at_deliver = refl;
        at_complete = refl;
        at_cancel = refl;
      },
      tt,
    ),
  ),
)

exec-AllStamped_example : AllStamped (exec (Op.complete buyer 501 800 520 521) shop)
exec-AllStamped_example = exec-AllStamped (Op.complete buyer 501 800 520 521) shop order_keys stamps

create_order-Charged_example :
    Charged 100 5 basket shop
      (create_order buyer basket address 600 (λ n. n) 600 shop).1
      (new_order 600 buyer 2 30 750 address 600)
unfolding find create_order aggregate resolve all_from check_lines decrement subtotal lowest_id
    reload load_order_full update_where ◌>>=◌
create_order-Charged_example =
    create_order-Charged buyer basket address 600 (λ n. n) 600 100 5 shop
      (new_order 600 buyer 2 30 750 address 600) refl refl refl

delete_order-Retained_example :
    Retained buyer
      (days 31)
      (complete_at 510 (delivered 502 506))
      shop
      (delete_order buyer 502 801 (days 31) (days 31) shop).1
unfolding find delete_order load_order_locked get_retention_settings add_default_settings
    snapshot_if_completed write_snapshot snapshot_of total_quantity select delete_where ◌>>=◌
delete_order-Retained_example =
    delete_order-Retained buyer 502 801 (days 31) (days 31) 502 shop
      (complete_at 510 (delivered 502 506)) refl refl

submit_all-wrong_example : submit_all hashed 500 guesses shop ≡ shop
unfolding find
submit_all-wrong_example = submit_all-wrong hashed 500 code guesses shop refl (refl, (refl, tt))

complete_delivery-accepts_example :
    is_ok (complete_delivery hashed courier 500 123 600 shop).0
    ≡ accepts hashed courier 123 (find_order 500 shop) (find_code 500 shop)
complete_delivery-accepts_example = complete_delivery-accepts hashed courier 500 123 600 shop

complete_delivery-CodesCounted_example :
    CodesCounted (complete_delivery hashed courier 500 5 600 shop).1
unfolding find
complete_delivery-CodesCounted_example =
    complete_delivery-CodesCounted hashed courier 500 5 600 shop (refl, tt) ((refl, refl), tt)

list_orders_for_caller-get_order_for_caller_example :
    Returns
      (All (λ o. get_order_for_caller courier o.order.id shop ≡ (ok o, shop)))
      (list_orders_for_caller courier none 50 shop).0
list_orders_for_caller-get_order_for_caller_example =
    list_orders_for_caller-get_order_for_caller courier none 50 shop order_keys delivery_keys

list_orders-customer_example :
    Returns (All (CustomerMay buyer 600 shop)) (list_orders buyer none 50 600 shop).0
list_orders-customer_example = list_orders-customer buyer none 50 600 shop refl order_keys

list_orders-seller_example :
    Returns (All (SellerMay vendor (days 8) shop)) (list_orders vendor none 50 (days 8) shop).0
list_orders-seller_example = list_orders-seller vendor none 50 (days 8) shop refl order_keys

get_track_view-customer_example :
    (get_track_view buyer 500
      (with_delivery 500 (elsewhere none (some 1) none none none none) shop)).0
    ≡ (get_track_view buyer 500 shop).0
get_track_view-customer_example =
    get_track_view-customer buyer 500 500 none (some 1) none none none none shop refl

consume_invite-validate_invite_example :
    Returns (λ flags. flags.valid ≡ true) (validate_invite 77 700 shop).0
unfolding find consume_invite check_role ◌>>=◌
consume_invite-validate_invite_example = consume_invite-validate_invite 77 none 700 shop refl

regenerate_seller_referral-single_example :
    ((is_ok (regenerate_seller_referral vendor 901 78 700 shop).0 ≡ true)
      × (count (is_active_referral 2) (regenerate_seller_referral vendor 901 78 700 shop).1.invites
          ≡ 1))
    ⊎ ((is_ok (regenerate_seller_referral vendor 901 78 700 shop).0 ≡ false)
        × ((regenerate_seller_referral vendor 901 78 700 shop).1 ≡ shop))
regenerate_seller_referral-single_example = regenerate_seller_referral-single vendor 901 78 700 shop

abbrev requested : DriverAssignment
requested = record {
  id = 950;
  order_id = 503;
  driver_id = none;
  status = AssignmentStatus.requested;
  requested_by_seller_id = 2;
  requested_at = 504;
  assigned_by_admin_id = none;
  assigned_at = none;
}

-- the shop with an accepted order for which a driver was asked
abbrev busy_shop : Db
busy_shop = record shop { orders = accept_at 504 (placed 503) ∷ []; assignments = requested ∷ [] }

exec-AtMostOneOpen_example : AtMostOneOpen 503 (exec (Op.assign manager 503 3 505) busy_shop)
unfolding find count
exec-AtMostOneOpen_example =
    exec-AtMostOneOpen (Op.assign manager 503 3 505) busy_shop 503 (refl, tt) (ground arith)

accept_order-complete_delivery_example :
    Returns
      (λ accepted.
        is_ok
          (complete_delivery hashed courier 503 accepted.1.code_plain 700
            (flow_accept hashed courier 503 960 321 600 busy_shop).1).0
        ≡ true)
      (flow_accept hashed courier 503 960 321 600 busy_shop).0
unfolding find
accept_order-complete_delivery_example =
    accept_order-complete_delivery hashed courier 503 busy_shop (accept_at 504 (placed 503)) 960 321
      600 700 courier refl refl refl refl refl

abbrev note : OrderMessage
note = record {
  id = 970;
  order_id = 500;
  sender_id = 1;
  sender_role = UserRole.customer;
  ciphertext = "c";
  nonce = "n";
  created_at = 530;
  archived_at = none;
}

abbrev chatty_shop : Db
chatty_shop = record shop { messages = note ∷ [] }

complete_delivery-chat_example :
    (count
        (λ m. m.order_id == 500 && is_none m.archived_at)
        (complete_delivery hashed courier 500 123 600 chatty_shop).1.messages
      ≡ 0)
    × (is_ok
          (post_order_message buyer 500 971 "c" "n" 601
            (complete_delivery hashed courier 500 123 600 chatty_shop).1).0
        ≡ false)
unfolding find complete_delivery get_order_or_404 try_code confirm_code ◌>>=◌
complete_delivery-chat_example =
    complete_delivery-chat hashed courier buyer 500 123 600 971 601 "c" "n" chatty_shop refl

list_products_for_caller-get_product_for_caller_example :
    Returns
      (All (λ p. get_product_for_caller buyer p.product.id shop ≡ (ok p, shop)))
      (list_products_for_caller buyer none none 20 shop).0
unfolding find list_products_for_caller own_seller_id ◌>>=◌
list_products_for_caller-get_product_for_caller_example =
    list_products_for_caller-get_product_for_caller buyer none none 20 shop (refl, tt) refl

run_purge_job-clean_example :
    All
      (λ o. (is_due (days 40) 72 o ≡ false) × (is_purgeable (days 40) 30 o ≡ false))
      (run_purge_job (λ n. n) (λ n. n) (days 40) shop).1.orders
run_purge_job-clean_example = run_purge_job-clean (λ n. n) (λ n. n) (days 40) shop

abbrev way_shop : Db
way_shop = record shop {
  orders = record (placed 500) { status = OrderStatus.out_for_delivery } ∷ [];
}

post_location-Reported_example :
    Reported courier 500 way_shop (post_location courier 500 51 12 none (some 900) 600 way_shop).1
post_location-Reported_example =
    post_location-Reported courier 500 51 12 none (some 900) 600 way_shop
