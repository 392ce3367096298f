-- ===== src/Tests/Figures.antt =====
-- The figures of the seller at the shop of the tests.
use marketplace_invite_only.Common.{◌≡◌, refl, ◌+◌, true, ◌==◌, if◌then◌else◌}
use marketplace_invite_only.Common.Tables.{find}
use marketplace_invite_only.Session.{is_ok}
use marketplace_invite_only.Orders.Closing.{complete_order}
use marketplace_invite_only.Sellers.Dashboard.{dashboard_of}
use marketplace_invite_only.Sellers.Completion.{complete_order-dashboard}
use marketplace_invite_only.Tests.{shop, buyer, delivered}

complete_order-dashboard_example :
    let after = (complete_order buyer 501 990 700 700 shop).1 in
    (is_ok (complete_order buyer 501 990 700 700 shop).0 ≡ true)
    × (((dashboard_of 2 800 after).lifetime_sales_amount
          ≡ (dashboard_of 2 800 shop).lifetime_sales_amount
            + (if (delivered 501 505).seller_id == 2 then (delivered 501 505).total_minor else 0))
        × (((dashboard_of 2 800 after).lifetime_orders_count
              ≡ (dashboard_of 2 800 shop).lifetime_orders_count
                + (if (delivered 501 505).seller_id == 2 then 1 else 0))
            × ((dashboard_of 2 800 after).active_orders_count
                ≡ (dashboard_of 2 800 shop).active_orders_count)))
unfolding find
complete_order-dashboard_example =
    complete_order-dashboard buyer 501 990 700 700 2 800 (delivered 501 505) shop
      (refl, (refl, (refl, tt))) refl refl refl refl refl refl
