-- ===== src/Tests/Admins.antt =====
-- An admin at the shop of the tests.
use marketplace_invite_only.Common.{◌≡◌, refl, suc, none, some}
use marketplace_invite_only.Common.Tables.{length, find, select, order_by_desc}
use marketplace_invite_only.Models.{User}
use marketplace_invite_only.Session.{is_ok, ◌>>=◌}
use marketplace_invite_only.Session.Transaction.{serve}
use marketplace_invite_only.Auth.Security.{get_current_user}
use marketplace_invite_only.Auth.Accounts.{login}
use marketplace_invite_only.Auth.Sessions.{refresh}
use marketplace_invite_only.Catalog.Products.{get_product_for_caller}
use marketplace_invite_only.Admin.Pages.{walk}
use marketplace_invite_only.Admin.Walk.{walk-order_by_desc}
use marketplace_invite_only.Admin.Actions.{
  kept_user, get_live_user, suspend_user, get_live_product, disable_product,
}
use marketplace_invite_only.Admin.Suspension.{NotBy, NotFor, suspend_user-refused}
use marketplace_invite_only.Admin.Gaps.{
  suspend_user-refresh, disable_product-get_product_for_caller,
}
use marketplace_invite_only.Tests.{shop, buyer}
use marketplace_invite_only.Tests.Accounts.{guard, draws, signed_in}

walk-order_by_desc_example :
    walk
      (λ (u : User). u.created_at)
      (kept_user none none none)
      1
      shop.users
      (suc (length (select (kept_user none none none) shop.users)))
      none
    ≡ some
        (order_by_desc (λ (u : User). u.created_at) (select (kept_user none none none) shop.users))
unfolding find select
walk-order_by_desc_example =
    walk-order_by_desc (λ (u : User). u.created_at) (kept_user none none none) 1 shop.users
      (refl, (refl, (refl, (refl, tt))))

suspend_user-refused_example :
    let after = (suspend_user 1 "spam" 700 shop).1 in
    NotBy 1 (get_current_user guard (some 5) 800 after).0
    × NotFor 1 (serve (login guard 1001 1 none 3 (draws 70)) after).0
unfolding find suspend_user get_live_user ◌>>=◌
suspend_user-refused_example =
    suspend_user-refused guard 1 700 800 5 1001 1 3 "spam" none (draws 70) shop refl

suspend_user-refresh_example :
    is_ok (serve (refresh guard 40 800 (draws 80)) (suspend_user 1 "spam" 700 signed_in).1).0
    ≡ is_ok (serve (refresh guard 40 800 (draws 80)) signed_in).0
unfolding find suspend_user get_live_user ◌>>=◌
suspend_user-refresh_example =
    suspend_user-refresh guard 1 700 40 800 "spam" (draws 80) signed_in refl

disable_product-get_product_for_caller_example :
    is_ok (get_product_for_caller buyer 100 (disable_product 100 "fake" 700 shop).1).0
    ≡ is_ok (get_product_for_caller buyer 100 shop).0
unfolding find disable_product get_live_product ◌>>=◌
disable_product-get_product_for_caller_example =
    disable_product-get_product_for_caller buyer 100 700 "fake" shop refl
