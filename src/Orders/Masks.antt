-- ===== src/Orders/Masks.antt =====
-- What `list_orders` renders of an order for a customer, and for a seller.
use marketplace_invite_only.Common.{
  ◌≡◌, refl, sym, ap, ℕ, ◌≤◌, false, none, some, [], Bool-cases, Option-cases, inl, inr, ◌⊎◌, arith,
}
use mathlib.Core.Option.{some-injective}
use mathlib.Core.Path.{subst}
use marketplace_invite_only.Models.{UserRole, User, Order, Db}
use marketplace_invite_only.Orders.Loading.{FullOrder, find_order}
use marketplace_invite_only.Orders.Responses.{OrderResponse, mask_order_response, order_to_response}
use marketplace_invite_only.Orders.Views.{
  visible_after, is_customer_hidden, is_customer_masked, is_seller_stripped, render_for,
}

-- Everything that says where an order stands, what is in it, where it goes and who brings it is left
-- out, and the amounts are both the total.
pub record IsMasked (o : Order) (r : OrderResponse) : Type 0 where
  pub no_status : r.status ≡ none
  pub no_address : r.delivery_address ≡ none
  pub no_items : r.items ≡ []
  pub no_delivery : r.delivery ≡ none
  pub no_assignment : r.driver_assignment ≡ none
  pub no_reason : r.cancellation_reason ≡ none
  pub no_times :
      (r.accepted_at ≡ none)
      × ((r.preparing_at ≡ none)
          × ((r.out_for_delivery_at ≡ none)
              × ((r.delivered_at ≡ none) × ((r.completed_at ≡ none) × (r.cancelled_at ≡ none)))))
  pub only_total : (r.subtotal_minor ≡ o.total_minor) × (r.total_minor ≡ o.total_minor)

-- What a customer sees of an order that is in the table: an own one, that is not delivered yet, or
-- that is masked and whose delivery was so long ago that it is visible again.
abbrev pub CustomerMay : User → ℕ → Db → OrderResponse → Type 0
CustomerMay caller now db r =
    (o : Order) × (find_order r.id db ≡ some o)
    × (r.customer_id ≡ caller.id)
    × ((o.delivered_at ≡ none)
        ⊎ ((at : ℕ) × (o.delivered_at ≡ some at) × (visible_after at o ≤ now) × IsMasked o r))

mask_order_response-IsMasked : (o : Order) → IsMasked o (mask_order_response o)
unfolding mask_order_response
mask_order_response-IsMasked o = record {
  no_status = refl;
  no_address = refl;
  no_items = refl;
  no_delivery = refl;
  no_assignment = refl;
  no_reason = refl;
  no_times = (refl, (refl, (refl, (refl, (refl, refl)))));
  only_total = (refl, refl);
}

pub customer-render_for :
    (now : ℕ) (o : FullOrder) (r : OrderResponse)
    → render_for now UserRole.customer o ≡ some r
    → (r.id ≡ o.order.id)
      × (r.customer_id ≡ o.order.customer_id)
      × ((o.order.delivered_at ≡ none)
          ⊎ ((at : ℕ) × (o.order.delivered_at ≡ some at)
              × (visible_after at o.order ≤ now)
              × IsMasked o.order r))
unfolding render_for is_customer_hidden is_customer_masked mask_order_response order_to_response
customer-render_for now o r e = elim (Option-cases o.order.delivered_at) [
  | inl n ↦
      let whole : order_to_response o ≡ r = some-injective _ _ (ground (arith, n, e)) in
      (sym (ap (λ q. q.id) whole), sym (ap (λ q. q.customer_id) whole), inl n)
  | inr (at, f) ↦
      let masked : mask_order_response o.order ≡ r = some-injective _ _ (ground (arith, f, e)) in
      let over : visible_after at o.order ≤ now = ground (arith, f, e) in
      (
        sym (ap (λ q. q.id) masked),
        sym (ap (λ q. q.customer_id) masked),
        inr (at, f, over, subst (IsMasked o.order) masked (mask_order_response-IsMasked o.order)),
      )
]

-- What a seller sees of an order that is in the table: an own one, with the delivery address left out
-- once the seven days are over.
abbrev pub SellerMay : User → ℕ → Db → OrderResponse → Type 0
SellerMay caller now db r =
    (o : Order) × (find_order r.id db ≡ some o)
    × (r.seller_id ≡ caller.id)
    × ((r.delivery_address ≡ none) ⊎ (is_seller_stripped now o ≡ false))

pub seller-render_for :
    (now : ℕ) (o : FullOrder) (r : OrderResponse)
    → render_for now UserRole.seller o ≡ some r
    → (r.id ≡ o.order.id)
      × (r.seller_id ≡ o.order.seller_id)
      × ((r.delivery_address ≡ none) ⊎ (is_seller_stripped now o.order ≡ false))
unfolding render_for mask_order_response order_to_response
seller-render_for now o r e = elim (Bool-cases (is_seller_stripped now o.order)) [
  | inr whole_yet ↦
      let whole : order_to_response o ≡ r = some-injective _ _ (ground (arith, whole_yet, e)) in
      (sym (ap (λ q. q.id) whole), sym (ap (λ q. q.seller_id) whole), inr whole_yet)
  | inl stripped ↦
      let masked : mask_order_response o.order ≡ r =
        some-injective _ _ (ground (arith, stripped, e)) in
      (
        sym (ap (λ q. q.id) masked),
        sym (ap (λ q. q.seller_id) masked),
        inl (sym (ap (λ q. q.delivery_address) masked)),
      )
]
