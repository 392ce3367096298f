-- ===== src/DeliveryFlow/Handover.antt =====
-- From the acceptance of an order to its delivery, in delivery_flow_service.py: the code, and the chat.
use marketplace_invite_only.Common.{
  ◌≡◌, ◌∙◌, ap, sym, refl, ℕ, true, false, ◌&&◌, String, none, some, List, [], ◌∷◌, ◌==◌, is_none,
  Option-cases, ==-refl, inl, inr, arith,
}
use mathlib.Core.Path.{ap₂, subst}
use marketplace_invite_only.Common.Tables.{count, find_key, find-update, find-append, update_where}
use marketplace_invite_only.Models.{UserRole, User, Order, OrderMessage, DeliveryCode, Db}
use marketplace_invite_only.Session.{ok, is_ok, Returns, ◌>>=◌}
use marketplace_invite_only.Orders.Loading.{find_order, find_delivery}
use marketplace_invite_only.DeliveryFlow.Codes.{
  get_order_or_404, find_code, add_code, take_delivery, new_code, accept_fresh, accept_again,
  accept_order, try_code, reject_code, confirm_code, complete_delivery, hand_over,
}
use marketplace_invite_only.DeliveryFlow.Chat.{post_order_message}
use marketplace_invite_only.DeliveryFlow.Lockout.{accepts, complete_delivery-accepts}

module _ (hash : ℕ → ℕ) (driver : User) (order_id : ℕ) (db : Db) (o : Order) where
  code-accept_fresh :
      (delivery_id plain now : ℕ)
      → find_order order_id db ≡ some o
      → find_code order_id db ≡ none
      → find_code order_id (accept_fresh hash driver o delivery_id plain now db).1
        ≡ some (new_code hash order_id plain)
  unfolding accept_fresh take_delivery add_code ◌>>=◌
  code-accept_fresh delivery_id plain now found free =
      let at : o.id ≡ order_id = find_key (λ (p : Order). p.id) order_id db.orders found in
      let law =
        find-append (λ (c : DeliveryCode). c.order_id) order_id db.codes
          (new_code hash order_id plain) in
      elim (Option-cases (find_delivery order_id db)) [
        | inl e ↦ ground (arith, at, e, law, free)
        | inr (d, e) ↦ ground (arith, at, e, law, free)
      ]

  order-accept_fresh :
      (delivery_id plain now : ℕ)
      → find_order order_id db ≡ some o
      → find_code order_id db ≡ none
      → find_order order_id (accept_fresh hash driver o delivery_id plain now db).1
        ≡ some (record o { driver_accepted_at = some now })
  unfolding accept_fresh take_delivery add_code ◌>>=◌
  order-accept_fresh delivery_id plain now found free =
      let at : o.id ≡ order_id = find_key (λ (p : Order). p.id) order_id db.orders found in
      let law =
        find-update (λ (p : Order). p.id) order_id order_id
          (λ o. record o { driver_accepted_at = some now }) db.orders (λ p. refl) in
      elim (Option-cases (find_delivery order_id db)) [
        | inl e ↦ ground (arith, at, e, law, free, found)
        | inr (d, e) ↦ ground (arith, at, e, law, free, found)
      ]

  accept_order-fresh :
      (delivery_id plain now : ℕ)
      → driver.role ≡ UserRole.driver
      → find_order order_id db ≡ some o
      → o.deleted_at ≡ none
      → find_code order_id db ≡ none
      → accept_order hash driver order_id delivery_id plain now db
        ≡ accept_fresh hash driver o delivery_id plain now db
  unfolding accept_order get_order_or_404 accept_again ◌>>=◌
  accept_order-fresh delivery_id plain now is_driver found live free =
      let at : o.id ≡ order_id = find_key (λ (p : Order). p.id) order_id db.orders found in
      ground (arith, at, is_driver, found, live, free)

  handed_out :
      (delivery_id plain now : ℕ)
      → find_order order_id db ≡ some o
      → find_code order_id db ≡ none
      → (accept_fresh hash driver o delivery_id plain now db).0
        ≡ ok (record o { driver_accepted_at = some now }, new_code hash order_id plain)
  unfolding accept_fresh take_delivery add_code ◌>>=◌
  handed_out delivery_id plain now found free =
      let at : o.id ≡ order_id = find_key (λ (p : Order). p.id) order_id db.orders found in
      elim (Option-cases (find_delivery order_id db)) [
        | inl e ↦ ground (arith, at, e, free)
        | inr (d, e) ↦ ground (arith, at, e, free)
      ]

  plain-completes :
      (delivery_id plain now later : ℕ) (other : User)
      → driver.role ≡ UserRole.driver
      → other.role ≡ UserRole.driver
      → find_order order_id db ≡ some o
      → o.deleted_at ≡ none
      → find_code order_id db ≡ none
      → is_ok
          (complete_delivery hash other order_id plain later
            (accept_order hash driver order_id delivery_id plain now db).1).0
        ≡ true
  plain-completes delivery_id plain now later other is_driver is_driver' found live free =
      let after = (accept_order hash driver order_id delivery_id plain now db).1 in
      let same = accept_order-fresh delivery_id plain now is_driver found live free in
      let code : find_code order_id after ≡ some (new_code hash order_id plain) =
        ap (λ r. find_code order_id r.1) same
        ∙ code-accept_fresh delivery_id plain now found free in
      let order : find_order order_id after ≡ some (record o { driver_accepted_at = some now }) =
        ap (λ r. find_order order_id r.1) same
        ∙ order-accept_fresh delivery_id plain now found free in
      complete_delivery-accepts hash other order_id plain later after
      ∙ ap₂ (accepts hash other plain) order code
      ∙ ground (arith, is_driver', live, ==-refl (hash plain))

  -- A driver's acceptance of an order that is not deleted and has no code yet returns, and the plain
  -- code in what it returns then completes the delivery, for any driver and at any later time: the
  -- completion returns.
  pub accept_order-complete_delivery :
      (delivery_id plain now later : ℕ) (other : User)
      → driver.role ≡ UserRole.driver
      → other.role ≡ UserRole.driver
      → find_order order_id db ≡ some o
      → o.deleted_at ≡ none
      → find_code order_id db ≡ none
      → Returns
          (λ accepted.
            is_ok
              (complete_delivery hash other order_id accepted.1.code_plain later
                (accept_order hash driver order_id delivery_id plain now db).1).0
            ≡ true)
          (accept_order hash driver order_id delivery_id plain now db).0
  accept_order-complete_delivery delivery_id plain now later other is_driver is_driver' found live
        free =
      let after = (accept_order hash driver order_id delivery_id plain now db).1 in
      let result =
        ap (λ r. r.0) (accept_order-fresh delivery_id plain now is_driver found live free)
        ∙ handed_out delivery_id plain now found free in
      subst
        (Returns (λ (accepted : Order × DeliveryCode).
          is_ok (complete_delivery hash other order_id accepted.1.code_plain later after).0 ≡ true))
        (sym result)
        (plain-completes delivery_id plain now later other is_driver is_driver' found live free)

archived-count :
    (order_id now : ℕ) (rows : List OrderMessage)
    → count
        (λ m. m.order_id == order_id && is_none m.archived_at)
        (update_where
          (λ m. m.order_id == order_id && is_none m.archived_at)
          (λ m. record m { archived_at = some now })
          rows)
      ≡ 0
unfolding count update_where
archived-count order_id now [] = refl
archived-count order_id now (m ∷ rest) = ground (arith, archived-count order_id now rest)

-- When a completion of a delivery returns, no message of the order is left unarchived, and nobody can
-- post another one: every such call on the database that the completion leaves raises.
pub complete_delivery-chat :
    (hash : ℕ → ℕ) (driver sender : User) (order_id submitted now message_id posted : ℕ)
    (ciphertext nonce : String) (db : Db)
    → is_ok (complete_delivery hash driver order_id submitted now db).0 ≡ true
    → (count
          (λ m. m.order_id == order_id && is_none m.archived_at)
          (complete_delivery hash driver order_id submitted now db).1.messages
        ≡ 0)
      × (is_ok
            (post_order_message sender order_id message_id ciphertext nonce posted
              (complete_delivery hash driver order_id submitted now db).1).0
          ≡ false)
unfolding complete_delivery get_order_or_404 try_code reject_code confirm_code post_order_message
    ◌>>=◌
complete_delivery-chat hash driver sender order_id submitted now message_id posted ciphertext nonce
      db done =
    elim (Option-cases (find_order order_id db)) [
      | inl e ↦ absurd (ground (arith, e, done))
      | inr (o, e) ↦
          let at : o.id ≡ order_id = find_key (λ (p : Order). p.id) order_id db.orders e in
          let law =
            find-update (λ (p : Order). p.id) order_id order_id (hand_over now) db.orders
              (λ p. refl) in
          elim (Option-cases (find_code order_id db)) [
            | inl n ↦ absurd (ground (arith, e, n, at, done))
            | inr (c, f) ↦ (
              ground (arith, e, f, at, done, archived-count order_id now db.messages),
              ground (arith, e, f, at, done, law),
            )
          ]
    ]
