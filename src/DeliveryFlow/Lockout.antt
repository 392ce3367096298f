-- ===== src/DeliveryFlow/Lockout.antt =====
-- Delivery codes: when a completion is accepted, how failures are counted within a session, and what
-- is left of the count when the request ends.
use marketplace_invite_only.Common.{
  ◌≡◌, ◌∙◌, refl, ℕ, Bool, true, false, not, ◌&&◌, Option, none, some, List, [], ◌∷◌, ◌==◌, leb,
  is_none, Option-cases, inl, inr, arith,
}
use marketplace_invite_only.Common.Tables.{All, IsUnique, find_key}
use marketplace_invite_only.Common.Rows.{All-update}
use marketplace_invite_only.Models.{UserRole, role_is, User, Order, DeliveryCode, Db}
use marketplace_invite_only.Session.{is_ok, request, ◌>>=◌}
use marketplace_invite_only.Session.Rules.{
  request-failed, after_if, after_assoc, after_pure, after_pure_bind, after_raise, after_raise_if,
  after_or_raise, after_gets, after_modify,
}
use marketplace_invite_only.Orders.Loading.{find_order}
use marketplace_invite_only.DeliveryFlow.Codes.{
  get_order_or_404, find_code, with_code, count_failure, reject_code, confirm_code, try_code,
  complete_delivery,
}

-- When a submitted code completes a delivery; neither the order's state nor its driver has a part.
abbrev pub accepts : (ℕ → ℕ) → User → ℕ → Option Order → Option DeliveryCode → Bool
accepts hash driver submitted none c = false
accepts hash driver submitted (some o) none = false
accepts hash driver submitted (some o) (some c) =
    role_is driver.role UserRole.driver
    && (is_none o.deleted_at && (not c.locked && (hash submitted == c.code_hash)))

-- A call to complete a delivery returns exactly when the caller is a driver, the order is there and
-- not deleted, it has a code that is not locked, and the submitted code has the hash of that one.
-- Whatever else the order and its delivery say, its state and its driver included, has no influence.
pub complete_delivery-accepts :
    (hash : ℕ → ℕ) (driver : User) (order_id submitted now : ℕ) (db : Db)
    → is_ok (complete_delivery hash driver order_id submitted now db).0
      ≡ accepts hash driver submitted (find_order order_id db) (find_code order_id db)
unfolding complete_delivery get_order_or_404 try_code reject_code confirm_code ◌>>=◌
complete_delivery-accepts hash driver order_id submitted now db =
    elim (Option-cases (find_order order_id db)) [
      | inl e ↦ ground (arith, e)
      | inr (o, e) ↦
          let at : o.id ≡ order_id = find_key (λ (p : Order). p.id) order_id db.orders e in
          elim (Option-cases (find_code order_id db)) [
            | inl n ↦ ground (arith, e, n, at)
            | inr (c, f) ↦ ground (arith, e, f, at)
          ]
    ]

-- One request to complete the delivery of an order.
pub record Submission : Type 0 where
  pub driver : User
  pub submitted : ℕ
  pub now : ℕ

-- What such requests, one after the other, leave in the database.
unfoldable pub submit_all : (ℕ → ℕ) → ℕ → List Submission → Db → Db
submit_all hash order_id [] db = db
submit_all hash order_id (s ∷ rest) db =
    submit_all hash order_id rest
      (request (complete_delivery hash s.driver order_id s.submitted s.now) db).1

wrong-accepts :
    (hash : ℕ → ℕ) (driver : User) (submitted : ℕ) (o : Option Order) (c : DeliveryCode)
    → (hash submitted == c.code_hash) ≡ false
    → accepts hash driver submitted o (some c) ≡ false
wrong-accepts hash driver submitted o c h = ground arith

-- Requests with wrong codes, however many and by whichever drivers, leave the database as it was:
-- the failure that the service counts and the attempt that it records are rolled back with the
-- exception, so that the code never locks. The conditions are that the order has a code and that no
-- submitted code has its hash.
pub submit_all-wrong :
    (hash : ℕ → ℕ) (order_id : ℕ) (c : DeliveryCode) (attempts : List Submission) (db : Db)
    → find_code order_id db ≡ some c
    → All (λ s. (hash s.submitted == c.code_hash) ≡ false) attempts
    → submit_all hash order_id attempts db ≡ db
unfolding submit_all
submit_all-wrong hash order_id c [] db found wrong = refl
submit_all-wrong hash order_id c (s ∷ rest) db found wrong =
    rw
      (request-failed (complete_delivery hash s.driver order_id s.submitted s.now) db (
        complete_delivery-accepts hash s.driver order_id s.submitted s.now db
        ∙ rw found (wrong-accepts hash s.driver s.submitted (find_order order_id db) c wrong.0)))
      (submit_all-wrong hash order_id c rest db found wrong.1)

-- The count of failures of a code stops at three, where the code is locked.
abbrev pub Counted : DeliveryCode → Type 0
Counted c = (leb c.attempts_used 3 ≡ true) × (c.locked ≡ leb 3 c.attempts_used)

count_failure-Counted :
    (c : DeliveryCode) → c.locked ≡ false → Counted c → Counted (count_failure c)
count_failure-Counted c free (few, same) = ground (arith, free)

abbrev pub CodesCounted : Db → Type 0
CodesCounted db = All Counted db.codes

abbrev HasCodeKeys : Db → Type 0
HasCodeKeys db = IsUnique (λ (c : DeliveryCode). c.order_id) db.codes

reject_code-CodesCounted :
    (driver : User) (o : Order) (c : DeliveryCode) (submitted : ℕ) (db : Db)
    → HasCodeKeys db
    → find_code o.id db ≡ some c
    → c.locked ≡ false
    → CodesCounted db
    → CodesCounted (reject_code driver o c submitted db).1
unfolding reject_code
reject_code-CodesCounted driver o c submitted db u found free a =
    let counted : CodesCounted (with_code o.id count_failure db) =
      All-update (λ (c : DeliveryCode). c.order_id) Counted o.id count_failure db.codes c u found
        (count_failure-Counted c free) a in
    after_modify CodesCounted _ _ _ (
      after_modify CodesCounted _ _ _ (
        after_modify CodesCounted _ _ _ (
          after_raise_if CodesCounted _ _ _ _ counted
            λ invalid. after_raise Order CodesCounted _ _ counted)))

confirm_code-CodesCounted :
    (driver : User) (o : Order) (c : DeliveryCode) (submitted now : ℕ) (db : Db)
    → HasCodeKeys db
    → find_code o.id db ≡ some c
    → CodesCounted db
    → CodesCounted (confirm_code driver o submitted now db).1
unfolding confirm_code
confirm_code-CodesCounted driver o c submitted now db u found a =
    let counted : CodesCounted (with_code o.id (λ c. record c { consumed_at = some now }) db) =
      All-update (λ (c : DeliveryCode). c.order_id) Counted o.id
        (λ c. record c { consumed_at = some now }) db.codes c u found (λ q. q) a in
    after_modify CodesCounted _ _ _ (
      after_modify CodesCounted _ _ _ (
        after_modify CodesCounted _ _ _
          (after_modify CodesCounted _ _ _ (after_pure CodesCounted _ _ counted))))

try_code-CodesCounted :
    (hash : ℕ → ℕ) (driver : User) (o : Order) (c : DeliveryCode) (submitted now : ℕ) (db : Db)
    → HasCodeKeys db
    → find_code o.id db ≡ some c
    → CodesCounted db
    → CodesCounted (try_code hash driver o c submitted now db).1
unfolding try_code
try_code-CodesCounted hash driver o c submitted now db u found a =
    after_if CodesCounted c.locked _ _ db
      (λ locked. after_modify CodesCounted _ _ _ (after_raise Order CodesCounted _ _ a))
      λ free.
        after_if CodesCounted (not (hash submitted == c.code_hash)) _ _ db
          (λ wrong. reject_code-CodesCounted driver o c submitted db u found free a)
          λ right. confirm_code-CodesCounted driver o c submitted now db u found a

-- A call to complete a delivery, whatever it is given and whether it returns or raises, leaves in its
-- session a count of at most three failures on every code, and a code locked exactly when it has
-- three. The condition is that this holds before and that each order has at most one code.
pub complete_delivery-CodesCounted :
    (hash : ℕ → ℕ) (driver : User) (order_id submitted now : ℕ) (db : Db)
    → IsUnique (λ (c : DeliveryCode). c.order_id) db.codes
    → CodesCounted db
    → CodesCounted (complete_delivery hash driver order_id submitted now db).1
unfolding complete_delivery get_order_or_404
complete_delivery-CodesCounted hash driver order_id submitted now db u a =
    after_raise_if CodesCounted _ _ _ db a λ is_driver. after_assoc CodesCounted _ _ _ _ (
      after_gets CodesCounted _ _ _ (
        after_assoc CodesCounted _ _ _ _ (
          after_or_raise CodesCounted _ _ _ db a λ o found. after_assoc CodesCounted _ _ _ _ (
            after_raise_if CodesCounted _ _ _ db a λ live. after_pure_bind CodesCounted _ _ _ (
              after_gets CodesCounted _ _ _ (
                after_or_raise CodesCounted _ _ _ db a λ c with_one.
                  try_code-CodesCounted hash driver o c submitted now db u with_one a))))))
