-- ===== src/Session/Errors.antt =====
-- backend/app/core/exceptions.py: the exceptions that the modelled services raise. `integrity`,
-- `no_result_found` and `multiple_results_found` are the database layer's own, `value_error` is
-- the language's.
use mathlib.Core.Bool.{Bool, true, false}

pub data Error : Type 0 where
  authorization : Error
  not_found : Error
  conflict : Error
  validation : Error
  invite_invalid : Error
  invite_expired : Error
  invite_already_used : Error
  invite_revoked : Error
  invite_role_mismatch : Error
  seller_profile_missing : Error
  store_not_found : Error
  store_already_exists : Error
  store_city_required : Error
  seller_not_found : Error
  visibility_denied : Error
  product_not_found : Error
  product_ownership : Error
  order_not_found : Error
  order_invalid_transition : Error
  order_retention_not_met : Error
  delivery_already_started : Error
  product_out_of_stock : Error
  product_not_visible : Error
  driver_not_requested : Error
  driver_already_assigned : Error
  fulfillment_already_chosen : Error
  retention_setting_invalid : Error
  delivery_code_locked : Error
  delivery_code_invalid : Error
  authentication : Error
  invalid_credentials : Error
  token_reused : Error
  token_expired : Error
  invalid_token : Error
  account_suspended : Error
  password_too_common : Error
  email_taken : Error
  public_key_not_found : Error
  key_ownership : Error
  conversation_not_found : Error
  conversation_ineligible : Error
  message_retention_invalid : Error
  value_error : Error
  integrity : Error
  no_result_found : Error
  multiple_results_found : Error
  assertion : Error

pub data Result {ℓ} (A : Type ℓ) : Type ℓ where
  ok : A → Result A
  err : Error → Result A

abbrev pub is_ok : {A : Type 0} → Result A → Bool
is_ok (ok a) = true
is_ok (err e) = false

-- The call returns, with a value that has the property.
abbrev pub Returns : {A : Type 0} → (A → Type 0) → Result A → Type 0
Returns P (ok a) = P a
Returns P (err e) = ⊥
