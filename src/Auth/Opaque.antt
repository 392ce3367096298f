-- ===== src/Auth/Opaque.antt =====
-- What a refused sign-in tells.
use marketplace_invite_only.Common.{
  ◌≡◌, refl, ℕ, ◌≤◌, Bool, false, ◌&&◌, Option, List, [], ◌∷◌, String, Bool-cases, inl, inr, ◌⊎◌,
  arith,
}
use marketplace_invite_only.Common.Tables.{count, select}
use marketplace_invite_only.Models.{Db}
use marketplace_invite_only.Session.{
  Error, err, gets, or_raise, scalar_one_or_none, raise_if, modify,
}
use marketplace_invite_only.Session.Transaction.{serve, ◌>>=◌}
use marketplace_invite_only.Auth.Security.{Security}
use marketplace_invite_only.Auth.Accounts.{TokenDraws, has_email, login}

module _ {R : Type 0} (p q : R → Bool) where
  none-select : (rs : List R) → count p rs ≡ 0 → select p rs ≡ []
  unfolding count select
  none-select [] h = refl
  none-select (r ∷ rs) h = ground (arith, none-select rs, h)

  -- At most one row passes a test, and none of those that pass it the other.
  one-select :
      (rs : List R)
      → count p rs ≤ 1
      → count (λ r. p r && q r) rs ≡ 0
      → (select p rs ≡ []) ⊎ ((r : R) × (select p rs ≡ r ∷ []) × (q r ≡ false))
  unfolding count select
  one-select [] h k = inl refl
  one-select (r ∷ rs) h k = elim (Bool-cases (p r)) [
    | inl e ↦ inr (r, rw (e, none-select rs (ground (arith, e, h))) refl, ground (arith, e, k))
    | inr e ↦ rw e (one-select rs (ground (arith, e, h)) (ground (arith, e, k)))
  ]

-- A sign-in whose password fits no live user with the email address gives one and the same answer
-- and changes nothing, whether or not there is such a user, and whatever else its row says. At most
-- one live user has the address.
pub login-opaque :
    (security : Security) (email password : ℕ) (device_label : Option String) (salt : ℕ)
    (draws : TokenDraws) (db : Db)
    → count (has_email email) db.users ≤ 1
    → count (λ u. has_email email u && security.verify_password password u.password_hash) db.users
      ≡ 0
    → serve (login security email password device_label salt draws) db
      ≡ (err Error.invalid_credentials, db)
unfolding login gets or_raise scalar_one_or_none raise_if modify ◌>>=◌
login-opaque security email password device_label salt draws db single wrong =
    elim (one-select (has_email email) (λ u. security.verify_password password u.password_hash)
      db.users single wrong) [ inl e ↦ ground (arith, e) | inr (u, e, f) ↦ ground (arith, e, f) ]
