-- ===== src/Auth/Admission.antt =====
-- Who gets an account, as what, and what a refused sign-in tells.
use marketplace_invite_only.Common.{
  ◌≡◌, refl, ℕ, true, false, ◌||◌, Option, none, some, List, [], ◌∷◌, ◌++◌, is_some, ==-refl,
  Bool-cases, Option-cases, inl, inr, arith,
}
use marketplace_invite_only.Common.Tables.{count, find}
use marketplace_invite_only.Common.Rows.{count-append}
use marketplace_invite_only.Models.{UserRole, InviteLinkType, role_is, User, InviteLink, Db}
use marketplace_invite_only.Session.{
  ok, is_ok, gets, or_raise, scalar_one_or_none, raise_if, modify,
}
use marketplace_invite_only.Session.Transaction.{serve, ◌>>=◌}
use marketplace_invite_only.Invites.Links.{
  find_token, check_role, consume_invite, role_of, opt_role_is,
}
use marketplace_invite_only.Invites.Uses.{use_once, with_use, is_usable, consume-cases}
use marketplace_invite_only.Auth.Security.{Security}
use marketplace_invite_only.Auth.Accounts.{
  SignupRequest, TokenDraws, has_email, invited_role, new_user, email_in_use, signup,
  referring_seller,
}
use marketplace_invite_only.Session.{◌>>=◌ as ◌>>>=◌}

-- What an invitation entitles the new user to: an admin's to the role that it names, a seller's
-- referral to be a customer or a seller who belongs to that seller.
abbrev pub IsEntitled : InviteLinkType → InviteLink → User → Db → Type 0
IsEntitled InviteLinkType.admin_invite invite user db =
    (invite.role_target ≡ some user.role) × (user.referring_seller_id ≡ none)
IsEntitled InviteLinkType.seller_referral invite user db =
    ((role_is user.role UserRole.customer || role_is user.role UserRole.seller) ≡ true)
    × ((user.referring_seller_id ≡ some invite.issuer_id)
        × (opt_role_is (role_of (find (λ (u : User). u.id) invite.issuer_id db.users))
              UserRole.seller
            ≡ true))

check_role-IsEntitled :
    (t : InviteLinkType) (i : InviteLink) (choice : Option UserRole) (role : UserRole) (db : Db)
    (user : User)
    → is_ok (check_role t i choice db).0 ≡ true
    → invited_role t i choice ≡ some role
    → user.role ≡ role
    → user.referring_seller_id ≡ referring_seller t i.issuer_id
    → IsEntitled t i user db
unfolding check_role ◌>>>=◌
check_role-IsEntitled InviteLinkType.admin_invite i choice role db user h e r s =
    ground (arith, e, r, s)
check_role-IsEntitled InviteLinkType.seller_referral i choice role db user h e r s =
    ground (arith, h, e, r, s)

consume-check_role :
    (token : ℕ) (choice : Option UserRole) (now : ℕ) (db : Db) (i : InviteLink)
    → find_token token db ≡ some i
    → is_ok (consume_invite token choice now db).0 ≡ true
    → is_ok (check_role i.type i choice db).0 ≡ true
unfolding consume_invite ◌>>>=◌
consume-check_role token choice now db i found done =
    elim (Bool-cases (is_ok (check_role i.type i choice db).0)) [
      | inl e ↦ e
      | inr e ↦ absurd (ground (arith, found, done, e))
    ]

pub signup-consumed :
    (security : Security) (req : SignupRequest) (user_id referral_id salt now : ℕ)
    (draws : TokenDraws) (db : Db)
    → is_ok (serve (signup security req user_id referral_id salt now draws) db).0 ≡ true
    → is_ok (consume_invite req.invite_token req.role_choice now db).0 ≡ true
unfolding signup raise_if ◌>>=◌
signup-consumed security req user_id referral_id salt now draws db done =
    elim (Bool-cases (is_ok (consume_invite req.invite_token req.role_choice now db).0)) [
      | inl e ↦ e
      | inr e ↦ absurd (ground (arith, done, e))
    ]

signup-adds :
    (security : Security) (req : SignupRequest) (user_id referral_id salt now : ℕ)
    (draws : TokenDraws) (i : InviteLink) (db : Db)
    → consume_invite req.invite_token req.role_choice now db ≡ (ok (use_once i), with_use i.id db)
    → is_ok (serve (signup security req user_id referral_id salt now draws) db).0 ≡ true
    → (role : UserRole) × (invited_role i.type i req.role_choice ≡ some role)
      × ((serve (signup security req user_id referral_id salt now draws) db).1.users
          ≡ db.users
            ++ new_user req (use_once i) role user_id (security.hash_password salt req.password) now
              ∷ [])
      × (email_in_use req.email db ≡ false)
unfolding signup raise_if gets or_raise scalar_one_or_none modify ◌>>=◌
signup-adds security req user_id referral_id salt now draws i db e done =
    elim (Option-cases (invited_role i.type i req.role_choice)) [
      | inl f ↦ absurd (ground (arith, done, e, f))
      | inr (role, f) ↦ (role, f, ground (arith, done, e, f), ground (arith, done, e, f))
    ]

unused-count :
    (email : ℕ) (us : List User)
    → find (λ (u : User). u.email) email us ≡ none
    → count (has_email email) us ≡ 0
unfolding count find
unused-count email [] h = refl
unused-count email (u ∷ us) h = ground (arith, unused-count email us, h)

not_found-none : (o : Option User) → is_some o ≡ false → o ≡ none
not_found-none o h = ground arith

consume-none :
    (token : ℕ) (choice : Option UserRole) (now : ℕ) (db : Db)
    → find_token token db ≡ none
    → is_ok (consume_invite token choice now db).0 ≡ true
    → ⊥
unfolding consume_invite ◌>>>=◌
consume-none token choice now db e done = ground (arith, e, done)

-- The account that a sign-up adds.
pub record Account (req : SignupRequest) (now : ℕ) (db after : Db) : Type 0 where
  pub invite : InviteLink
  pub user : User
  pub presented : find_token req.invite_token db ≡ some invite
  pub usable : is_usable now invite ≡ true
  pub entitled : IsEntitled invite.type invite user db
  pub added : after.users ≡ db.users ++ user ∷ []
  pub only_one : count (has_email req.email) after.users ≡ 1

-- A sign-up that returns has added one user, with a role and a seller that the invitation that was
-- presented entitles to; the invitation was usable, and no other live user has the email address.
pub signup-Account :
    (security : Security) (req : SignupRequest) (user_id referral_id salt now : ℕ)
    (draws : TokenDraws) (db : Db)
    → is_ok (serve (signup security req user_id referral_id salt now draws) db).0 ≡ true
    → Account req now db (serve (signup security req user_id referral_id salt now draws) db).1
unfolding count
signup-Account security req user_id referral_id salt now draws db done =
    let consumed = signup-consumed security req user_id referral_id salt now draws db done in
    elim (Option-cases (find_token req.invite_token db)) [
      | inl e ↦ absurd (consume-none req.invite_token req.role_choice now db e consumed)
      | inr (i, e) ↦ elim (consume-cases req.invite_token req.role_choice now db i e) [
        | inl f ↦ absurd (ground (arith, f, consumed))
        | inr (f, usable) ↦
            let (role, r, added, unused) =
              signup-adds security req user_id referral_id salt now draws i db f done in
            let user =
              new_user req (use_once i) role user_id (security.hash_password salt req.password)
                now in
            record {
              invite = i;
              user = user;
              presented = e;
              usable = usable;
              entitled =
                  check_role-IsEntitled i.type i req.role_choice role db user
                    (consume-check_role req.invite_token req.role_choice now db i e consumed) r refl
                    refl;
              added = added;
              only_one =
                  rw
                    (
                      added,
                      count-append (has_email req.email) db.users (user ∷ []),
                      unused-count req.email db.users (not_found-none _ unused),
                    )
                    (ground (arith, ==-refl req.email));
            }
      ]
    ]
