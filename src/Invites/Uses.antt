-- ===== src/Invites/Uses.antt =====
-- What consuming an invitation does, against what validating it says, and referral links.
use marketplace_invite_only.Common.{
  ◌≡◌, refl, ℕ, ◌+◌, Bool, true, false, not, ◌&&◌, Option, some, List, [], ◌∷◌, ◌==◌, is_some,
  ==-refl, Bool-cases, Option-cases, inl, inr, ◌⊎◌, if◌then◌else◌, arith,
}
use mathlib.Core.Path.{subst}
use marketplace_invite_only.Common.Tables.{count, update, update_where}
use marketplace_invite_only.Common.Writes.{find-update_where}
use marketplace_invite_only.Common.Rows.{count-append}
use marketplace_invite_only.Models.{UserRole, User, InviteLink, InviteLinkType, Db}
use marketplace_invite_only.Session.{modify, pure, Result, ok, err, is_ok, Returns, continue, ◌>>=◌}
use marketplace_invite_only.Invites.Links.{
  may_refer, seller_profile, ensure_seller, create_referral, new_referral, is_active_referral,
  revoke_referrals, regenerate_seller_referral, is_expired, is_used, find_token, validate_invite,
  check_role, consume_invite,
}

check_role-reads :
    (t : InviteLinkType) (i : InviteLink) (r : Option UserRole) (db : Db)
    → (check_role t i r db).1 ≡ db
unfolding check_role ◌>>=◌
check_role-reads InviteLinkType.admin_invite i r db = ground arith
check_role-reads InviteLinkType.seller_referral i r db = ground arith

abbrev pub use_once : InviteLink → InviteLink
use_once i = record i { used_count = i.used_count + 1 }

abbrev pub with_use : ℕ → Db → Db
with_use id db = record db { invites = update (λ (i : InviteLink). i.id) id use_once db.invites }

-- the flag `valid` of `validate_invite`
abbrev pub is_usable : ℕ → InviteLink → Bool
is_usable now i = not (is_expired now i) && (not (is_some i.revoked_at) && not (is_used i))

-- The end of `consume_invite`, after the role checks.
recorded :
    (i : InviteLink) (r : Result (Unit {0})) (db db' : Db)
    → db' ≡ db
    → (is_ok (continue r (λ u. modify (with_use i.id) >>= λ u'. pure (use_once i)) db').0 ≡ false)
      ⊎ (continue r (λ u. modify (with_use i.id) >>= λ u'. pure (use_once i)) db'
          ≡ (ok (use_once i), with_use i.id db))
unfolding ◌>>=◌
recorded i (err e) db db' h = inl refl
recorded i (ok u) db db' h = inr (rw h refl)

pub consume-cases :
    (token : ℕ) (role : Option UserRole) (now : ℕ) (db : Db) (i : InviteLink)
    → find_token token db ≡ some i
    → (is_ok (consume_invite token role now db).0 ≡ false)
      ⊎ ((consume_invite token role now db ≡ (ok (use_once i), with_use i.id db))
          × (is_usable now i ≡ true))
unfolding consume_invite ◌>>=◌
consume-cases token role now db i found = elim (Bool-cases (is_usable now i)) [
  | inr e ↦ inl (ground (arith, found, e))
  | inl e ↦
      elim (recorded i (check_role i.type i role db).0 db (check_role i.type i role db).1
        (check_role-reads i.type i role db)) [
          | inl f ↦ inl (ground (arith, found, e, f))
          | inr f ↦ inr (ground (arith, found, e, f), e)
        ]
]

-- An invitation that a call consumes is one that validating it at the same moment calls valid; the
-- validation itself always returns.
pub consume_invite-validate_invite :
    (token : ℕ) (role : Option UserRole) (now : ℕ) (db : Db)
    → is_ok (consume_invite token role now db).0 ≡ true
    → Returns (λ flags. flags.valid ≡ true) (validate_invite token now db).0
unfolding validate_invite consume_invite ◌>>=◌
consume_invite-validate_invite token role now db h = elim (Option-cases (find_token token db)) [
  | inl e ↦ absurd (ground (arith, e))
  | inr (i, e) ↦ elim (consume-cases token role now db i e) [
    | inl f ↦ absurd (ground (arith, f))
    | inr (f, usable) ↦ rw e usable
  ]
]

pub find_token-with_use :
    (token : ℕ) (db : Db) (i : InviteLink)
    → find_token token db ≡ some i
    → find_token token (with_use i.id db) ≡ some (use_once i)
find_token-with_use token db i found =
    subst (λ b. find_token token (with_use i.id db) ≡ some (if b then use_once i else i))
      (==-refl i.id)
      (find-update_where (λ (i : InviteLink). i.token) (λ i'. i'.id == i.id) use_once (λ j. refl)
        token db.invites i found)

revoked-count :
    (user_id now : ℕ) (rows : List InviteLink)
    → count
        (is_active_referral user_id)
        (update_where (is_active_referral user_id) (λ i. record i { revoked_at = some now }) rows)
      ≡ 0
unfolding count update_where
revoked-count user_id now [] = refl
revoked-count user_id now (i ∷ rest) = ground (arith, revoked-count user_id now rest)

-- After a call that regenerates a referral link, exactly one referral link of the caller is active
-- where the call returned, and the database is as before where it raised, whatever links there were.
pub regenerate_seller_referral-single :
    (user : User) (invite_id token now : ℕ) (db : Db)
    → ((is_ok (regenerate_seller_referral user invite_id token now db).0 ≡ true)
        × (count
              (is_active_referral user.id)
              (regenerate_seller_referral user invite_id token now db).1.invites
            ≡ 1))
      ⊎ ((is_ok (regenerate_seller_referral user invite_id token now db).0 ≡ false)
          × ((regenerate_seller_referral user invite_id token now db).1 ≡ db))
unfolding regenerate_seller_referral ensure_seller create_referral count ◌>>=◌
regenerate_seller_referral-single user invite_id token now db =
    elim (Bool-cases (may_refer user.role && is_some (seller_profile user.id db))) [
      | inl e ↦
          let added =
            count-append (is_active_referral user.id) (revoke_referrals user.id now db).invites
              (new_referral invite_id user.id token ∷ []) in
          inl (
            ground (arith, e),
            ground (arith, e, added, revoked-count user.id now db.invites, ==-refl user.id),
          )
      | inr e ↦ inr (ground (arith, e), ground (arith, e))
    ]
