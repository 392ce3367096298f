-- ===== src/Auth/Limits.antt =====
-- How many accounts one invitation gives, over any sequence of sign-ups with it.
use marketplace_invite_only.Common.{
  ◌≡◌, refl, ◌∙◌, ℕ, ◌+◌, ◌≤◌, max, true, false, some, List, [], ◌∷◌, Bool-cases, Option-cases, inl,
  inr, ◌⊎◌, if◌then◌else◌, arith,
}
use marketplace_invite_only.Models.{InviteLink, Db}
use marketplace_invite_only.Session.{
  Result, ok, err, is_ok, Action, gets, or_raise, scalar_one_or_none, raise_if, modify,
}
use marketplace_invite_only.Session.Transaction.{
  Transaction, Step, act, finish, commit, settle, serve, proceed, ◌>>=◌,
}
use marketplace_invite_only.Invites.Links.{find_token, consume_invite}
use marketplace_invite_only.Invites.Uses.{
  use_once, with_use, is_usable, consume-cases, find_token-with_use,
}
use marketplace_invite_only.Auth.Security.{Security}
use marketplace_invite_only.Auth.Accounts.{
  SignupRequest, TokenDraws, LoginResponse, invited_role, signup,
}
use marketplace_invite_only.Auth.Admission.{signup-consumed}

-- Where the step raises, nothing new is committed.
abbrev IsAtomic : {A : Type 0} → Step A → Type 0
IsAtomic m = (t : Transaction) → (is_ok (m t).0 ≡ true) ⊎ ((m t).1.committed ≡ t.committed)

proceed-IsAtomic :
    {A B : Type 0} (r : Result A) (f : A → Step B) (t t' : Transaction)
    → t'.committed ≡ t.committed
    → ((a : A) → IsAtomic (f a))
    → (is_ok (proceed r f t').0 ≡ true) ⊎ ((proceed r f t').1.committed ≡ t.committed)
proceed-IsAtomic (err e) f t t' same h = inr same
proceed-IsAtomic (ok a) f t t' same h = elim (h a t') [
  | inl done ↦ inl done
  | inr kept ↦ inr (kept ∙ same)
]

act-IsAtomic :
    {A B : Type 0} (m : Action A) (f : A → Step B)
    → ((a : A) → IsAtomic (f a))
    → IsAtomic (act m >>= f)
unfolding ◌>>=◌
act-IsAtomic m f h t =
    proceed-IsAtomic (m t.current).0 f t (record t { current = (m t.current).1 }) refl h

commit-IsAtomic : {A : Type 0} (a : A) → IsAtomic (commit >>= λ u. finish a)
unfolding ◌>>=◌
commit-IsAtomic a t = inl refl

settled :
    {A : Type 0} (r : Result A) (t : Transaction) (db : Db)
    → is_ok (settle (r, t)).0 ≡ false
    → (is_ok r ≡ true) ⊎ (t.committed ≡ db)
    → (settle (r, t)).1 ≡ db
settled (ok a) t db h s = absurd (ground (arith, h))
settled (err e) t db h (inl s) = absurd (ground (arith, s))
settled (err e) t db h (inr s) = s

serve-IsAtomic :
    {A : Type 0} (m : Step A) (db : Db)
    → IsAtomic m
    → is_ok (serve m db).0 ≡ false
    → (serve m db).1 ≡ db
unfolding ◌>>=◌
serve-IsAtomic m db a h =
    let t = m (record { committed = db; current = db }) in
    settled t.0 t.1 db h (a (record { committed = db; current = db }))

-- One sign-up: the request, what it draws, and the clock.
pub record Registration : Type 0 where
  pub req : SignupRequest
  pub user_id : ℕ
  pub referral_id : ℕ
  pub salt : ℕ
  pub now : ℕ
  pub draws : TokenDraws

module _ (security : Security) where
  signup-IsAtomic :
      (req : SignupRequest) (user_id referral_id salt now : ℕ) (draws : TokenDraws)
      → IsAtomic (signup security req user_id referral_id salt now draws)
  unfolding signup
  signup-IsAtomic req user_id referral_id salt now draws = act-IsAtomic _ _ λ u.
      act-IsAtomic _ _ λ invite. act-IsAtomic _ _ λ rows. act-IsAtomic _ _ λ existing.
        act-IsAtomic _ _ λ u'. act-IsAtomic _ _ λ role. act-IsAtomic _ _ λ taken.
          act-IsAtomic _ _ λ v.
            act-IsAtomic _ _ λ v'. act-IsAtomic _ _ λ w. act-IsAtomic _ _ λ w'. commit-IsAtomic _

  signup-invites :
      (req : SignupRequest) (user_id referral_id salt now : ℕ) (draws : TokenDraws) (i : InviteLink)
      (db : Db)
      → consume_invite req.invite_token req.role_choice now db ≡ (ok (use_once i), with_use i.id db)
      → is_ok (serve (signup security req user_id referral_id salt now draws) db).0 ≡ true
      → (serve (signup security req user_id referral_id salt now draws) db).1.invites
        ≡ (with_use i.id db).invites
  unfolding signup raise_if gets or_raise scalar_one_or_none modify ◌>>=◌
  signup-invites req user_id referral_id salt now draws i db e done =
      elim (Option-cases (invited_role i.type i req.role_choice)) [
        | inl f ↦ absurd (ground (arith, done, e, f))
        | inr (role, f) ↦ ground (arith, done, e, f)
      ]

  -- A sign-up that returns has counted one use of an invitation that had one left.
  signup-find_token :
      (req : SignupRequest) (user_id referral_id salt now : ℕ) (draws : TokenDraws) (i : InviteLink)
      (db : Db)
      → find_token req.invite_token db ≡ some i
      → is_ok (serve (signup security req user_id referral_id salt now draws) db).0 ≡ true
      → (is_usable now i ≡ true)
        × (find_token req.invite_token
              (serve (signup security req user_id referral_id salt now draws) db).1
            ≡ some (use_once i))
  signup-find_token req user_id referral_id salt now draws i db found done =
      elim (consume-cases req.invite_token req.role_choice now db i found) [
        | inl f ↦ absurd (
            ground
              (arith, f, signup-consumed security req user_id referral_id salt now draws db done))
        | inr (f, usable) ↦ (
          usable,
          rw (signup-invites req user_id referral_id salt now draws i db f done)
              (find_token-with_use req.invite_token db i found),
        )
      ]

  abbrev pub register : ℕ → Registration → Step LoginResponse
  register token r =
      signup security (record r.req { invite_token = token }) r.user_id r.referral_id r.salt r.now
        r.draws

  -- The number of sign-ups that return, one request after the other, each with the same token.
  unfoldable pub admitted : ℕ → List Registration → Db → ℕ
  admitted token [] db = 0
  admitted token (r ∷ rest) db =
      (if is_ok (serve (register token r) db).0 then 1 else 0)
      + admitted token rest (serve (register token r) db).1

  -- However many sign-ups are tried with the token of an invitation that is for at most `limit` uses,
  -- no more of them return than are left of the limit.
  pub admitted-limit :
      (token limit : ℕ) (i : InviteLink) (tries : List Registration) (db : Db)
      → find_token token db ≡ some i
      → i.max_uses ≡ some limit
      → admitted token tries db + i.used_count ≤ max limit i.used_count
  unfolding admitted
  admitted-limit token limit i [] db found limited = omega arith
  admitted-limit token limit i (r ∷ rest) db found limited =
      let req = record r.req { invite_token = token } in
      let after = (serve (register token r) db).1 in
      elim (Bool-cases (is_ok (serve (register token r) db).0)) [
        | inr f ↦
            let kept =
              serve-IsAtomic (register token r) db
                (signup-IsAtomic req r.user_id r.referral_id r.salt r.now r.draws) f in
            rw (f, kept) (omega (arith, admitted-limit token limit i rest db found limited))
        | inl f ↦
            let (usable, counted) =
              signup-find_token req r.user_id r.referral_id r.salt r.now r.draws i db found f in
            let next : admitted token rest after + (i.used_count + 1)
                ≤ max limit (i.used_count + 1) =
              admitted-limit token limit (use_once i) rest after counted limited in
            rw f (ground (arith, next, usable, limited))
      ]
