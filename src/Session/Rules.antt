-- ===== src/Session/Rules.antt =====
-- What a service call leaves in the session: one rule for each way to go on or to raise. A raise
-- leaves what was there, so a property that holds before and on the way out holds after.
use marketplace_invite_only.Common.{
  ◌≡◌, refl, Bool, true, false, Option, none, some, List, [], ◌∷◌, if◌then◌else◌, arith,
}
use mathlib.Core.Path.{fun_ext, subst, sym}
use marketplace_invite_only.Models.{Db}
use marketplace_invite_only.Session.{
  Error, Action, pure, raise, gets, or_raise, scalar_one_or_none, raise_if, modify, ◌>>=◌, Result,
  ok, err, is_ok, continue, commit_or_rollback, request,
}

module _ {A B C : Type 0} where
  continue_assoc :
      (r : Result A) (f : A → Action B) (g : B → Action C) (db : Db)
      → ((λ db'. continue r f db') >>= g) db ≡ continue r (λ a. f a >>= g) db
  unfolding ◌>>=◌
  continue_assoc (ok a) f g db = refl
  continue_assoc (err e) f g db = refl

  pub bind_assoc :
      (m : Action A) (f : A → Action B) (g : B → Action C)
      → (m >>= f >>= g) ≡ (m >>= λ a. f a >>= g)
  unfolding ◌>>=◌
  bind_assoc m f g = fun_ext λ db. let (r, db') = m db in continue_assoc r f g db'

pub after_raise {ℓ} :
    (A : Type 0) (P : Db → Type ℓ) (e : Error) (db : Db) → P db → P (raise {A = A} e db).1
unfolding raise
after_raise A P e db p = p

-- A call inside a chain is read step by step.
pub after_assoc {ℓ} :
    {A B C : Type 0} (P : Db → Type ℓ) (m : Action A) (f : A → Action B) (g : B → Action C)
    (db : Db)
    → P ((m >>= λ a. f a >>= g) db).1
    → P ((m >>= f >>= g) db).1
after_assoc {A} {B} {C} P m f g db p =
    subst (λ (h : Action C). P (h db).1) (sym (bind_assoc m f g)) p

pub after_modify_only {ℓ} : (P : Db → Type ℓ) (g : Db → Db) (db : Db) → P (g db) → P (modify g db).1
unfolding modify
after_modify_only P g db p = p

module _ {ℓ} {A : Type 0} (P : Db → Type ℓ) where
  pub after_pure : (a : A) (db : Db) → P db → P (pure a db).1
  unfolding pure
  after_pure a db p = p

  pub after_or_raise_only : (o : Option A) (e : Error) (db : Db) → P db → P (or_raise o e db).1
  unfolding or_raise
  after_or_raise_only none e db p = p
  after_or_raise_only (some a) e db p = p

  pub after_raise_if :
      (b : Bool) (e : Error) (f : Unit {0} → Action A) (db : Db)
      → P db
      → (b ≡ false → P (f tt db).1)
      → P ((raise_if b e >>= f) db).1
  unfolding ◌>>=◌
  after_raise_if true e f db p q = p
  after_raise_if false e f db p q = q refl

  pub after_when :
      (b : Bool) (g : Db → Db) (f : Unit {0} → Action A) (db : Db)
      → P (f tt (if b then g db else db)).1
      → P (((if b then modify g else pure tt) >>= f) db).1
  unfolding ◌>>=◌
  after_when true g f db p = p
  after_when false g f db p = p

  pub after_modify :
      (g : Db → Db) (f : Unit {0} → Action A) (db : Db)
      → P (f tt (g db)).1
      → P ((modify g >>= f) db).1
  unfolding ◌>>=◌
  after_modify g f db p = p

module _ {ℓ} {A B : Type 0} (P : Db → Type ℓ) where
  pub after_pure_bind :
      (a : A) (f : A → Action B) (db : Db) → P (f a db).1 → P ((pure a >>= f) db).1
  unfolding ◌>>=◌
  after_pure_bind a f db p = p

  pub after_raise_bind : (e : Error) (f : A → Action B) (db : Db) → P db → P ((raise e >>= f) db).1
  unfolding ◌>>=◌
  after_raise_bind e f db p = p

  pub after_gets :
      (g : Db → A) (f : A → Action B) (db : Db) → P (f (g db) db).1 → P ((gets g >>= f) db).1
  unfolding ◌>>=◌
  after_gets g f db p = p

  pub after_or_raise :
      (o : Option A) (e : Error) (f : A → Action B) (db : Db)
      → P db
      → ((a : A) → o ≡ some a → P (f a db).1)
      → P ((or_raise o e >>= f) db).1
  unfolding ◌>>=◌
  after_or_raise none e f db p q = p
  after_or_raise (some a) e f db p q = q a refl

  pub after_scalar :
      (rows : List A) (f : Option A → Action B) (db : Db)
      → P db
      → (rows ≡ [] → P (f none db).1)
      → ((a : A) → rows ≡ a ∷ [] → P (f (some a) db).1)
      → P ((scalar_one_or_none rows >>= f) db).1
  unfolding ◌>>=◌
  after_scalar [] f db p q r = q refl
  after_scalar (a ∷ []) f db p q r = r a refl
  after_scalar (a ∷ b ∷ rest) f db p q r = p

rolled_back :
    {A : Type 0} (before : Db) (r : Result A) (after : Db)
    → is_ok r ≡ false
    → (commit_or_rollback before (r, after)).1 ≡ before
unfolding commit_or_rollback
rolled_back before (ok a) after h = absurd (ground arith)
rolled_back before (err e) after h = refl

pub request-failed :
    {A : Type 0} (m : Action A) (db : Db) → is_ok (m db).0 ≡ false → (request m db).1 ≡ db
unfolding request
request-failed m db h = rolled_back db (m db).0 (m db).1 h

pub after_if {ℓ} :
    {A : Type 0} (P : Db → Type ℓ) (b : Bool) (m n : Action A) (db : Db)
    → (b ≡ true → P (m db).1)
    → (b ≡ false → P (n db).1)
    → P ((if b then m else n) db).1
after_if P true m n db p q = p refl
after_if P false m n db p q = q refl
