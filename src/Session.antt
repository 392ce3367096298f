-- ===== src/Session.antt =====
-- A service call: it reads and writes the session's database and may raise. What was written before
-- a raise is still in the session; `request` is what the `get_db` dependency of
-- backend/app/api/deps.py makes of it: a commit on a clean exit, a rollback on an exception.
mod Errors
pub mod Rules
pub mod Transaction
pub use Errors.{Error, Result, ok, err, is_ok, Returns}
use marketplace_invite_only.Common.{Bool, true, false, Option, none, some, List, [], ◌∷◌}
use marketplace_invite_only.Models.{Db}

abbrev pub Action : Type 0 → Type 0
Action A = Db → Result A × Db

module _ {A : Type 0} where
  unfoldable pub pure : A → Action A
  pure a db = (ok a, db)

  unfoldable pub raise : Error → Action A
  raise e db = (err e, db)

  -- a read of the database
  unfoldable pub gets : (Db → A) → Action A
  gets f db = (ok (f db), db)

  -- `if x is None: raise e`
  unfoldable pub or_raise : Option A → Error → Action A
  or_raise none e db = (err e, db)
  or_raise (some a) e db = (ok a, db)

  -- `result.scalar_one_or_none()` over the rows of a select that no constraint makes unique
  unfoldable pub scalar_one_or_none : List A → Action (Option A)
  scalar_one_or_none [] db = (ok none, db)
  scalar_one_or_none (a ∷ []) db = (ok (some a), db)
  scalar_one_or_none (a ∷ _ ∷ _) db = (err Error.multiple_results_found, db)

-- `if c: raise e`
unfoldable pub raise_if : Bool → Error → Action (Unit {0})
raise_if true e db = (err e, db)
raise_if false e db = (ok tt, db)

-- a write to the session, flushed
unfoldable pub modify : (Db → Db) → Action (Unit {0})
modify f db = (ok tt, f db)

abbrev pub continue : {A B : Type 0} → Result A → (A → Action B) → Db → Result B × Db
continue (ok a) f db = f a db
continue (err e) f db = (err e, db)

infixl 5 ◌>>=◌ ◌>>◌
-- Opening this opens the actions above too.
unfoldable pub ◌>>=◌ : {A B : Type 0} → Action A → (A → Action B) → Action B
unfolding pure raise gets or_raise scalar_one_or_none raise_if modify
◌>>=◌ m f db = let (r, db') = m db in continue r f db'

abbrev pub ◌>>◌ : {B : Type 0} → Action (Unit {0}) → Action B → Action B
m >> k = m >>= λ _. k

unfoldable pub commit_or_rollback : {A : Type 0} → Db → Result A × Db → Result A × Db
commit_or_rollback before (ok a, after) = (ok a, after)
commit_or_rollback before (err e, after) = (err e, before)

-- `get_db` around an endpoint
unfoldable pub request : {A : Type 0} → Action A → Action A
unfolding commit_or_rollback
request m db = commit_or_rollback db (m db)
