-- ===== src/Session/Transaction.antt =====
-- A service call that commits in its middle: `await db.commit()` makes what the session holds
-- permanent, so that an exception after it rolls back to there and not to the start of the request.
use marketplace_invite_only.Models.{Db}
use marketplace_invite_only.Session.{Error, Result, ok, err, Action}

-- What the session sees, and what it would roll back to.
pub record Transaction : Type 0 where
  pub committed : Db
  pub current : Db

abbrev pub Step : Type 0 → Type 0
Step A = Transaction → Result A × Transaction

module _ {A : Type 0} where
  -- a call that does not commit
  unfoldable pub act : Action A → Step A
  act m t = let (r, db) = m t.current in (r, record t { current = db })

  unfoldable pub finish : A → Step A
  finish a t = (ok a, t)

  unfoldable pub fail : Error → Step A
  fail e t = (err e, t)

  abbrev pub settle : Result A × Transaction → Result A × Db
  settle (ok a, t) = (ok a, t.current)
  settle (err e, t) = (err e, t.committed)

  -- `get_db` around an endpoint that calls a service that may commit
  unfoldable pub serve : Step A → Db → Result A × Db
  serve m db = settle (m (record { committed = db; current = db }))

-- `await db.commit()`
unfoldable pub commit : Step (Unit {0})
commit t = (ok tt, record t { committed = t.current })

abbrev pub proceed : {A B : Type 0} → Result A → (A → Step B) → Transaction → Result B × Transaction
proceed (ok a) f t = f a t
proceed (err e) f t = (err e, t)

infixl 5 ◌>>=◌ ◌>>◌
-- Opening this opens the steps above too.
unfoldable pub ◌>>=◌ : {A B : Type 0} → Step A → (A → Step B) → Step B
unfolding act finish fail commit serve
◌>>=◌ m f t = let (r, t') = m t in proceed r f t'

abbrev pub ◌>>◌ : {B : Type 0} → Step (Unit {0}) → Step B → Step B
m >> k = m >>= λ _. k
