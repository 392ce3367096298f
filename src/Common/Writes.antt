-- ===== src/Common/Writes.antt =====
-- Unique keys and the rows that they find, under a write to all rows that pass a test.
use Prim.Native.Nat.{ℕ}
use mathlib.Core.Path.{◌≡◌, refl, subst}
use mathlib.Core.Logic.{inl, inr}
use mathlib.Core.Bool.{Bool}
use mathlib.Core.Option.{none, some, some-injective}
use mathlib.Core.List.{List, [], ◌∷◌}
use native.Mathlib.Omega.{arith}
use marketplace_invite_only.Common.Tests.{◌==◌, if◌then◌else◌, Bool-cases}
use marketplace_invite_only.Common.Tables.{find, update_where}

module _ {ℓ} {R : Type ℓ} (key : R → ℕ) (p : R → Bool) (f : R → R)
    (h : (r : R) → key (f r) ≡ key r) where
  pub find-none-update_where :
      (k : ℕ) (rs : List R) → find key k rs ≡ none → find key k (update_where p f rs) ≡ none
  unfolding find update_where
  find-none-update_where k [] e = e
  find-none-update_where k (r ∷ rs) e = ground (arith, h r, find-none-update_where k rs)

  -- The first row with a key is still the first after a write, written to if it passes the test.
  pub find-update_where :
      (k : ℕ) (rs : List R) (r : R)
      → find key k rs ≡ some r
      → find key k (update_where p f rs) ≡ some (if p r then f r else r)
  unfolding find update_where
  find-update_where k [] r e = absurd (ground arith)
  find-update_where k (q ∷ rs) r e = elim (Bool-cases (key q == k)) [
    | inl at ↦
        let same : q ≡ r = some-injective _ _ (rw at at e) in
        subst
          (λ x.
            find key k ((if p q then f q else q) ∷ update_where p f rs)
            ≡ some (if p x then f x else x))
          same
          (elim (Bool-cases (p q)) [
            | inl hit ↦ rw (hit, h q, at) refl
            | inr miss ↦ rw (miss, at) refl
          ])
    | inr off ↦
        let later : find key k (update_where p f rs) ≡ some (if p r then f r else r) =
          find-update_where k rs r (rw off at e) in
        elim (Bool-cases (p q)) [
          | inl hit ↦ rw (hit, h q, off) later
          | inr miss ↦ rw (miss, off) later
        ]
  ]
