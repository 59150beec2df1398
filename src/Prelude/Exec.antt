-- ===== src/Prelude/Exec.antt =====
-- Methods that read and write the store and may fail. What was written before a failure stays
-- written: no handler of the program wraps its store calls in one transaction.
use mathlib.Core.Bool.{Bool}
use tinku.Prelude.Tests.{if◌then◌else◌}
use tinku.Prelude.Result.{Error, Result, ok, err}

abbrev pub Exec {ℓ} : Type ℓ → Type ℓ → Type ℓ
Exec S A = S → Result A × S

module _ {ℓ} {S A : Type ℓ} where
  pub pure : A → Exec S A
  pure a s = (ok a, s)

  pub raise : Error → Exec S A
  raise e s = (err e, s)

  -- A call that only reads, and a value that may be a failure.
  pub query : (S → Result A) → Exec S A
  query f s = (f s, s)

  pub lift : Result A → Exec S A
  lift r s = (r, s)

-- `if !cond { return err }`.
pub guard : {S : Type 0} → Bool → Error → Exec S (Unit {0})
guard b e s = (if b then ok tt else err e, s)

module _ {ℓ} {S A B : Type ℓ} where
  abbrev pub continue : Result A → (A → Exec S B) → Exec S B
  continue (ok a) f s = f a s
  continue (err e) f s = (err e, s)

  infixl 5 ◌>>=◌ ◌>>◌
  -- Opening this opens the other actions too.
  unfoldable pub ◌>>=◌ : Exec S A → (A → Exec S B) → Exec S B
  unfolding pure raise query lift guard
  ◌>>=◌ m f s = continue (m s).0 f (m s).1

  abbrev pub ◌>>◌ : Exec S A → Exec S B → Exec S B
  m >> n = m >>= λ _. n
