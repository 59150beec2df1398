-- ===== src/Transport/Io.antt =====
-- Calls of api/internal/transport that work on a carrier and may fail: what was sent or received
-- before a failure stays so.
use tinku.Transport.Conventions.{Wire, ok, err, panic}

abbrev pub Io {ℓ} : Type ℓ → Type ℓ → Type ℓ
Io S A = S → Wire A × S

module _ {ℓ} {S A : Type ℓ} where
  abbrev pub pure : A → Io S A
  pure a s = (ok a, s)

  abbrev pub lift : Wire A → Io S A
  lift w s = (w, s)

module _ {ℓ} {S A B : Type ℓ} where
  abbrev pub continue : Wire A → (A → Io S B) → Io S B
  continue (ok a) f s = f a s
  continue (err e) f s = (err e, s)
  continue panic f s = (panic, s)

  infixl 5 ◌>>=◌ ◌>>◌
  abbrev pub ◌>>=◌ : Io S A → (A → Io S B) → Io S B
  ◌>>=◌ m f s = continue (m s).0 f (m s).1

  abbrev pub ◌>>◌ : Io S A → Io S B → Io S B
  m >> k = m >>= λ _. k
