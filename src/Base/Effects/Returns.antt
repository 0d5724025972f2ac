-- ===== src/Base/Effects/Returns.antt =====
-- What must have happened for a block to return.
use mathlib.Core.Path.{◌≡◌, refl}
use native.Mathlib.Omega.{arith}
use beecon.Base.Effects.{Result, ok, err, Exec, continue, ◌>>=◌}

module _ {S A B : Type 0} where
  -- Its first action returned, and the rest ran from there.
  pub bind-ok :
      (m : Exec S A) (f : A → Exec S B) (s : S) (b : B)
      → ((m >>= f) s).0 ≡ ok b
      → (a : A) × ((m s).0 ≡ ok a) × ((m >>= f) s ≡ f a (m s).1)
  unfolding ◌>>=◌
  bind-ok m f s b = go (m s).0 (m s).1
    where
      go :
          (r : Result A) (s : S)
          → (continue r f s).0 ≡ ok b
          → (a : A) × (r ≡ ok a) × (continue r f s ≡ f a s)
      go (ok a) s e = (a, refl, refl)
      go (err x) s e = absurd (ground arith)
