-- ===== src/Base/Effects/Succeeds.antt =====
-- Actions that return, from every state.
use mathlib.Core.Path.{◌≡◌, refl}
use mathlib.Core.Bool.{true}
use mathlib.Core.List.{List, [], ◌∷◌}
use beecon.Base.Effects.{Result, ok, err, is_ok, Exec, pure, lift, continue, ◌>>=◌, collect}

pub record Succeeds {S A : Type 0} (m : Exec S A) : Type 0 where
  pub at : (s : S) → is_ok (m s).0 ≡ true

module _ {S A : Type 0} where
  pub Succeeds-pure : (a : A) → Succeeds {S = S} (pure a)
  unfolding pure
  Succeeds-pure a = record { at = λ s. refl }

  pub Succeeds-lift : (r : Result A) → is_ok r ≡ true → Succeeds {S = S} (lift r)
  unfolding lift
  Succeeds-lift r h = record { at = λ s. h }

module _ {S A B : Type 0} where
  pub Succeeds-bind :
      (m : Exec S A) (f : A → Exec S B)
      → Succeeds m
      → ((a : A) → Succeeds (f a))
      → Succeeds (m >>= f)
  unfolding ◌>>=◌
  Succeeds-bind m f sm sf = record { at = λ s. go (m s).0 (m s).1 (sm.at s) }
    where
      go : (r : Result A) (s : S) → is_ok r ≡ true → is_ok (continue r f s).0 ≡ true
      go (ok a) s h = (sf a).at s
      go (err e) s h = h

module _ {S A B : Type 0} where
  pub Succeeds-collect :
      (f : A → Exec S B) (xs : List A) → ((x : A) → Succeeds (f x)) → Succeeds (collect f xs)
  unfolding collect
  Succeeds-collect f [] k = Succeeds-pure []
  Succeeds-collect f (x ∷ xs) k =
      Succeeds-bind (f x) _ (k x)
        λ y. Succeeds-bind (collect f xs) _ (Succeeds-collect f xs k) λ ys. Succeeds-pure (y ∷ ys)
