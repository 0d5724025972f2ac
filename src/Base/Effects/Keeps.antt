-- ===== src/Base/Effects/Keeps.antt =====
-- What an action keeps: a relation between the states before and after, however the action ends.
use mathlib.Core.List.{List, [], ◌∷◌}
use mathlib.Core.Bool.{Bool, true, false}
use mathlib.Core.Option.{Option, none, some}
use mathlib.Core.Path.{◌≡◌, refl}
use beecon.Httpx.Errors.{Error}
use beecon.Base.Tests.{if◌then◌else◌}
use beecon.Base.Lists.{All}
use beecon.Base.Effects.{
  Result, ok, err, Exec, pure, fail, lift, gets, modify, check, or_fail, continue, ◌>>=◌, for_each,
  collect,
}

-- `m` keeps `P`, whether it returns or fails.
pub record Keeps {S A : Type 0} (P : S → Type 0) (m : Exec S A) : Type 0 where
  pub at : (s : S) → P s → P (m s).1

module _ {S A : Type 0} {P : S → Type 0} where
  pub Keeps-fail : (e : Error) → Keeps P (fail {A = A} e)
  unfolding fail
  Keeps-fail e = record { at = λ state kept. kept }

  pub Keeps-pure : (a : A) → Keeps P (pure a)
  unfolding pure
  Keeps-pure a = record { at = λ state kept. kept }

  pub Keeps-lift : (r : Result A) → Keeps P (lift r)
  unfolding lift
  Keeps-lift r = record { at = λ state kept. kept }

  pub Keeps-or_fail : (e : Error) (o : Option A) → Keeps P (or_fail e o)
  unfolding or_fail
  Keeps-or_fail e none = record { at = λ state kept. kept }
  Keeps-or_fail e (some a) = record { at = λ state kept. kept }

  pub Keeps-gets : (view : S → A) → Keeps P (gets view)
  unfolding gets
  Keeps-gets view = record { at = λ state kept. kept }

  pub Keeps-if : (b : Bool) (m n : Exec S A) → Keeps P m → Keeps P n → Keeps P (if b then m else n)
  Keeps-if true m n km kn = km
  Keeps-if false m n km kn = kn

module _ {S : Type 0} {P : S → Type 0} where
  pub Keeps-check : (o : Option Error) → Keeps P (check o)
  unfolding check
  Keeps-check none = record { at = λ state kept. kept }
  Keeps-check (some e) = record { at = λ state kept. kept }

  pub Keeps-modify : (f : S → S) → ((s : S) → P s → P (f s)) → Keeps P (modify f)
  unfolding modify
  Keeps-modify f h = record { at = h }

module _ {S A B : Type 0} {P : S → Type 0} where
  -- The rest of a block may use what its first action guarantees of its result.
  pub Keeps-bind_ok :
      (m : Exec S A) (f : A → Exec S B)
      → Keeps P m
      → ((a : A) (s : S) → P s → (m s).0 ≡ ok a → P (f a (m s).1).1)
      → Keeps P (m >>= f)
  unfolding ◌>>=◌
  Keeps-bind_ok m f km kf = record { at = λ s h. go s (m s).0 refl h }
    where
      go : (s : S) (r : Result A) → (m s).0 ≡ r → P s → P (continue r f (m s).1).1
      go s (ok a) e h = kf a s h e
      go s (err x) e h = km.at s h

  pub Keeps-bind :
      (m : Exec S A) (f : A → Exec S B) → Keeps P m → ((a : A) → Keeps P (f a)) → Keeps P (m >>= f)
  Keeps-bind m f km kf = Keeps-bind_ok m f km (λ a s h _. (kf a).at (m s).1 (km.at s h))

module _ {S A : Type 0} {P : S → Type 0} where
  pub Keeps-for_each :
      (f : A → Exec S (Unit {0})) (xs : List A)
      → ((x : A) → Keeps P (f x))
      → Keeps P (for_each f xs)
  unfolding for_each
  Keeps-for_each f [] k = Keeps-pure tt
  Keeps-for_each f (x ∷ xs) k =
      Keeps-bind (f x) (λ _. for_each f xs) (k x) (λ _. Keeps-for_each f xs k)

module _ {S A B : Type 0} {P : S → Type 0} where
  pub Keeps-collect :
      (f : A → Exec S B) (xs : List A) → ((x : A) → Keeps P (f x)) → Keeps P (collect f xs)
  unfolding collect
  Keeps-collect f [] k = Keeps-pure []
  Keeps-collect f (x ∷ xs) k =
      Keeps-bind (f x) _ (k x)
        λ y. Keeps-bind (collect f xs) _ (Keeps-collect f xs k) λ ys. Keeps-pure (y ∷ ys)

pub ruleset keeps_rules = (
  Keeps-pure, Keeps-fail, Keeps-lift, Keeps-gets, Keeps-or_fail, Keeps-if, Keeps-check,
  Keeps-modify, Keeps-bind, Keeps-for_each, Keeps-collect,
)

-- From `P` before, `Q` after, whether the action returns or fails.
pub record Leads {S A : Type 0} (P Q : S → Type 0) (m : Exec S A) : Type 0 where
  pub at : (s : S) → P s → Q (m s).1

module _ {S A B : Type 0} {P Q : S → Type 0} where
  -- First steps that keep `P`, and a rest that leads on; where `P` is the stronger.
  pub Leads-bind_after :
      (m : Exec S A) (f : A → Exec S B)
      → ((s : S) → P s → Q s)
      → Keeps P m
      → ((a : A) → Leads P Q (f a))
      → Leads P Q (m >>= f)
  unfolding ◌>>=◌
  Leads-bind_after m f weaker km lf = record { at = λ s h. go (m s).0 (m s).1 (km.at s h) }
    where
      go : (r : Result A) (s : S) → P s → Q (continue r f s).1
      go (ok a) s h = (lf a).at s h
      go (err e) s h = weaker s h

  -- A first step that leads on, and a rest that keeps what it reached.
  pub Leads-bind_before :
      (m : Exec S A) (f : A → Exec S B)
      → Leads P Q m
      → ((a : A) → Keeps Q (f a))
      → Leads P Q (m >>= f)
  unfolding ◌>>=◌
  Leads-bind_before m f lm kf = record { at = λ s h. go (m s).0 (m s).1 (lm.at s h) }
    where
      go : (r : Result A) (s : S) → Q s → Q (continue r f s).1
      go (ok a) s h = (kf a).at s h
      go (err e) s h = h

module _ {S B : Type 0} {P Q : S → Type 0} where
  -- `if b { return err }`, and the rest knows that the test has failed.
  pub Leads-guard :
      (b : Bool) (e : Error) (f : Unit {0} → Exec S B)
      → ((s : S) → P s → Q s)
      → (b ≡ false → Leads P Q (f tt))
      → Leads P Q (check (if b then some e else none) >>= f)
  unfolding ◌>>=◌
  Leads-guard true e f weaker lf = record { at = weaker }
  Leads-guard false e f weaker lf = lf refl

module _ {S A : Type 0} {P Q R : S → Type 0} where
  pub Leads-pre : (m : Exec S A) → ((s : S) → R s → P s) → Leads P Q m → Leads R Q m
  Leads-pre m stronger lm = record { at = λ s h. lm.at s (stronger s h) }

module _ {S A : Type 0} {P : S → Type 0} where
  -- A loop over a list whose elements each have what their round needs.
  pub Keeps-for_each-All :
      (Q : A → Type 0) (f : A → Exec S (Unit {0})) (xs : List A)
      → ((x : A) → Q x → Keeps P (f x))
      → All Q xs
      → Keeps P (for_each f xs)
  unfolding for_each
  Keeps-for_each-All Q f [] k h = Keeps-pure tt
  Keeps-for_each-All Q f (x ∷ xs) k h =
      Keeps-bind (f x) (λ _. for_each f xs) (k x h.0) (λ _. Keeps-for_each-All Q f xs k h.1)

module _ {S A B : Type 0} {P Q : S → Type 0} where
  -- A first step that keeps `P`, and a rest that leads on from what its result tells.
  pub Leads-bind_ok :
      (m : Exec S A) (f : A → Exec S B)
      → ((s : S) → P s → Q s)
      → Keeps P m
      → ((a : A) (s : S) → P s → P (m s).1 → (m s).0 ≡ ok a → Q (f a (m s).1).1)
      → Leads P Q (m >>= f)
  unfolding ◌>>=◌
  Leads-bind_ok m f weaker km lf = record { at = λ s p. cases s (m s).0 refl p }
    where
      cases : (s : S) (r : Result A) → (m s).0 ≡ r → P s → Q (continue r f (m s).1).1
      cases s (ok a) e p = lf a s p (km.at s p) e
      cases s (err x) e p = weaker _ (km.at s p)
