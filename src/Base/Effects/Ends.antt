-- ===== src/Base/Effects/Ends.antt =====
-- From `P` of the store before: `Q` of the value and the store after an action that returns, and `R` of
-- the store after one that fails.
use mathlib.Core.Path.{◌≡◌, refl, sym, subst}
use mathlib.Core.Logic.{inl, inr}
use mathlib.Core.Bool.{Bool, true, false}
use mathlib.Core.Option.{Option, none, some}
use Prim.Native.Nat.{ℕ, suc}
use beecon.Base.Tests.{if◌then◌else◌, Option-cases}
use mathlib.Core.List.{List, [], ◌∷◌}
use beecon.Base.Lists.{All}
use beecon.Httpx.Errors.{Error}
use beecon.Base.Effects.{
  Result, ok, err, Exec, pure, fail, lift, check, or_fail, attempt, continue, ◌>>=◌, for_each,
}
use beecon.Base.Effects.Ports.{Ticked, read, ask, call, query, update}

abbrev pub Post : {A D : Type 0} → (A → D → Type 0) → (D → Type 0) → Result A → D → Type 0
Post Q R (ok a) d = Q a d
Post Q R (err e) d = R d

pub record Ends {D A : Type 0} (P : D → Type 0) (Q : A → D → Type 0) (R : D → Type 0)
    (m : Exec (Ticked D) A) : Type 0 where
  pub at : (w : Ticked D) → P w.store → Post Q R (m w).0 (m w).1.store

module _ {D A : Type 0} {P : D → Type 0} {Q : A → D → Type 0} {R : D → Type 0} where
  pub Ends-pure : (a : A) → ((d : D) → P d → Q a d) → Ends P Q R (pure a)
  unfolding pure
  Ends-pure a q = record { at = λ w p. q w.store p }

  pub Ends-fail : (e : Error) → ((d : D) → P d → R d) → Ends P Q R (fail e)
  unfolding fail
  Ends-fail e r = record { at = λ w p. r w.store p }

  pub Ends-or_fail :
      (e : Error) (o : Option A)
      → ((a : A) (d : D) → o ≡ some a → P d → Q a d)
      → ((d : D) → P d → R d)
      → Ends P Q R (or_fail e o)
  unfolding or_fail
  Ends-or_fail e none q r = record { at = λ w p. r w.store p }
  Ends-or_fail e (some a) q r = record { at = λ w p. q a w.store refl p }

  pub Ends-if :
      (b : Bool) (m n : Exec (Ticked D) A)
      → (b ≡ true → Ends P Q R m)
      → (b ≡ false → Ends P Q R n)
      → Ends P Q R (if b then m else n)
  Ends-if true m n em en = em refl
  Ends-if false m n em en = en refl

  pub Ends-call :
      (fault : ℕ → Option ℕ) (m : D → A × D)
      → ((d : D) → P d → Q (m d).0 (m d).1)
      → ((d : D) → P d → R d)
      → Ends P Q R (call fault m)
  unfolding call
  Ends-call fault m q r = record {
    at = λ w p. elim (Option-cases (fault w.tick)) [
      | inl e ↦ rw (e, call) (q w.store p)
      | inr (x, e) ↦ rw (e, call) (r w.store p)
    ];
  }

  pub Ends-query :
      (fault : ℕ → Option ℕ) (g : D → A)
      → ((d : D) → P d → Q (g d) d)
      → ((d : D) → P d → R d)
      → Ends P Q R (query fault g)
  unfolding query
  Ends-query fault g q r = Ends-call fault _ q r

  -- A weaker claim, or one from more.
  pub Ends-weaken :
      {P' : D → Type 0} (m : Exec (Ticked D) A)
      → ((d : D) → P' d → P d)
      → Ends P Q R m
      → Ends P' Q R m
  Ends-weaken m p em = record { at = λ w h. em.at w (p w.store h) }

  -- A fact that is not about the store.
  pub Ends-fact :
      {F : Type 0} (m : Exec (Ticked D) A) → (F → Ends P Q R m) → Ends (λ d. F × P d) Q R m
  Ends-fact m em = record { at = λ w h. (em h.0).at w h.1 }

module _ {D : Type 0} {P : D → Type 0} {Q : Unit {0} → D → Type 0} {R : D → Type 0} where
  pub Ends-update :
      (fault : ℕ → Option ℕ) (g : D → D)
      → ((d : D) → P d → Q tt (g d))
      → ((d : D) → P d → R d)
      → Ends P Q R (update fault g)
  unfolding update
  Ends-update fault g q r = Ends-call fault _ q r

module _ {D A B : Type 0} {P : D → Type 0} {R : D → Type 0} where
  pub Ends-bind :
      {M : A → D → Type 0} {Q : B → D → Type 0} (m : Exec (Ticked D) A) (f : A → Exec (Ticked D) B)
      → Ends P M R m
      → ((a : A) → Ends (M a) Q R (f a))
      → Ends P Q R (m >>= f)
  unfolding ◌>>=◌
  Ends-bind {M} {Q} m f em ef = record { at = λ w p. go (m w).0 (m w).1 (em.at w p) }
    where
      go :
          (r : Result A) (w : Ticked D)
          → Post M R r w.store
          → Post Q R (continue r f w).0 (continue r f w).1.store
      go (ok a) w p = (ef a).at w p
      go (err e) w p = p

-- Steps that leave the store alone, and whose value is open.
module _ {D A B : Type 0} {P : D → Type 0} {Q : B → D → Type 0} {R : D → Type 0} where
  pub Ends-read :
      (g : ℕ → A) (f : A → Exec (Ticked D) B)
      → ((n : ℕ) → Ends P Q R (f (g n)))
      → Ends P Q R (read g >>= f)
  unfolding read ◌>>=◌
  Ends-read g f ef = record { at = λ w p. (ef w.tick).at (record w { tick = suc w.tick }) p }

  pub Ends-lift :
      (r : Result A) (f : A → Exec (Ticked D) B)
      → ((d : D) → P d → R d)
      → ((a : A) → r ≡ ok a → Ends P Q R (f a))
      → Ends P Q R (lift r >>= f)
  unfolding lift ◌>>=◌
  Ends-lift (ok a) f fails ef = record { at = λ w p. (ef a refl).at w p }
  Ends-lift (err e) f fails ef = record { at = λ w p. fails w.store p }

  pub Ends-ask_ok :
      (g : ℕ → Result A) (f : A → Exec (Ticked D) B)
      → ((d : D) → P d → R d)
      → ((n : ℕ) (a : A) → g n ≡ ok a → Ends P Q R (f a))
      → Ends P Q R (ask g >>= f)
  unfolding ask ◌>>=◌
  Ends-ask_ok g f fails ef = record {
    at = λ w p. go w.tick (g w.tick) refl (record w { tick = suc w.tick }) p;
  }
    where
      go :
          (n : ℕ) (r : Result A)
          → g n ≡ r
          → (w : Ticked D) → P w.store
          → Post Q R (continue r f w).0 (continue r f w).1.store
      go n (ok a) e w p = (ef n a e).at w p
      go n (err x) e w p = fails w.store p

  pub Ends-ask :
      (g : ℕ → Result A) (f : A → Exec (Ticked D) B)
      → ((d : D) → P d → R d)
      → ((a : A) → Ends P Q R (f a))
      → Ends P Q R (ask g >>= f)
  Ends-ask g f fails ef = Ends-ask_ok g f fails (λ n a e. ef a)

module _ {D B : Type 0} {P : D → Type 0} {Q : B → D → Type 0} {R : D → Type 0} where
  pub Ends-check :
      (b : Bool) (e : Error) (f : Unit {0} → Exec (Ticked D) B)
      → ((d : D) → P d → R d)
      → (b ≡ false → Ends P Q R (f tt))
      → Ends P Q R (check (if b then some e else none) >>= f)
  unfolding check ◌>>=◌
  Ends-check true e f fails ef = record { at = λ w p. fails w.store p }
  Ends-check false e f fails ef = record { at = λ w p. (ef refl).at w p }

  -- A check whose outcome does not matter.
  pub Ends-passed :
      (o : Option Error) (f : Unit {0} → Exec (Ticked D) B)
      → ((d : D) → P d → R d)
      → Ends P Q R (f tt)
      → Ends P Q R (check o >>= f)
  unfolding check ◌>>=◌
  Ends-passed none f fails ef = record { at = λ w p. ef.at w p }
  Ends-passed (some e) f fails ef = record { at = λ w p. fails w.store p }

module _ {D A : Type 0} {P : D → Type 0} {R : D → Type 0} where
  -- An action that leaves a property alone, whether it returns or fails, and cannot fail once its error
  -- is taken for a value.
  pub Ends-attempt : (m : Exec (Ticked D) A) → Ends P (λ _. P) P m → Ends P (λ _. P) R (attempt m)
  unfolding attempt
  Ends-attempt m em = record { at = λ w p. go (m w).0 (m w).1 (em.at w p) }
    where
      go : (r : Result A) (w : Ticked D) → Post (λ _. P) P r w.store → P w.store
      go (ok a) w p = p
      go (err e) w p = p

module _ {D A : Type 0} {P : D → Type 0} {R : D → Type 0} where
  pub Ends-ask_last : (g : ℕ → Result A) → ((d : D) → P d → R d) → Ends P (λ _. P) R (ask g)
  unfolding ask
  Ends-ask_last g fails = record { at = λ w p. go (g w.tick) w.store p }
    where
      go : (r : Result A) (d : D) → P d → Post (λ _. P) R r d
      go (ok a) d p = p
      go (err e) d p = fails d p

module _ {D A B : Type 0} {P : D → Type 0} {Q : B → D → Type 0} {R : D → Type 0} where
  pub Ends-some :
      (e : Error) (o : Option A) (f : A → Exec (Ticked D) B)
      → ((d : D) → P d → R d)
      → ((a : A) → o ≡ some a → Ends P Q R (f a))
      → Ends P Q R (or_fail e o >>= f)
  unfolding or_fail ◌>>=◌
  Ends-some e none f fails ef = record { at = λ w p. fails w.store p }
  Ends-some e (some a) f fails ef = record { at = λ w p. (ef a refl).at w p }

  -- A query of a store that is known.
  pub Ends-find :
      (fault : ℕ → Option ℕ) (g : D → A) (f : A → Exec (Ticked D) B)
      → ((d : D) → P d → R d)
      → (known : A) → ((d : D) → P d → g d ≡ known)
      → Ends P Q R (f known)
      → Ends P Q R (query fault g >>= f)
  Ends-find fault g f fails known same ef =
      Ends-bind {M = λ a d. (a ≡ known) × P d} _ _ (Ends-query fault g (λ d p. (same d p, p)) fails)
        λ a. record {
          at = λ w h. subst (λ x. Post Q R (f x w).0 (f x w).1.store) (sym h.0) (ef.at w h.1);
        }

module _ {D A : Type 0} {P : D → Type 0} {Q : A → Type 0} where
  pub Ends-lift_last :
      (r : Result A) → ((a : A) → r ≡ ok a → Q a) → Ends P (λ a d. Q a) (λ d. Unit) (lift r)
  unfolding lift
  Ends-lift_last (ok a) q = record { at = λ w p. q a refl }
  Ends-lift_last (err e) q = record { at = λ w p. tt }

module _ {D A : Type 0} {P : D → Type 0} {Q : A → Type 0} where
  pub Ends-lift_kept :
      (r : Result A) → ((a : A) → r ≡ ok a → Q a) → Ends P (λ a d. Q a × P d) P (lift r)
  unfolding lift
  Ends-lift_kept (ok a) q = record { at = λ w p. (q a refl, p) }
  Ends-lift_kept (err e) q = record { at = λ w p. p }

module _ {D A : Type 0} {P : D → Type 0} {R : D → Type 0} where
  -- A weaker claim of what is returned.
  pub Ends-then :
      {Q Q' : A → D → Type 0} (m : Exec (Ticked D) A)
      → ((a : A) (d : D) → Q a d → Q' a d)
      → Ends P Q R m
      → Ends P Q' R m
  Ends-then {Q} {Q'} m q em = record { at = λ w p. go (m w).0 (m w).1.store (em.at w p) }
    where
      go : (r : Result A) (d : D) → Post Q R r d → Post Q' R r d
      go (ok a) d h = q a d h
      go (err e) d h = h

module _ {D A : Type 0} {R : D → Type 0} where
  -- A loop that takes one element after the other off what is left to do.
  pub Ends-for_each :
      (P : List A → D → Type 0) (Q : A → Type 0) (f : A → Exec (Ticked D) (Unit {0})) (xs : List A)
      → ((x : A) (rest : List A) → Q x → Ends (P (x ∷ rest)) (λ _. P rest) R (f x))
      → All Q xs
      → Ends (P xs) (λ _. P []) R (for_each f xs)
  unfolding for_each
  Ends-for_each P Q f [] step h = Ends-pure tt (λ d p. p)
  Ends-for_each P Q f (x ∷ xs) step h =
      Ends-bind (f x) (λ _. for_each f xs) (step x xs h.0) (λ _. Ends-for_each P Q f xs step h.1)
