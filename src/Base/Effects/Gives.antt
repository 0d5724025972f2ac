-- ===== src/Base/Effects/Gives.antt =====
-- What an action keeps of the state, and what it says of the value that it returns, if it returns.
use mathlib.Core.Path.{◌≡◌, refl}
use mathlib.Core.Logic.{inl, inr}
use mathlib.Core.Bool.{Bool, true, false}
use mathlib.Core.Option.{Option, none, some}
use mathlib.Core.List.{List, [], ◌∷◌}
use Prim.Native.Nat.{ℕ}
use beecon.Base.Tests.{if◌then◌else◌, Option-cases}
use beecon.Base.Lists.{All}
use beecon.Httpx.Errors.{Error}
use beecon.Base.Effects.{
  Result, ok, err, Exec, pure, fail, lift, check, or_fail, attempt, continue, ◌>>=◌, for_each,
}
use beecon.Base.Effects.Ports.{Ticked, read, ask, call, query, update}

-- The value of a result that has one.
abbrev pub Holds : {A : Type 0} → (A → Type 0) → Result A → Type 0
Holds Q (ok a) = Q a
Holds Q (err e) = Unit

pub record Gives {S A : Type 0} (P : S → Type 0) (Q : A → Type 0) (m : Exec S A) : Type 0 where
  pub at : (s : S) → P s → P (m s).1 × Holds Q (m s).0

abbrev pub Anything : {A : Type 0} → A → Type 0
Anything a = Unit

pub Holds-Anything : {A : Type 0} (r : Result A) → Holds Anything r
Holds-Anything (ok a) = tt
Holds-Anything (err e) = tt

module _ {S A : Type 0} {P : S → Type 0} where
  pub Gives-pure : (Q : A → Type 0) (a : A) → Q a → Gives P Q (pure a)
  unfolding pure
  Gives-pure Q a q = record { at = λ s p. (p, q) }

  pub Gives-fail : (Q : A → Type 0) (e : Error) → Gives P Q (fail e)
  unfolding fail
  Gives-fail Q e = record { at = λ s p. (p, tt) }

  pub Gives-or_fail :
      (Q : A → Type 0) (e : Error) (o : Option A)
      → ((a : A) → o ≡ some a → Q a)
      → Gives P Q (or_fail e o)
  unfolding or_fail
  Gives-or_fail Q e none h = record { at = λ s p. (p, tt) }
  Gives-or_fail Q e (some a) h = record { at = λ s p. (p, h a refl) }

  pub Gives-if :
      (Q : A → Type 0) (b : Bool) (m n : Exec S A)
      → (b ≡ true → Gives P Q m)
      → (b ≡ false → Gives P Q n)
      → Gives P Q (if b then m else n)
  Gives-if Q true m n gm gn = gm refl
  Gives-if Q false m n gm gn = gn refl

  pub Gives-forget : (Q : A → Type 0) (m : Exec S A) → Gives P Q m → Gives P Anything m
  Gives-forget Q m g = record { at = λ s p. ((g.at s p).0, Holds-Anything (m s).0) }

module _ {S : Type 0} {P : S → Type 0} where
  pub Gives-check :
      (b : Bool) (e : Error) → Gives P (λ _. b ≡ false) (check (if b then some e else none))
  unfolding check
  Gives-check true e = record { at = λ s p. (p, tt) }
  Gives-check false e = record { at = λ s p. (p, refl) }

module _ {S A B : Type 0} {P : S → Type 0} where
  pub Gives-bind :
      {Q : A → Type 0} {R : B → Type 0} (m : Exec S A) (f : A → Exec S B)
      → Gives P Q m
      → ((a : A) → Q a → Gives P R (f a))
      → Gives P R (m >>= f)
  unfolding ◌>>=◌
  Gives-bind {Q} {R} m f gm gf = record {
    at = λ s p. go (m s).0 (m s).1 (gm.at s p).0 (gm.at s p).1;
  }
    where
      go :
          (r : Result A) (s : S)
          → P s
          → Holds Q r
          → P (continue r f s).1 × Holds R (continue r f s).0
      go (ok a) s p q = (gf a q).at s p
      go (err e) s p q = (p, tt)

  -- The rest of a block after a step whose value does not matter.
  pub Gives-then :
      {R : B → Type 0} (m : Exec S A) (f : A → Exec S B)
      → Gives P Anything m
      → ((a : A) → Gives P R (f a))
      → Gives P R (m >>= f)
  Gives-then m f gm gf = Gives-bind m f gm (λ a _. gf a)

-- The same for the state alone, with the value left open.
abbrev pub Preserves : {S A : Type 0} → (S → Type 0) → Exec S A → Type 0
Preserves P m = Gives P Anything m

module _ {S A : Type 0} {P : S → Type 0} where
  pub Preserves-for_each :
      (Q : A → Type 0) (f : A → Exec S (Unit {0})) (xs : List A)
      → ((x : A) → Q x → Preserves P (f x))
      → All Q xs
      → Preserves P (for_each f xs)
  unfolding for_each
  Preserves-for_each Q f [] k h = Gives-pure Anything tt tt
  Preserves-for_each Q f (x ∷ xs) k h =
      Gives-bind (f x) (λ _. for_each f xs) (k x h.0) (λ _ _. Preserves-for_each Q f xs k h.1)

-- A property of what the ports have stored.
pub record On {D : Type 0} (E : D → Type 0) (w : Ticked D) : Type 0 where
  pub holds : E w.store

module _ {D A : Type 0} {E : D → Type 0} where
  pub Preserves-read : (g : ℕ → A) → Preserves (On E) (read g)
  unfolding read
  Preserves-read g = record { at = λ w h. (record { holds = h.holds }, tt) }

  pub Gives-ask :
      (Q : A → Type 0) (g : ℕ → Result A) → ((n : ℕ) → Holds Q (g n)) → Gives (On E) Q (ask g)
  unfolding ask
  Gives-ask Q g q = record { at = λ w h. (record { holds = h.holds }, q w.tick) }

  pub Preserves-ask : (g : ℕ → Result A) → Preserves (On E) (ask g)
  unfolding ask
  Preserves-ask g = record { at = λ w h. (record { holds = h.holds }, Holds-Anything (g w.tick)) }

  pub Gives-call :
      (Q : A → Type 0) (fault : ℕ → Option ℕ) (m : D → A × D)
      → ((d : D) → E d → E (m d).1 × Q (m d).0)
      → Gives (On E) Q (call fault m)
  unfolding call
  Gives-call Q fault m k = record {
    at = λ w h. elim (Option-cases (fault w.tick)) [
      | inl e ↦ rw (e, call) (let r = k w.store h.holds in (record { holds = r.0 }, r.1))
      | inr (x, e) ↦ rw (e, call) (record { holds = h.holds }, tt)
    ];
  }

  pub Gives-query :
      (Q : A → Type 0) (fault : ℕ → Option ℕ) (g : D → A)
      → ((d : D) → E d → Q (g d))
      → Gives (On E) Q (query fault g)
  unfolding query
  Gives-query Q fault g k = Gives-call Q fault _ (λ d h. (h, k d h))

module _ {D : Type 0} {E : D → Type 0} where
  pub Preserves-update :
      (fault : ℕ → Option ℕ) (g : D → D)
      → ((d : D) → E d → E (g d))
      → Preserves (On E) (update fault g)
  unfolding update
  Preserves-update fault g k = Gives-call Anything fault _ (λ d h. (k d h, tt))

module _ {S A : Type 0} {P : S → Type 0} where
  pub Gives-lift : (Q : A → Type 0) (r : Result A) → Holds Q r → Gives P Q (lift r)
  unfolding lift
  Gives-lift Q r q = record { at = λ s p. (p, q) }

  pub Preserves-attempt :
      (Q : A → Type 0) (m : Exec S A) → Gives P Q m → Gives P (Holds Q) (attempt m)
  unfolding attempt
  Preserves-attempt Q m g = record { at = λ s p. g.at s p }
