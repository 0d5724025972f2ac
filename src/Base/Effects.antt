-- ===== src/Base/Effects.antt =====
-- A method that changes the state of its object and may fail: what was written before the failure
-- stays written, so the state comes back beside the error too.
pub mod Ports
pub mod Gives
pub mod Returns
pub mod Ends
pub mod Keeps
pub mod Succeeds
use Prim.Native.Nat.{ℕ}
use mathlib.Core.Path.{◌≡◌, refl}
use mathlib.Core.Logic.{◌⊎◌, inl, inr}
use mathlib.Core.Bool.{Bool, true, false}
use mathlib.Core.Option.{Option, none, some}
use mathlib.Core.List.{List, [], ◌∷◌}
use beecon.Httpx.Errors.{Error}

pub data Result (A : Type 0) : Type 0 where
  ok : A → Result A
  err : Error → Result A

abbrev pub is_ok : {A : Type 0} → Result A → Bool
is_ok (ok _) = true
is_ok (err _) = false

pub Result-cases :
    {A : Type 0} (r : Result A) → ((a : A) × (r ≡ ok a)) ⊎ ((e : Error) × (r ≡ err e))
Result-cases (ok a) = inl (a, refl)
Result-cases (err e) = inr (e, refl)

abbrev pub Exec : Type 0 → Type 0 → Type 0
Exec S A = S → Result A × S

unfoldable pub pure : {S A : Type 0} → A → Exec S A
pure a s = (ok a, s)

unfoldable pub fail : {S A : Type 0} → Error → Exec S A
fail e s = (err e, s)

-- The result of a pure function, with the state as it is.
unfoldable pub lift : {S A : Type 0} → Result A → Exec S A
lift r s = (r, s)

unfoldable pub gets : {S A : Type 0} → (S → A) → Exec S A
gets f s = (ok (f s), s)

unfoldable pub modify : {S : Type 0} → (S → S) → Exec S (Unit {0})
modify f s = (ok tt, f s)

-- `if err := check; err != nil { return err }`
unfoldable pub check : {S : Type 0} → Option Error → Exec S (Unit {0})
check none s = (ok tt, s)
check (some e) s = (err e, s)

-- `if x == nil { return err }`, and `*x` from there on.
unfoldable pub or_fail : {S A : Type 0} → Error → Option A → Exec S A
or_fail e none s = (err e, s)
or_fail e (some a) s = (ok a, s)

abbrev pub continue : {S A B : Type 0} → Result A → (A → Exec S B) → Exec S B
continue (ok a) f s = f a s
continue (err e) f s = (err e, s)

infixl 10 ◌>>=◌ ◌>>◌
-- Opening this opens the actions above too.
unfoldable pub ◌>>=◌ : {S A B : Type 0} → Exec S A → (A → Exec S B) → Exec S B
unfolding pure fail lift gets modify check or_fail
◌>>=◌ m f s = let (r, s') = m s in continue r f s'

abbrev pub ◌>>◌ : {S A B : Type 0} → Exec S A → Exec S B → Exec S B
m >> n = m >>= λ _. n

-- `for _, x := range xs { if err := f(x); err != nil { return err } }`
unfoldable pub for_each : {S A : Type 0} → (A → Exec S (Unit {0})) → List A → Exec S (Unit {0})
for_each f [] = pure tt
for_each f (x ∷ xs) = f x >> for_each f xs

-- The same loop where each round appends its result to a list that is returned.
unfoldable pub collect : {S A B : Type 0} → (A → Exec S B) → List A → Exec S (List B)
collect f [] = pure []
collect f (x ∷ xs) = do y ← f x; ys ← collect f xs; pure (y ∷ ys)

-- `_ = f()`, or a call whose error is looked at: the action is run, and its result is a value.
unfoldable pub attempt : {S A : Type 0} → Exec S A → Exec S (Result A)
attempt m s = let (r, s') = m s in (ok r, s')
