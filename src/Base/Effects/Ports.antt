-- ===== src/Base/Effects/Ports.antt =====
-- A component whose object reads a clock and an id minter and calls ports that may fail. What such a
-- call returns may differ from call to call: the calls are numbered, and a port is a function of the
-- number. `fault n` is the error of call `n` of a store, if it fails.
use Prim.Native.Nat.{ℕ, suc}
use mathlib.Core.Bool.{Bool}
use mathlib.Core.Option.{Option, none, some}
use beecon.Base.Tests.{if◌then◌else◌}
use beecon.Httpx.Errors.{Error, external}
use beecon.Base.Effects.{Result, ok, err, Exec}

-- What the ports have stored, and the number of calls made so far.
pub record Ticked (D : Type 0) : Type 0 where
  pub store : D
  pub tick : ℕ

abbrev pub fails_if : Bool → Error → Option Error
fails_if b e = if b then some e else none

module _ {D : Type 0} where
  abbrev pub advance : Ticked D → Ticked D
  advance w = record w { tick = suc w.tick }

  unfoldable pub read : {A : Type 0} → (ℕ → A) → Exec (Ticked D) A
  read f w = (ok (f w.tick), advance w)

  unfoldable pub ask : {A : Type 0} → (ℕ → Result A) → Exec (Ticked D) A
  ask f w = (f w.tick, advance w)

  abbrev pub answer : {A : Type 0} → Option ℕ → A × D → Ticked D → Result A × Ticked D
  answer none (a, d) w = (ok a, record w { store = d })
  answer (some e) r w = (err (external e), w)

  -- A call of a store: one that fails has changed nothing.
  unfoldable pub call : {A : Type 0} → (ℕ → Option ℕ) → (D → A × D) → Exec (Ticked D) A
  call fault m w = answer (fault w.tick) (m w.store) (advance w)

  unfoldable pub query : {A : Type 0} → (ℕ → Option ℕ) → (D → A) → Exec (Ticked D) A
  query fault g = call fault (λ d. (g d, d))

  unfoldable pub update : (ℕ → Option ℕ) → (D → D) → Exec (Ticked D) (Unit {0})
  update fault g = call fault (λ d. (tt, g d))
