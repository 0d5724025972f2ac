-- ===== src/Access/Console/Frames.antt =====
-- What the port calls of server/internal/access/operator_facade.go leave alone.
use beecon.Base.{ℕ, suc, ◌≡◌, List, arith, inl, inr, Option-cases}
use beecon.Base.Effects.{Result, ok}
use beecon.Base.Effects.Keeps.{Keeps, Leads}
use beecon.Access.Operators.{Operator, OperatorSession}
use beecon.Access.Console.{
  OperatorFacade, Accounts, read, ask, call, query, on_operators, on_sessions,
}

pub record OnOperators (E : List Operator → Type 0) (w : Accounts) : Type 0 where
  pub holds : E w.operators

pub record OnSessions (E : List OperatorSession → Type 0) (w : Accounts) : Type 0 where
  pub holds : E w.sessions

pub call_lead :
    {A : Type 0} (P Q : Accounts → Type 0) (f : OperatorFacade) (m : Accounts → A × Accounts)
    → ((w : Accounts) → P w → Q (record w { tick = suc w.tick }))
    → ((w : Accounts) → P w → Q (m (record w { tick = suc w.tick })).1)
    → Leads P Q (call f m)
unfolding call
call_lead P Q f m t k = record {
  at = λ w h. elim (Option-cases (f.fault w.tick)) [
    | inl e ↦ rw (e, call) (k w h)
    | inr (x, e) ↦ rw (e, call) (t w h)
  ];
}

call_keep :
    {A : Type 0} (P : Accounts → Type 0) (f : OperatorFacade) (m : Accounts → A × Accounts)
    → ((w : Accounts) → P w → P (record w { tick = suc w.tick }))
    → ((w : Accounts) → P w → P (m w).1)
    → Keeps P (call f m)
call_keep P f m t k =
    let lead = call_lead P P f m t (λ w h. k _ (t w h)) in record { at = λ w h. lead.at w h }

module _ {E : List Operator → Type 0} where
  pub read-Operators : {A : Type 0} (g : ℕ → A) → Keeps (OnOperators E) (read g)
  unfolding read
  read-Operators g = record { at = λ w h. record { holds = h.holds } }

  pub ask-Operators : {A : Type 0} (g : ℕ → Result A) → Keeps (OnOperators E) (ask g)
  unfolding ask
  ask-Operators g = record { at = λ w h. record { holds = h.holds } }

  pub query-Operators :
      {A : Type 0} (f : OperatorFacade) (g : Accounts → A) → Keeps (OnOperators E) (query f g)
  unfolding query
  query-Operators f g =
      call_keep (OnOperators E) f _ (λ w h. record { holds = h.holds })
        (λ w h. record { holds = h.holds })

  pub on_sessions-Operators :
      (f : OperatorFacade) (g : List OperatorSession → List OperatorSession)
      → Keeps (OnOperators E) (on_sessions f g)
  unfolding on_sessions
  on_sessions-Operators f g =
      call_keep (OnOperators E) f _ (λ w h. record { holds = h.holds })
        (λ w h. record { holds = h.holds })

  pub on_operators-Operators :
      (f : OperatorFacade) (g : List Operator → List Operator)
      → ((os : List Operator) → E os → E (g os))
      → Keeps (OnOperators E) (on_operators f g)
  unfolding on_operators
  on_operators-Operators f g k =
      call_keep (OnOperators E) f _ (λ w h. record { holds = h.holds })
        (λ w h. record { holds = k _ h.holds })

pub on_operators_lead :
    {E F : List Operator → Type 0} (f : OperatorFacade) (g : List Operator → List Operator)
    → ((os : List Operator) → E os → F os)
    → ((os : List Operator) → E os → F (g os))
    → Leads (OnOperators E) (OnOperators F) (on_operators f g)
unfolding on_operators
on_operators_lead f g same k =
    call_lead _ _ f _ (λ w h. record { holds = same _ h.holds })
      (λ w h. record { holds = k _ h.holds })

-- What a query returns, where it returns.
pub query_finds :
    {A : Type 0} (f : OperatorFacade) (g : List Operator → A) (w : Accounts) (a : A)
    → (query f (λ s. g s.operators) w).0 ≡ ok a
    → g w.operators ≡ a
unfolding query call
query_finds f g w a h = ground arith

pub ruleset operator_frames =
    (read-Operators, ask-Operators, query-Operators, on_sessions-Operators)
