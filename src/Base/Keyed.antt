-- ===== src/Base/Keyed.antt =====
-- A Go map whose values carry their own key, such as map[EndpointID]Endpoint.
use Prim.Native.Nat.{ℕ, ◌+◌, ◌≤◌}
use mathlib.Core.Path.{◌≡◌, refl}
use mathlib.Core.Logic.{◌≢◌, inl, inr}
use mathlib.Core.Bool.{Bool, true, not}
use mathlib.Core.Option.{Option, none, some}
use mathlib.Core.List.{List, [], ◌∷◌}
use native.Mathlib.Omega.{arith}
use beecon.Base.Tests.{◌==◌, if◌then◌else◌, Bool-cases}
use beecon.Base.Lists.{All, All-imp, All-imp₂, All-filter, filter, count}

module _ {V : Type 0} (key : V → ℕ) where
  -- v, ok := m[k]
  unfoldable pub find : ℕ → List V → Option V
  find k [] = none
  find k (x ∷ xs) = if key x == k then some x else find k xs

  -- m[key v] = v
  unfoldable pub put : V → List V → List V
  put v [] = v ∷ []
  put v (x ∷ xs) = if key x == key v then v ∷ xs else x ∷ put v xs

  -- delete(m, k)
  unfoldable pub remove : ℕ → List V → List V
  remove k = filter (λ x. not (key x == k))

  -- No key occurs twice.
  abbrev pub Distinct : List V → Type 0
  Distinct [] = Unit
  Distinct (x ∷ xs) = All (λ y. key y ≢ key x) xs × Distinct xs

  pub find-key : (k : ℕ) (xs : List V) (v : V) → find k xs ≡ some v → key v ≡ k
  unfolding find
  find-key k [] v h = ground arith
  find-key k (x ∷ xs) v h = ground (arith, find-key k xs v)

  pub find-put :
      (k : ℕ) (v : V) (xs : List V) → find k (put v xs) ≡ (if key v == k then some v else find k xs)
  unfolding find put
  find-put k v [] = refl
  find-put k v (x ∷ xs) = ground (arith, find-put k v xs)

  pub find-remove :
      (j k : ℕ) (xs : List V) → find j (remove k xs) ≡ (if k == j then none else find j xs)
  unfolding find remove filter
  find-remove j k [] = ground arith
  find-remove j k (x ∷ xs) = ground (arith, find-remove j k xs)

  pub find-All :
      (P : V → Type 0) (k : ℕ) (xs : List V) (v : V) → All P xs → find k xs ≡ some v → P v
  unfolding find
  find-All P k [] v h e = ground arith
  find-All P k (x ∷ xs) v h e = elim (Bool-cases (key x == k)) [
    | inl hit ↦ ground (arith, h.0)
    | inr miss ↦ find-All P k xs v h.1 (ground arith)
  ]

  pub put-All : (P : V → Type 0) (v : V) (xs : List V) → P v → All P xs → All P (put v xs)
  unfolding put
  put-All P v [] p h = (p, h)
  put-All P v (x ∷ xs) p h = elim (Bool-cases (key x == key v)) [
    | inl hit ↦ rw hit (p, h.1)
    | inr miss ↦ rw miss (h.0, put-All P v xs p h.1)
  ]

  pub put-Distinct : (v : V) (xs : List V) → Distinct xs → Distinct (put v xs)
  unfolding put
  put-Distinct v [] h = (tt, tt)
  put-Distinct v (x ∷ xs) h = elim (Bool-cases (key x == key v)) [
    | inl hit ↦ rw hit (let e : key x ≡ key v = ground arith in rw (← e) h)
    | inr miss ↦
        rw miss (put-All (λ y. key y ≢ key x) v xs (λ e. ground arith) h.0, put-Distinct v xs h.1)
  ]

  pub filter-Distinct : (p : V → Bool) (xs : List V) → Distinct xs → Distinct (filter p xs)
  unfolding filter
  filter-Distinct p [] h = tt
  filter-Distinct p (x ∷ xs) h = elim (Bool-cases (p x)) [
    | inl e ↦ rw e (All-filter (λ y. key y ≢ key x) p xs h.0, filter-Distinct p xs h.1)
    | inr e ↦ rw e (filter-Distinct p xs h.1)
  ]

  -- Writing a value adds at most itself to a count.
  pub count-put-le :
      (p : V → Bool) (v : V) (xs : List V)
      → count p (put v xs) ≤ count p xs + (if p v then 1 else 0)
  unfolding put count
  count-put-le p v [] = ground arith
  count-put-le p v (x ∷ xs) = ground (arith, count-put-le p v xs)

  -- Overwriting a value keeps a count that does not tell the old value from the new.
  pub count-put_same :
      (p : V → Bool) (v w : V) (xs : List V)
      → find (key v) xs ≡ some w
      → p v ≡ p w
      → count p (put v xs) ≡ count p xs
  unfolding find put count
  count-put_same p v w [] h e = ground arith
  count-put_same p v w (x ∷ xs) h e = ground (arith, count-put_same p v w xs)

  pub count-remove-le : (p : V → Bool) (k : ℕ) (xs : List V) → count p (remove k xs) ≤ count p xs
  unfolding remove filter count
  count-remove-le p k [] = omega arith
  count-remove-le p k (x ∷ xs) = ground (arith, count-remove-le p k xs)

  -- In a map, each entry is the one that its key finds.
  pub find_self : (xs : List V) → Distinct xs → All (λ x. find (key x) xs ≡ some x) xs
  unfolding find
  find_self [] h = tt
  find_self (x ∷ xs) h = (
    ground arith,
    All-imp₂ (λ y. key y ≢ key x) (λ y. find (key y) xs ≡ some y) _ (λ y p q. ground arith) xs h.0
        (find_self xs h.1),
  )

  -- After a write, the only entry under its key is the one that was written.
  pub put_unique : (v : V) (xs : List V) → Distinct xs → All (λ x. key x ≡ key v → x ≡ v) (put v xs)
  put_unique v xs h =
      All-imp (λ x. find (key x) (put v xs) ≡ some x) (λ x. key x ≡ key v → x ≡ v)
        (λ x e p. ground (arith, find-put (key x) v xs)) (put v xs)
        (find_self (put v xs) (put-Distinct v xs h))

  abbrev pub keep_if : (V → Bool) → Option V → Option V
  keep_if p none = none
  keep_if p (some v) = if p v then some v else none

  find_absent : (k : ℕ) (xs : List V) → All (λ y. key y ≢ k) xs → find k xs ≡ none
  unfolding find
  find_absent k [] h = refl
  find_absent k (x ∷ xs) h = ground (arith, h.0, find_absent k xs h.1)

  -- Of a map cut down to what passes a test, a key finds what it found, if that passes.
  pub find-filter :
      (p : V → Bool) (k : ℕ) (xs : List V)
      → Distinct xs
      → find k (filter p xs) ≡ keep_if p (find k xs)
  unfolding find filter
  find-filter p k [] h = refl
  find-filter p k (x ∷ xs) h = elim (Bool-cases (key x == k)) [
    | inl hit ↦
        let e : key x ≡ k = ground arith in
        let gone : find k xs ≡ none = rw (← e) (find_absent (key x) xs h.0) in
        ground (arith, find-filter p k xs h.1)
    | inr miss ↦ ground (arith, find-filter p k xs h.1)
  ]

module _ {V : Type 0} (key : V → ℕ) where
  -- Writing a value that passes a test over one that is there, or over none.
  pub count-put-ge :
      (p : V → Bool) (v : V) (xs : List V) → p v ≡ true → count p xs ≤ count p (put key v xs)
  unfolding put count
  count-put-ge p v [] h = omega arith
  count-put-ge p v (x ∷ xs) h = ground (arith, count-put-ge p v xs)

  -- Overwriting a value takes at most one from a count, and none where the old value did not count.
  pub count-put_over :
      (p : V → Bool) (v w : V) (xs : List V)
      → find key (key v) xs ≡ some w
      → count p xs ≤ count p (put key v xs) + (if p w then 1 else 0)
  unfolding find put count
  count-put_over p v w [] h = ground arith
  count-put_over p v w (x ∷ xs) h = ground (arith, count-put_over p v w xs)
