-- ===== src/Access/Rotation.antt =====
-- The loop that retires the live secrets of server/internal/access, which secret.go and
-- webhook_secret.go share: for any kind of secret, what it leaves.
use beecon.Base.{
  ℕ, ◌≡◌, ◌≢◌, refl, Bool, true, false, ◌&&◌, ◌||◌, none, List, [], ◌∷◌, All, All-imp, arith, ◌==◌,
  Bool-cases, inl, inr,
}
use beecon.Base.Lists.{filter}
use beecon.Base.Keyed.{Distinct, find, put, put-All, put_unique}
use beecon.Base.Sort.{sort, insert_sorted}

module _ {V : Type 0} (id : V → ℕ) (bad : V → Bool) where
  -- A bad secret with this id is still to come.
  unfoldable pub waits : ℕ → List V → Bool
  waits j [] = false
  waits j (r ∷ rs) = ((id r == j) && bad r) || waits j rs

  -- Whatever is bad under an id is still to come.
  abbrev pub Pending : ℕ → List V → List V → Type 0
  Pending j rs = All (λ s. id s ≡ j → bad s ≡ true → waits j rs ≡ true)

  waits-insert_sorted :
      (less : V → V → Bool) (j : ℕ) (a : V) (xs : List V)
      → waits j (insert_sorted less a xs) ≡ waits j (a ∷ xs)
  unfolding waits insert_sorted
  waits-insert_sorted less j a [] = refl
  waits-insert_sorted less j a (x ∷ xs) = ground (arith, waits-insert_sorted less j a xs)

  waits-sort : (less : V → V → Bool) (j : ℕ) (xs : List V) → waits j (sort less xs) ≡ waits j xs
  unfolding sort waits
  waits-sort less j [] = refl
  waits-sort less j (x ∷ xs) =
      ground (arith, waits-insert_sorted less j x (sort less xs), waits-sort less j xs)

  waits-filter :
      (p : V → Bool) (j : ℕ) (xs : List V)
      → All (λ s. id s ≡ j → bad s ≡ true → p s ≡ true → waits j (filter p xs) ≡ true) xs
  unfolding waits filter
  waits-filter p j [] = tt
  waits-filter p j (x ∷ xs) = (
    (λ e b q. ground arith),
    All-imp _ _ (λ s h e b q. ground (arith, h e b q)) xs (waits-filter p j xs),
  )

  -- At the start of the loop, over the selected secrets in order.
  pub Pending-start :
      (less : V → V → Bool) (p : V → Bool) (j : ℕ) (xs : List V)
      → ((s : V) → bad s ≡ true → p s ≡ true)
      → Pending j (sort less (filter p xs)) xs
  Pending-start less p j xs selected =
      All-imp _ _ (λ s h e b. ground (arith, waits-sort less j (filter p xs), h e b (selected s b)))
        xs (waits-filter p j xs)

  find-none : (j : ℕ) (xs : List V) → find id j xs ≡ none → All (λ s. id s ≢ j) xs
  unfolding find
  find-none j [] h = tt
  find-none j (x ∷ xs) h = elim (Bool-cases (id x == j)) [
    | inl e ↦ absurd (ground (arith, e))
    | inr e ↦ ((λ same. ground (arith, e)), find-none j xs (ground (arith, e)))
  ]

  -- A secret that is passed over, since it is not bad.
  pub Pending-skip :
      (j : ℕ) (r : V) (rs xs : List V) → bad r ≡ false → Pending j (r ∷ rs) xs → Pending j rs xs
  unfolding waits
  Pending-skip j r rs xs fine h = All-imp _ _ (λ s k e b. ground (arith, k e b)) xs h

  -- A secret of another id, written back changed.
  pub Pending-other :
      (j : ℕ) (r s : V) (rs xs : List V)
      → id r ≢ j
      → id s ≢ j
      → Pending j (r ∷ rs) xs
      → Pending j rs (put id s xs)
  unfolding waits
  Pending-other j r s rs xs other here h =
      put-All id _ s xs (λ e. absurd (here e)) (All-imp _ _ (λ x k e b. ground (arith, k e b)) xs h)

  -- The secret of the id itself, written back so that it is not bad.
  pub Pending-put :
      (j : ℕ) (s : V) (rs xs : List V)
      → id s ≡ j
      → bad s ≡ false
      → Distinct id xs
      → Pending j rs (put id s xs)
  Pending-put j s rs xs here fine distinct =
      All-imp _ _ (λ x only e b. absurd (ground (arith, only (ground arith)))) (put id s xs)
        (put_unique id s xs distinct)

  pub Pending-absent : (j : ℕ) (rs xs : List V) → find id j xs ≡ none → Pending j rs xs
  Pending-absent j rs xs gone =
      All-imp _ _ (λ s other e b. absurd (other e)) xs (find-none j xs gone)

  -- At its end.
  pub Pending-end : (j : ℕ) (xs : List V) → Pending j [] xs → All (λ s. id s ≡ j → bad s ≡ false) xs
  unfolding waits
  Pending-end j xs h = All-imp _ _ (λ s k e. ended (bad s) (k e)) xs h
    where
      ended : (b : Bool) → (b ≡ true → false ≡ true) → b ≡ false
      ended true k = absurd (ground (arith, k refl))
      ended false k = refl

  -- Nothing was written, and the id is another.
  pub Pending-pass :
      (j : ℕ) (r : V) (rs xs : List V) → id r ≢ j → Pending j (r ∷ rs) xs → Pending j rs xs
  unfolding waits
  Pending-pass j r rs xs other h = All-imp _ _ (λ s k e b. ground (arith, k e b)) xs h

  -- What is said of each id, said of each secret with its own.
  pub All-own :
      (C : ℕ → Type 0) (P : ℕ → V → Type 0) (xs : List V)
      → ((j : ℕ) → C j → All (P j) xs)
      → All (λ s. C (id s) → P (id s) s) xs
  All-own C P [] h = tt
  All-own C P (x ∷ xs) h = ((λ c. (h (id x) c).0), All-own C P xs (λ j c. (h j c).1))
