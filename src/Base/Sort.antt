-- ===== src/Base/Sort.antt =====
-- sort.Slice: the elements put in order by a Boolean test `less`.
use Prim.Native.Nat.{ℕ, zero, suc}
use mathlib.Core.Path.{◌≡◌, refl}
use mathlib.Core.Bool.{Bool, true, false}
use mathlib.Core.List.{List, [], ◌∷◌, Perm}
use mathlib.Core.List.Perm
use beecon.Base.Tests.{if◌then◌else◌, Bool-cases}
use native.Mathlib.Omega.{arith}
use mathlib.Core.Logic.{inl, inr}
use beecon.Base.Lists.{length, take, All, All-imp, All-take, All-filter, filter}

module _ {ℓ} {A : Type ℓ} (less : A → A → Bool) where
  unfoldable pub insert_sorted : A → List A → List A
  insert_sorted a [] = a ∷ []
  insert_sorted a (x ∷ xs) =
      let rest = insert_sorted a xs in if less x a then x ∷ rest else a ∷ x ∷ xs

  unfoldable pub sort : List A → List A
  unfolding insert_sorted
  sort [] = []
  sort (x ∷ xs) = insert_sorted x (sort xs)

  insert_sorted-perm : (a : A) (xs : List A) → Perm (insert_sorted a xs) (a ∷ xs)
  unfolding insert_sorted
  insert_sorted-perm a [] = Perm.refl (a ∷ [])
  insert_sorted-perm a (x ∷ xs) = elim (Bool-cases (less x a)) [
    | inl e ↦ rw e (Perm.trans (Perm.cons x (insert_sorted-perm a xs)) (Perm.swap a x xs))
    | inr e ↦ rw e (Perm.refl (a ∷ x ∷ xs))
  ]

  pub sort-perm : (xs : List A) → Perm (sort xs) xs
  unfolding sort
  sort-perm [] = Perm.refl []
  sort-perm (x ∷ xs) = Perm.trans (insert_sorted-perm x (sort xs)) (Perm.cons x (sort-perm xs))

  pub insert_sorted-All {κ} :
      (P : A → Type κ) (a : A) (xs : List A) → P a → All P xs → All P (insert_sorted a xs)
  unfolding insert_sorted
  insert_sorted-All P a [] h k = (h, k)
  insert_sorted-All P a (x ∷ xs) h k = elim (Bool-cases (less x a)) [
    | inl e ↦ rw e (k.0, insert_sorted-All P a xs h k.1)
    | inr e ↦ rw e (h, k)
  ]

  pub sort-All {κ} : (P : A → Type κ) (xs : List A) → All P xs → All P (sort xs)
  unfolding sort
  sort-All P [] h = tt
  sort-All P (x ∷ xs) h = insert_sorted-All P x (sort xs) h.0 (sort-All P xs h.1)

  -- No later element is less than an earlier one.
  abbrev pub IsSorted : List A → Type 0
  IsSorted [] = Unit
  IsSorted (x ∷ xs) = All (λ y. less y x ≡ false) xs × IsSorted xs

  module _ (asym : (a b : A) → less a b ≡ true → less b a ≡ false)
      (trans : (a b c : A) → less b a ≡ false → less c b ≡ false → less c a ≡ false) where
    insert_sorted-IsSorted : (a : A) (xs : List A) → IsSorted xs → IsSorted (insert_sorted a xs)
    unfolding insert_sorted
    insert_sorted-IsSorted a [] h = (tt, tt)
    insert_sorted-IsSorted a (x ∷ xs) h = elim (Bool-cases (less x a)) [
      | inl e ↦ rw e (
        insert_sorted-All (λ y. less y x ≡ false) a xs (asym x a e) h.0,
        insert_sorted-IsSorted a xs h.1,
      )
      | inr e ↦ rw e ((e, All-imp _ _ (λ y p. trans a x y e p) xs h.0), h)
    ]

    pub sort-IsSorted : (xs : List A) → IsSorted (sort xs)
    unfolding sort
    sort-IsSorted [] = tt
    sort-IsSorted (x ∷ xs) = insert_sorted-IsSorted x (sort xs) (sort-IsSorted xs)

  pub IsSorted-take : (n : ℕ) (xs : List A) → IsSorted xs → IsSorted (take n xs)
  IsSorted-take zero xs h = tt
  IsSorted-take (suc n) [] h = tt
  IsSorted-take (suc n) (x ∷ xs) h = (All-take _ n xs h.0, IsSorted-take n xs h.1)

  length-insert_sorted : (a : A) (xs : List A) → length (insert_sorted a xs) ≡ suc (length xs)
  unfolding insert_sorted
  length-insert_sorted a [] = refl
  length-insert_sorted a (x ∷ xs) = ground (arith, length-insert_sorted a xs)

  pub length-sort : (xs : List A) → length (sort xs) ≡ length xs
  unfolding sort
  length-sort [] = refl
  length-sort (x ∷ xs) = omega (arith, length-insert_sorted x (sort xs), length-sort xs)

module _ {ℓ} {A : Type ℓ} (less : A → A → Bool)
    (asym : (a b : A) → less a b ≡ true → less b a ≡ false)
    (trans : (a b c : A) → less b a ≡ false → less c b ≡ false → less c a ≡ false) where
  insert_sorted-front :
      (a : A) (xs : List A) → All (λ y. less y a ≡ false) xs → insert_sorted less a xs ≡ a ∷ xs
  unfolding insert_sorted
  insert_sorted-front a [] h = refl
  insert_sorted-front a (x ∷ xs) h = rw h.0 refl

  filter-insert_sorted :
      (p : A → Bool) (a : A) (xs : List A)
      → IsSorted less xs
      → filter p (insert_sorted less a xs)
        ≡ (if p a then insert_sorted less a (filter p xs) else filter p xs)
  unfolding insert_sorted filter
  filter-insert_sorted p a [] h = ground arith
  filter-insert_sorted p a (x ∷ xs) h = elim (Bool-cases (less x a)) [
    | inl e ↦ ground (arith, e, filter-insert_sorted p a xs h.1)
    | inr e ↦
        let front =
          insert_sorted-front a (filter p (x ∷ xs))
            (All-filter _ p (x ∷ xs) (e, All-imp _ _ (λ y q. trans a x y e q) xs h.0)) in
        ground (arith, e, front)
  ]

  -- Sorting and cutting down to what passes a test can be done in either order.
  pub filter-sort : (p : A → Bool) (xs : List A) → filter p (sort less xs) ≡ sort less (filter p xs)
  unfolding sort filter
  filter-sort p [] = refl
  filter-sort p (x ∷ xs) = ground (
    arith,
    filter-insert_sorted p x (sort less xs) (sort-IsSorted less asym trans xs),
    filter-sort p xs,
  )
