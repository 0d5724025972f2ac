-- ===== src/Registry/Diff/Sets.antt =====
-- What the difference of two bundles in server/internal/registryservice/bundlediff.go names.
use beecon.Base.{
  ◌≡◌, refl, String, Bool, true, not, ◌&&◌, ◌||◌, List, [], ◌∷◌, arith, str_eq, eq_iff, Bool-cases,
  inl, inr,
}
use beecon.Base.Lists.{filter}
use beecon.Base.Sort.{sort, insert_sorted}
use beecon.Registry.Diff.{names_slug, to_slug_set, slug_less, diff_slugs}

names_slug-same :
    (a b : String) (xs : List String) → str_eq a b ≡ true → names_slug a xs ≡ names_slug b xs
names_slug-same a b xs e = let same : a ≡ b = (eq_iff a b).0 e in rw same refl

names_slug-to_slug_set :
    (s : String) (xs : List String) → names_slug s (to_slug_set xs) ≡ names_slug s xs
unfolding names_slug to_slug_set
names_slug-to_slug_set s [] = refl
names_slug-to_slug_set s (x ∷ xs) = elim (Bool-cases (str_eq x s)) [
  | inl e ↦ ground (arith, e, names_slug-to_slug_set s xs, names_slug-same x s (to_slug_set xs) e)
  | inr e ↦ ground (arith, e, names_slug-to_slug_set s xs)
]

names_slug-filter :
    (p : String → Bool) (s : String) (xs : List String)
    → names_slug s (filter p xs) ≡ (names_slug s xs && p s)
unfolding names_slug filter
names_slug-filter p s [] = refl
names_slug-filter p s (x ∷ xs) = elim (Bool-cases (str_eq x s)) [
  | inl e ↦ let same : x ≡ s = (eq_iff x s).0 e in ground (arith, e, same, names_slug-filter p s xs)
  | inr e ↦ ground (arith, e, names_slug-filter p s xs)
]

names_slug-insert_sorted :
    (less : String → String → Bool) (s x : String) (xs : List String)
    → names_slug s (insert_sorted less x xs) ≡ (str_eq x s || names_slug s xs)
unfolding names_slug insert_sorted
names_slug-insert_sorted less s x [] = refl
names_slug-insert_sorted less s x (y ∷ ys) = ground (arith, names_slug-insert_sorted less s x ys)

names_slug-sort :
    (less : String → String → Bool) (s : String) (xs : List String)
    → names_slug s (sort less xs) ≡ names_slug s xs
unfolding names_slug sort
names_slug-sort less s [] = refl
names_slug-sort less s (x ∷ xs) =
    ground (arith, names_slug-insert_sorted less s x (sort less xs), names_slug-sort less s xs)

-- Of two lists of slugs, the added ones are exactly those of the next that the prior has not, and the
-- removed ones exactly those of the prior that the next has not, whatever is repeated in either.
pub diff_slugs_lem :
    (prior next : List String) (s : String)
    → (names_slug s (diff_slugs prior next).0 ≡ (names_slug s next && not (names_slug s prior)))
      × (names_slug s (diff_slugs prior next).1 ≡ (names_slug s prior && not (names_slug s next)))
unfolding diff_slugs
diff_slugs_lem prior next s = (side next prior, side prior next)
  where
    side :
        (xs ys : List String)
        → names_slug s
            (sort slug_less (filter (λ x. not (names_slug x (to_slug_set ys))) (to_slug_set xs)))
          ≡ (names_slug s xs && not (names_slug s ys))
    side xs ys =
        rw
          (
            names_slug-sort slug_less s
                (filter (λ x. not (names_slug x (to_slug_set ys))) (to_slug_set xs)),
            names_slug-filter (λ x. not (names_slug x (to_slug_set ys))) s (to_slug_set xs),
            names_slug-to_slug_set s xs,
            names_slug-to_slug_set s ys,
          )
          refl
