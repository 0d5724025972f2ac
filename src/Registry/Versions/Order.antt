-- ===== src/Registry/Versions/Order.antt =====
-- The order of versions of server/internal/registryservice/semver.go, where the differences do not wrap
-- around.
use beecon.Base.{◌≡◌, ◌<◌, ◌⊎◌, inl, inr, Bool, true, false, ◌&&◌, arith, ◌==◌, Bool-cases}
use beecon.Registry.Versions.{SemverParts, is_above, int_le, compare, auto_next_version}

-- No part is below 0.
abbrev pub IsNatural : SemverParts → Type 0
IsNatural v =
    (v.major < 9_223_372_036_854_775_808)
    × (v.minor < 9_223_372_036_854_775_808)
    × (v.patch < 9_223_372_036_854_775_808)

-- The order of the triples.
abbrev pub IsAfter : SemverParts → SemverParts → Type 0
IsAfter v w =
    (w.major < v.major)
    ⊎ ((v.major ≡ w.major) × ((w.minor < v.minor) ⊎ ((v.minor ≡ w.minor) × (w.patch < v.patch))))

pub compare-IsAfter :
    (v w : SemverParts) → IsNatural v → IsNatural w → is_above (compare v w) ≡ true → IsAfter v w
unfolding compare
compare-IsAfter v w nv nw h = elim (Bool-cases (v.major == w.major)) [
  | inr e ↦ inl (ground arith)
  | inl e ↦ elim (Bool-cases (v.minor == w.minor)) [
    | inr m ↦ inr (ground arith, inl (ground arith))
    | inl m ↦ inr (ground arith, inr (ground arith, ground arith))
  ]
]

-- What a change of tools asks of a version.
abbrev pub Follows : Bool → Bool → SemverParts → SemverParts → Type 0
Follows removals additions old v =
    IsAfter v old
    × (removals ≡ true → old.major < v.major)
    × (additions ≡ true → (old.major < v.major) ⊎ ((v.major ≡ old.major) × (old.minor < v.minor)))

pub compare-Follows :
    (removals additions : Bool) (old v : SemverParts)
    → IsNatural old
    → IsNatural v
    → is_above (compare v old) ≡ true
    → (removals && int_le v.major old.major) ≡ false
    → (additions && (v.major == old.major) && int_le v.minor old.minor) ≡ false
    → Follows removals additions old v
compare-Follows removals additions old v n_old n_new up r a = (
  compare-IsAfter v old n_new n_old up,
  (λ e. ground arith),
  λ e. elim (compare-IsAfter v old n_new n_old up) [
    | inl more ↦ inl more
    | inr (same, rest) ↦ inr (same, ground arith)
  ],
)

-- A version that the registry assigns.
pub auto_next_version-Follows :
    (removals additions : Bool) (old : SemverParts)
    → old.major < 9_223_372_036_854_775_807
    → old.minor < 9_223_372_036_854_775_807
    → old.patch < 9_223_372_036_854_775_807
    → Follows removals additions old (auto_next_version old removals additions)
unfolding auto_next_version
auto_next_version-Follows true additions old a b c =
    (inl (ground arith), (λ e. ground arith), λ e. inl (ground arith))
auto_next_version-Follows false true old a b c = (
  inr (ground arith, inl (ground arith)),
  (λ e. absurd (ground arith)),
  λ e. inr (ground arith, ground arith),
)
auto_next_version-Follows false false old a b c = (
  inr (ground arith, inr (ground arith, ground arith)),
  (λ e. absurd (ground arith)),
  λ e. absurd (ground arith),
)
