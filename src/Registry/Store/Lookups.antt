-- ===== src/Registry/Store/Lookups.antt =====
-- What the store of server/internal/registryservice/driven/memory finds after a save.
use beecon.Base.{
  ◌≡◌, refl, String, true, false, ◌&&◌, some, List, [], ◌∷◌, arith, str_eq, eq_iff, Bool-cases, inl,
  inr,
}
use beecon.Registry.Types.{StoredBundle}
use beecon.Registry.Store.{
  Entry, BundleStore, is_entry, put_entry, put_latest, save, find_entry, find, find_latest,
  latest_version,
}

str_eq_refl : (a : String) → str_eq a a ≡ true
str_eq_refl a = (eq_iff a a).1 refl

same_as :
    (p v : String) (e x : Entry)
    → is_entry e.provider e.stored.bundle.version x ≡ true
    → is_entry p v x ≡ is_entry p v e
same_as p v e x h =
    let a : x.provider ≡ e.provider = (eq_iff x.provider e.provider).0 (ground arith) in
    let b : x.stored.bundle.version ≡ e.stored.bundle.version =
      (eq_iff x.stored.bundle.version e.stored.bundle.version).0 (ground arith) in
    rw (a, b) refl

find_entry-put_entry :
    (p v : String) (e : Entry) (xs : List Entry)
    → is_entry p v e ≡ false
    → find_entry p v (put_entry e xs) ≡ find_entry p v xs
unfolding find_entry put_entry
find_entry-put_entry p v e [] h = rw h refl
find_entry-put_entry p v e (x ∷ xs) h =
    elim (Bool-cases (is_entry e.provider e.stored.bundle.version x)) [
      | inl hit ↦ ground (arith, hit, h, same_as p v e x hit)
      | inr miss ↦ ground (arith, miss, find_entry-put_entry p v e xs h)
    ]

find_entry-put_entry_same :
    (e : Entry) (xs : List Entry)
    → find_entry e.provider e.stored.bundle.version (put_entry e xs) ≡ some e.stored
unfolding find_entry put_entry
find_entry-put_entry_same e [] =
    rw (str_eq_refl e.provider, str_eq_refl e.stored.bundle.version) refl
find_entry-put_entry_same e (x ∷ xs) =
    elim (Bool-cases (is_entry e.provider e.stored.bundle.version x)) [
      | inl hit ↦ ground (arith, hit, str_eq_refl e.provider, str_eq_refl e.stored.bundle.version)
      | inr miss ↦ ground (arith, miss, find_entry-put_entry_same e xs)
    ]

find_latest-put_latest :
    (p v : String) (xs : List (String × String)) → find_latest p (put_latest p v xs) ≡ some v
unfolding find_latest put_latest
find_latest-put_latest p v [] = rw (str_eq_refl p) refl
find_latest-put_latest p v ((q, u) ∷ xs) = elim (Bool-cases (str_eq q p)) [
  | inl hit ↦ ground (arith, hit, str_eq_refl p)
  | inr miss ↦ ground (arith, miss, find_latest-put_latest p v xs)
]

pub find-save_same :
    (p : String) (s : StoredBundle) (o : BundleStore)
    → find p s.bundle.version (save p s o) ≡ some s
unfolding find save
find-save_same p s o = find_entry-put_entry_same (record { provider = p; stored = s }) o.by_version

pub find-save :
    (p v q : String) (s : StoredBundle) (o : BundleStore)
    → (str_eq p q && str_eq s.bundle.version v) ≡ false
    → find q v (save p s o) ≡ find q v o
unfolding find save
find-save p v q s o h =
    find_entry-put_entry q v (record { provider = p; stored = s }) o.by_version h

pub latest_version-save :
    (p : String) (s : StoredBundle) (o : BundleStore)
    → latest_version p (save p s o) ≡ some s.bundle.version
unfolding latest_version save
latest_version-save p s o = find_latest-put_latest p s.bundle.version o.latest
