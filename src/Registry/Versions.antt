-- ===== src/Registry/Versions.antt =====
-- server/internal/registryservice/semver.go. A number of type int is its two's complement.
pub mod Order
use Prim.Native.String.{◌++◌ as text_append, ◌∷◌ as cons_text, [] as no_text}
use Prim.Native.Char.{Char, code}
use beecon.Base.{
  ℕ, zero, suc, ◌+◌, ◌-◌, ◌/◌, ◌%◌, ◌^◌, String, Bool, true, false, not, Option, none, some, List,
  [], ◌∷◌, ltb, leb, ◌==◌, if◌then◌else◌,
}
use beecon.Execution.RateLimit.{atoi}

pub record SemverParts : Type 0 where
  pub major : ℕ
  pub minor : ℕ
  pub patch : ℕ

-- Up to the first dot, and what follows it if there is one.
unfoldable pub cut_dot : String → Option (String × String)
cut_dot no_text = none
cut_dot (cons_text c s) =
    let rest = cut_dot s in
    if code c == 46
    then some (no_text, s)
    else elim rest [ none ↦ none | some (before, after) ↦ some (cons_text c before, after) ]

abbrev int_of : Option (Bool × ℕ) → Option ℕ
int_of none = none
int_of (some (negative, n)) = some (if negative then (2 ^ 64 - n) % 2 ^ 64 else n)

-- strconv.Atoi
abbrev pub parse_int : String → Option ℕ
parse_int s = int_of (atoi s)

-- The format of the error, or the parts.
pub data Parsed : Type 0 where
  malformed : String → Parsed
  parsed : SemverParts → Parsed

abbrev parsed_parts : Option ℕ → Option ℕ → Option ℕ → Parsed
parsed_parts none _ _ = malformed "invalid major version number in %q"
parsed_parts (some major) none _ = malformed "invalid minor version number in %q"
parsed_parts (some major) (some minor) none = malformed "invalid patch version number in %q"
parsed_parts (some major) (some minor) (some patch) =
    parsed (record { major = major; minor = minor; patch = patch })

abbrev wrong_shape : Parsed
wrong_shape = malformed "must be a major.minor.patch version, got %q"

-- strings.SplitN(version, ".", 3)
abbrev split_again : String → Option (String × String) → Parsed
split_again major none = wrong_shape
split_again major (some (minor, patch)) =
    parsed_parts (parse_int major) (parse_int minor) (parse_int patch)

abbrev split_rest : (String → Option (String × String)) → Option (String × String) → Parsed
split_rest cut none = wrong_shape
split_rest cut (some (major, rest)) = split_again major (cut rest)

unfoldable pub parse_semver : String → Parsed
unfolding cut_dot
parse_semver version = split_rest cut_dot (cut_dot version)

abbrev digit : ℕ → String
digit n =
    if n == 0
    then "0"
    else if n == 1
    then "1"
    else if n == 2
    then "2"
    else if n == 3
    then "3"
    else if n == 4
    then "4"
    else if n == 5
    then "5"
    else if n == 6
    then "6"
    else if n == 7
    then "7"
    else if n == 8
    then "8"
    else "9"

-- The digits of a number in front of `rest`: an int has 19 at most.
unfoldable pub print_digits : ℕ → ℕ → String → String
print_digits zero n rest = rest
print_digits (suc fuel) n rest =
    let more = print_digits fuel (n / 10) (text_append (digit (n % 10)) rest) in
    if ltb n 10 then text_append (digit n) rest else more

-- `%d` of an int
unfoldable pub print_int : ℕ → String
unfolding print_digits
print_int n =
    if ltb n (2 ^ 63)
    then print_digits 19 n ""
    else text_append "-" (print_digits 19 (2 ^ 64 - n) "")

unfoldable pub print_semver : SemverParts → String
unfolding print_int
print_semver v =
    text_append (print_int v.major)
      (text_append "." (text_append (print_int v.minor) (text_append "." (print_int v.patch))))

pub data Sign : Type 0 where
  below equal above : Sign

-- signOf of a difference of two ints, which wraps around.
abbrev sign_of : ℕ → Sign
sign_of n = if n == 0 then equal else if ltb n (2 ^ 63) then above else below

abbrev minus : ℕ → ℕ → ℕ
minus a b = (a + 2 ^ 64 - b) % 2 ^ 64

unfoldable pub compare : SemverParts → SemverParts → Sign
compare v other =
    if not (v.major == other.major)
    then sign_of (minus v.major other.major)
    else if not (v.minor == other.minor)
    then sign_of (minus v.minor other.minor)
    else sign_of (minus v.patch other.patch)

abbrev pub is_above : Sign → Bool
is_above above = true
is_above _ = false

-- `a <= b` of two ints
abbrev pub int_le : ℕ → ℕ → Bool
int_le a b = leb ((a + 2 ^ 63) % 2 ^ 64) ((b + 2 ^ 63) % 2 ^ 64)

abbrev increment : ℕ → ℕ
increment n = (n + 1) % 2 ^ 64

-- The flags are diff.hasRemovals() and diff.hasAdditions().
unfoldable pub auto_next_version : SemverParts → Bool → Bool → SemverParts
auto_next_version prior removals additions =
    if removals
    then record { major = increment prior.major; minor = 0; patch = 0 }
    else if additions
    then record { major = prior.major; minor = increment prior.minor; patch = 0 }
    else record { major = prior.major; minor = prior.minor; patch = increment prior.patch }
