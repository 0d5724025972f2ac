-- ===== src/Delivery/Signing/Verify.antt =====
-- The receiver's side of server/internal/delivery/signing.go: a verifier in the way of the Standard
-- Webhooks libraries, which splits the signature header at its spaces and looks for its own value.
use Prim.Native.String.{◌++◌ as text_append, ◌∷◌ as cons_text, [] as no_text}
use Prim.Native.Char.{Char, code}
use beecon.Base.{
  ℕ, String, ◌≡◌, ◌≢◌, Bool, true, false, ◌||◌, List, [], ◌∷◌, ◌/◌, ◌==◌, if◌then◌else◌, str_eq,
}
use beecon.Base.Effects.{ok, err}
use beecon.Delivery.Schedule.{second}
use beecon.Delivery.Signing.{
  Crypto, SignedHeaders, values, join, signed_content, decode_secret_key, signature_prefix,
}

abbrev space : ℕ
space = 32

abbrev push_char : Char → List String → List String
push_char c [] = cons_text c no_text ∷ []
push_char c (v ∷ vs) = cons_text c v ∷ vs

-- A text cut at its spaces.
unfoldable split : String → List String
split no_text = "" ∷ []
split (cons_text c s) =
    let rest = split s in if code c == space then "" ∷ rest else push_char c rest

abbrev pub HasNoSpace : String → Type 0
HasNoSpace no_text = Unit
HasNoSpace (cons_text c s) = (code c ≢ space) × HasNoSpace s

abbrev contains : List String → String → Bool
contains [] v = false
contains (x ∷ xs) v = str_eq x v || contains xs v

-- The value that a holder of the key computes.
abbrev own_value : Crypto → SignedHeaders → List ℕ → List ℕ → String
own_value c h body key =
    text_append signature_prefix
      (c.encode_base64 (c.hmac key (signed_content c h.id h.timestamp body)))

-- A receiver that holds one secret accepts a delivery.
unfoldable pub accepts : Crypto → SignedHeaders → List ℕ → String → Bool
unfolding split
accepts c h body secret = elim (decode_secret_key c secret) [
  | ok key ↦ contains (split h.signature) (own_value c h body key)
  | err e ↦ false
]

abbrev value_under : Crypto → List ℕ → List ℕ → String
value_under c content key = text_append signature_prefix (c.encode_base64 (c.hmac key content))

-- The loop over a secret more: it decodes, and its value comes before those of the others.
record Signs (c : Crypto) (content : List ℕ) (s : String) (ss vs : List String) : Type 0 where
  key : List ℕ
  rest : List String
  decodes : decode_secret_key c s ≡ ok key
  others : values c content ss ≡ ok rest
  all_values : vs ≡ value_under c content key ∷ rest

-- Each secret decodes to a key, and the key's value is among these.
abbrev Covers : Crypto → List ℕ → List String → String → Type 0
Covers c content vs s =
    (key : List ℕ) × (decode_secret_key c s ≡ ok key)
    × (contains vs (value_under c content key) ≡ true)

-- The header of a delivery, and the list that its signature is cut back into.
record IsSigned (c : Crypto) (id at : ℕ) (body : List ℕ) (secrets : List String) (h : SignedHeaders)
    : Type 0 where
  vs : List String
  made : values c (signed_content c id (at / second) body) secrets ≡ ok vs
  same_id : h.id ≡ id
  same_time : h.timestamp ≡ at / second
  signature : h.signature ≡ join vs
