-- ===== src/Delivery/Signing.antt =====
-- server/internal/delivery/signing.go. HMAC-SHA256, base64 and the texts of ids and integers are
-- arguments (`Crypto`); the header map has the three fields of SignedHeaders.
pub mod Verify
use Prim.Native.String.{◌++◌ as text_append, ◌∷◌ as cons_text, [] as no_text}
use Prim.Native.Char.{code}
use beecon.Base.{ℕ, ◌/◌, String, Option, none, some, List, [], ◌∷◌, ◌++◌, ◌==◌, if◌then◌else◌}
use beecon.Base.Effects.{Result, ok, err}
use beecon.Httpx.Errors.{Error, formatted}
use beecon.Delivery.Schedule.{second}

pub record Crypto : Type 0 where
  pub hmac : List ℕ → List ℕ → List ℕ
  pub encode_base64 : List ℕ → String
  pub decode_base64 : String → Option (List ℕ)
  pub id_bytes : ℕ → List ℕ
  pub int_bytes : ℕ → List ℕ

pub record SignedHeaders : Type 0 where
  pub id : ℕ
  pub timestamp : ℕ
  pub signature : String

abbrev pub signature_prefix : String
signature_prefix = "v1,"

abbrev pub webhook_secret_prefix : String
webhook_secret_prefix = "whsec_"

-- strings.TrimPrefix: the rest of the text behind the prefix, or the text itself.
unfoldable pub strip_prefix : String → String → Option String
strip_prefix no_text s = some s
strip_prefix (cons_text c p) no_text = none
strip_prefix (cons_text c p) (cons_text d s) = if code c == code d then strip_prefix p s else none

abbrev pub or_self : String → Option String → String
or_self s none = s
or_self s (some rest) = rest

abbrev pub dot : ℕ
dot = b'.'

unfoldable pub signed_content : Crypto → ℕ → ℕ → List ℕ → List ℕ
signed_content c id timestamp body =
    c.id_bytes id ++ (dot ∷ (c.int_bytes timestamp ++ (dot ∷ body)))

abbrev decoded : Option (List ℕ) → Result (List ℕ)
decoded none = err (formatted "decode webhook signing secret")
decoded (some key) = ok key

unfoldable pub decode_secret_key : Crypto → String → Result (List ℕ)
unfolding strip_prefix
decode_secret_key c secret =
    decoded (c.decode_base64 (or_self secret (strip_prefix webhook_secret_prefix secret)))

abbrev map_ok : {A B : Type 0} → (A → B) → Result A → Result B
map_ok f (ok a) = ok (f a)
map_ok f (err e) = err e

unfoldable pub signature_value : Crypto → List ℕ → String → Result String
unfolding decode_secret_key
signature_value c content secret =
    map_ok (λ key. c.encode_base64 (c.hmac key content)) (decode_secret_key c secret)

abbrev pub add_value : String → Result (List String) → Result (List String)
add_value value (ok values) = ok (text_append signature_prefix value ∷ values)
add_value value (err e) = err e

-- The loop over the secrets, which stops at the first that does not decode.
unfoldable pub values : Crypto → List ℕ → List String → Result (List String)
unfolding signature_value
values c content [] = ok []
values c content (secret ∷ secrets) =
    let rest = values c content secrets in
    elim (signature_value c content secret) [ ok value ↦ add_value value rest | err e ↦ err e ]

-- strings.Join(values, " ")
unfoldable pub join : List String → String
join [] = ""
join (v ∷ []) = v
join (v ∷ w ∷ ws) = text_append v (text_append " " (join (w ∷ ws)))

unfoldable pub sign : Crypto → ℕ → ℕ → List ℕ → List String → Result SignedHeaders
unfolding values join signed_content
sign c id timestamp body secrets =
    let ts : ℕ = timestamp / second in
    map_ok (λ vs. record { id = id; timestamp = ts; signature = join vs })
      (values c (signed_content c id ts body) secrets)
