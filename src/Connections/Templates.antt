-- ===== src/Connections/Templates.antt =====
-- renderParamsTemplate of server/internal/connections/oauth.go. The pattern `{params.x}`, where x is
-- letters, digits and underscores, is read at each brace; its first match cannot contain another.
use Prim.Native.String.{◌++◌ as text_append, ◌∷◌ as cons_text, [] as no_text}
use Prim.Native.Char.{code}
use beecon.Base.{
  ℕ, zero, suc, ◌+◌, String, Bool, ◌&&◌, ◌||◌, Option, none, some, List, [], ◌∷◌, leb, ◌==◌, str_eq,
  if◌then◌else◌,
}

-- `[A-Za-z0-9_]`
unfoldable pub is_name_char : ℕ → Bool
is_name_char c =
    (leb 65 c && leb c 90) || (leb 97 c && leb c 122) || (leb 48 c && leb c 57) || (c == 95)

-- A run of name characters that a closing brace ends: the name, which may be empty here.
unfoldable pub name_to_brace : String → Option String
unfolding is_name_char
name_to_brace no_text = none
name_to_brace (cons_text c s) =
    let rest = name_to_brace s in
    if (code c == 125)
    then some ""
    else if is_name_char (code c)
    then elim rest [ none ↦ none | some name ↦ some (cons_text c name) ]
    else none

-- What comes after a prefix.
unfoldable pub after_prefix : String → String → Option String
after_prefix no_text s = some s
after_prefix (cons_text p ps) no_text = none
after_prefix (cons_text p ps) (cons_text c s) =
    let rest = after_prefix ps s in if (code p == code c) then rest else none

unfoldable pub text_length : String → ℕ
text_length no_text = 0
text_length (cons_text c s) = suc (text_length s)

-- `values[name]`, with whether the key is there.
unfoldable pub lookup : String → List (String × String) → Option String
lookup name [] = none
lookup name ((key, value) ∷ params) = if str_eq key name then some value else lookup name params

abbrev not_empty : Option String → Option String
not_empty none = none
not_empty (some name) = if str_eq name "" then none else some name

abbrev bind_option : {A B : Type 0} → Option A → (A → Option B) → Option B
bind_option none f = none
bind_option (some a) f = f a

-- The name of the token that a text starts with.
unfoldable pub token_at : String → Option String
unfolding after_prefix name_to_brace
token_at s = bind_option (after_prefix "{params." s) (λ rest. not_empty (name_to_brace rest))

-- What a token becomes, and how many characters after its first one it has.
unfoldable pub substitute : List (String × String) → String → Option (String × ℕ)
unfolding token_at lookup text_length
substitute params s =
    bind_option (token_at s)
      λ name. bind_option (lookup name params) λ value. some (value, text_length name + 8)

-- `skip` counts the characters that are left of a token that has been replaced.
unfoldable pub render_from : List (String × String) → ℕ → String → String
unfolding substitute
render_from params skip no_text = ""
render_from params (suc skip) (cons_text c s) = render_from params skip s
render_from params zero (cons_text c s) = elim (substitute params (cons_text c s)) [
  | none ↦ cons_text c (render_from params zero s)
  | some (value, skip) ↦ text_append value (render_from params skip s)
]

unfoldable pub render_params_template : String → List (String × String) → String
unfolding render_from
render_params_template template params = render_from params 0 template
