-- ===== src/Access/Operators/Emails.antt =====
-- Which addresses looksLikeEmail of server/internal/access/operator.go takes.
use Prim.Native.String.{◌++◌ as text_append, ◌∷◌ as cons_text, [] as no_text}
use beecon.Base.{String}
