-- ===== src/Connections/Handshake/Collecting.antt =====
-- The parameters that the connect page of server/internal/connections/oauth.go collects, and what it
-- takes to be sent on to the provider.
use beecon.Base.{ℕ, ◌≡◌, String, true, false, some, List, str_eq, ltb}
use beecon.Base.Effects.{ok}
use beecon.Base.Effects.Ends.{Ends}
use beecon.Execution.RateLimit.{trim_space}
use beecon.Connections.Types.{Connection}
use beecon.Connections.Memory.{find_by_connect_token}
use beecon.Connections.Ports.{Facade, Outside, ExpectedParam, ProviderDefinition}
use beecon.Connections.Templates.{lookup}
use beecon.Connections.Handshake.{or_empty}

-- A required field that was given a value that is not blank.
abbrev pub IsGiven : List (String × String) → ExpectedParam → Type 0
IsGiven values field =
    field.required ≡ true → str_eq (trim_space (or_empty (lookup field.name values))) "" ≡ false

-- The link is stored, unused, and has not run out at a time that the clock showed.
pub record IsOpen (f : Facade) (token : String) (before : Outside) (c : Connection) : Type 0 where
  pub found : find_by_connect_token token before.repo ≡ some c
  pub unused : c.connect_token_used ≡ false
  pub read_at : ℕ
  pub in_time : ltb c.connect_token_expires_at (f.now read_at) ≡ false

-- The definition of the connection's provider, as the catalog gave it.
abbrev pub Defines : Facade → Connection → ProviderDefinition → Type 0
Defines f c definition = (n : ℕ) × (f.get_provider_definition n c.provider_slug ≡ ok definition)

-- What allowed a page to send the user on.
abbrev pub Collected :
    Facade → String → Outside → (Connection → ProviderDefinition → Type 0) → Type 0
Collected f token before given =
    (c : Connection) × (definition : ProviderDefinition) × IsOpen f token before c
    × Defines f c definition
    × given c definition
