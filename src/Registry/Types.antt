-- ===== src/Registry/Types.antt =====
-- server/internal/registrybundle and server/internal/registryservice/types.go. A JSON object is its
-- members, each value its text; ids and slugs are texts.
use beecon.Base.{ℕ, String, Bool, Option, List}
use beecon.Base.Effects.{Result, ok, err}
use Prim.Native.String.{◌++◌ as text_append}

abbrev pub Object : Type 0
Object = List (String × String)

pub record OauthConfig : Type 0 where
  pub authorize_url : String
  pub token_url : String
  pub user_info_url : String
  pub scopes : List String
  pub credential_style : String
  pub user_info_email_field : String
  pub user_info_display_name_field : String

pub record ExpectedParam : Type 0 where
  pub name : String
  pub display_name : String
  pub description : String
  pub required : Bool
  pub secret : Bool

pub record Pagination : Type 0 where
  pub page_size_param : String
  pub cursor_param : String
  pub next_cursor_path : String

pub record ToolMapping : Type 0 where
  pub method : String
  pub path : String
  pub query : Object
  pub header : Object
  pub body : Object
  pub pagination : Option Pagination
  pub file_inputs : List String

pub record Tool : Type 0 where
  pub id : String
  pub slug : String
  pub name : String
  pub description : String
  pub deprecated : Bool
  pub input_schema : Object
  pub output_schema : Object
  pub sample : Object
  pub mapping : ToolMapping

pub record TriggerPoll : Type 0 where
  pub method : String
  pub path : String
  pub query : Object
  pub body : Object
  pub records_path : String
  pub record_id_path : String
  pub record_timestamp_path : String
  pub payload : Object

pub record Trigger : Type 0 where
  pub slug : String
  pub name : String
  pub description : String
  pub config_schema : Object
  pub payload_schema : Object
  pub ingestion : String
  pub poll_interval_seconds : ℕ
  pub poll : TriggerPoll

pub record Bundle : Type 0 where
  pub format_version : ℕ
  pub provider_slug : String
  pub version : String
  pub content_hash : String
  pub name : String
  pub logo : String
  pub auth_scheme : String
  pub base_url : String
  pub oauth : OauthConfig
  pub expected_params : List ExpectedParam
  pub tools : List Tool
  pub triggers : List Trigger

pub record StoredBundle : Type 0 where
  pub bundle : Bundle
  pub published_at : ℕ

pub record ToolIdentity : Type 0 where
  pub id : String
  pub slug : String

pub record BundleDiffItem : Type 0 where
  pub tools : List String
  pub triggers : List String

pub record BundleVersionSummary : Type 0 where
  pub version : String
  pub content_hash : String
  pub published_at : ℕ

pub record PublishResult : Type 0 where
  pub version : String
  pub content_hash : String
  pub tools : List ToolIdentity
  pub added : BundleDiffItem
  pub removed : BundleDiffItem

-- ContentHash: json.Marshal and SHA-256 in hexadecimal are the first two arguments.
unfoldable pub content_hash : (Bundle → Result String) → (String → String) → Bundle → Result String
content_hash marshal sha256_hex bundle = elim (marshal (record bundle { content_hash = "" })) [
  | err e ↦ err e
  | ok encoded ↦ ok (text_append "sha256:" (sha256_hex encoded))
]
