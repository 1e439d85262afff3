-- ===== src/Api/Model.antt =====
-- api/v1alpha1/modelconfig_types.go
use aistio.Prelude.{String, Bool, Option, List}
use aistio.Prelude.Dict.{Dict}
use aistio.Api.Meta.{ObjectMeta}
use aistio.Api.Common.{Condition}

pub record TlsConfig : Type 0 where
  pub disable_verify : Bool
  pub ca_cert_secret_ref : String

pub record ModelConfigSpec : Type 0 where
  pub provider : String
  pub model : String
  pub api_key_secret : String
  pub api_key_secret_key : String
  pub options : Dict String String
  pub tls : Option TlsConfig

pub record ModelConfigStatus : Type 0 where
  pub conditions : List Condition
  pub secret_hash : String

pub record ModelConfig : Type 0 where
  pub metadata : ObjectMeta
  pub spec : ModelConfigSpec
  pub status : ModelConfigStatus
