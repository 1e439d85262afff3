-- ===== src/Api/Mcp.antt =====
-- api/v1alpha1/mcpserver_types.go
use aistio.Prelude.{String, Option, List}
use aistio.Prelude.Dict.{Dict}
use aistio.Api.Meta.{ObjectMeta}
use aistio.Api.Common.{Condition, AllowedNamespaces}

pub data McpServerType : Type 0 where
  unset remote_type stdio_type : McpServerType
  other : String → McpServerType

pub record HeaderFromRef : Type 0 where
  pub kind : String
  pub name : String
  pub key : String
  pub header : String

pub record RemoteMcpConfig : Type 0 where
  pub protocol : String
  pub url : String
  pub headers_from : List HeaderFromRef
  pub timeout : String

pub record StdioMcpConfig : Type 0 where
  pub command : String
  pub args : List String
  pub env : Dict String String

pub record McpServerSpec : Type 0 where
  pub description : String
  pub type : McpServerType
  pub remote : Option RemoteMcpConfig
  pub stdio : Option StdioMcpConfig
  pub allowed_namespaces : Option AllowedNamespaces

pub record DiscoveredTool : Type 0 where
  pub name : String
  pub description : String

pub record McpServerStatus : Type 0 where
  pub conditions : List Condition
  pub discovered_tools : List DiscoveredTool

pub record McpServer : Type 0 where
  pub metadata : ObjectMeta
  pub spec : McpServerSpec
  pub status : McpServerStatus
