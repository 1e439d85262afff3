-- ===== src/Asdp/Handshake.antt =====
-- internal/asdp/connect_handler.go: the handshake. The peer's certificate is what the transport
-- reports; `%q` of fmt and the version of the build are parameters.
pub mod Laws
mod Tests
use aistio.Prelude.{
  ℕ, String, ◌<>◌, Bool, true, false, not, ◌&&◌, ◌||◌, Option, none, some, List, [], ◌∷◌, ◌++◌, map,
  ◌==◌, comparable_text, if◌then◌else◌,
}
use aistio.Asdp.Protocol.{UpstreamMeta, ConnectResponse}
use aistio.Asdp.Server.{Server, get_connection, unregister_connection_if_match}

-- A URI of a certificate: its text and its path.
pub record Uri : Type 0 where
  pub text : String
  pub path : String

pub record Certificate : Type 0 where
  pub common_name : String
  pub dns_names : List String
  pub uris : List Uri

pub record TlsInfo : Type 0 where
  pub verified_chains : List (List Certificate)
  pub peer_certificates : List Certificate

-- What the context holds of the peer: nothing, no or another authentication, or TLS.
pub data Peer : Type 0 where
  no_peer no_auth_info other_auth : Peer
  tls : TlsInfo → Peer

unfoldable pub first_certificate : List Certificate → Option Certificate
first_certificate [] = none
first_certificate (c ∷ cs) = some c

unfoldable pub peer_leaf_cert_tls : TlsInfo → List (List Certificate) → Option Certificate
unfolding first_certificate
peer_leaf_cert_tls info ((c ∷ cs) ∷ chains) = some c
peer_leaf_cert_tls info ([] ∷ chains) = first_certificate info.peer_certificates
peer_leaf_cert_tls info [] = first_certificate info.peer_certificates

unfoldable pub peer_leaf_cert : Peer → Option Certificate
unfolding peer_leaf_cert_tls
peer_leaf_cert (tls info) = peer_leaf_cert_tls info info.verified_chains
peer_leaf_cert no_peer = none
peer_leaf_cert no_auth_info = none
peer_leaf_cert other_auth = none

-- `strings.HasSuffix`
unfoldable pub has_suffix : String → String → Bool
has_suffix String.[] suffix = "" == suffix
has_suffix (String.◌∷◌ c s) suffix = (String.◌∷◌ c s == suffix) || has_suffix s suffix

abbrev pub any {ℓ} : {A : Type ℓ} → (A → Bool) → List A → Bool
any p [] = false
any p (x ∷ xs) = p x || any p xs

unfoldable pub certificate_names : Certificate → List String
certificate_names cert =
    if cert.common_name == "" then cert.dns_names else cert.common_name ∷ cert.dns_names

unfoldable pub candidate_names : String → String → List String
candidate_names namespace agent_name =
    agent_name
    ∷ (agent_name <> "." <> namespace)
    ∷ (agent_name <> "." <> namespace <> ".svc")
    ∷ (agent_name <> "." <> namespace <> ".svc.cluster.local")
    ∷ []

unfoldable pub identity_matches_agent : Certificate → String → String → Bool
identity_matches_agent cert namespace agent_name =
    let names = certificate_names cert in
    let suffix = "/ns/" <> namespace <> "/agent/" <> agent_name in
    any (λ candidate. any (λ name. name == candidate) names) (candidate_names namespace agent_name)
    || any (λ u. has_suffix u.text suffix || has_suffix u.path suffix) cert.uris

unfoldable pub disconnect : Server → String → String → ℕ → Server
disconnect s namespace instance_id ref =
    (unregister_connection_if_match s namespace instance_id ref).0

-- A stale connection of the same instance is torn down before the new one registers.
unfoldable pub tear_down_stale : Server → UpstreamMeta → Server
tear_down_stale s meta = elim (get_connection s meta.namespace meta.instance_id) [
  | none ↦ s
  | some existing ↦ (unregister_connection_if_match s meta.namespace meta.instance_id existing).0
]

module _ (quote : String → String) (version : String) where
  abbrev pub refusal : UpstreamMeta → String
  refusal meta =
      "client certificate identity does not authorize agent "
      <> quote meta.agent_name
      <> " in namespace "
      <> quote meta.namespace

  -- `some` is the error.
  unfoldable pub verify_peer_identity : Peer → UpstreamMeta → Option String
  verify_peer_identity peer meta = elim (peer_leaf_cert peer) [
    | none ↦ none
    | some cert ↦
        if identity_matches_agent cert meta.namespace meta.agent_name
        then none
        else some (refusal meta)
  ]

  abbrev pub rejected : String → ConnectResponse
  rejected reason = record { accepted = false; reject_reason = reason; control_plane_version = "" }

  unfoldable pub handle_connect : Server → Peer → UpstreamMeta → Server × ConnectResponse
  handle_connect s peer meta =
      let torn = tear_down_stale s meta in
      if (meta.agent_name == "") || (meta.instance_id == "") || (meta.namespace == "")
      then (s, rejected "agentName, instanceId, and namespace are required")
      else elim (verify_peer_identity peer meta) [
        | some err ↦ (s, rejected err)
        | none ↦
            (torn, record { accepted = true; reject_reason = ""; control_plane_version = version })
      ]
