-- ===== src/Asdp/Handshake/Tests.antt =====
-- A client with a certificate of the agent's service.
use aistio.Prelude.{◌≡◌, refl, true, [], ◌∷◌, comparable_number, comparable_text}
use aistio.Asdp.Protocol.{UpstreamMeta}
use aistio.Asdp.Handshake.{
  Certificate, Peer, tls, certificate_names, candidate_names, identity_matches_agent,
}

abbrev service_certificate : Certificate
service_certificate = record { common_name = "crew.default.svc"; dns_names = []; uris = [] }

abbrev crew_peer : Peer
crew_peer =
    tls (record { verified_chains = (service_certificate ∷ []) ∷ []; peer_certificates = [] })

abbrev crew_meta : UpstreamMeta
crew_meta = record { agent_name = "crew"; instance_id = "a"; namespace = "default"; timestamp = 0 }

matches : identity_matches_agent service_certificate "default" "crew" ≡ true
unfolding identity_matches_agent certificate_names candidate_names
matches = refl
