-- ===== src/Asdp/Handshake/Laws.antt =====
-- Whom the handshake lets in, and what it leaves of an older connection.
use aistio.Prelude.{
  subst, String, ◌<>◌, ◌≡◌, refl, sym, ap, ◌∙◌, ◌⊎◌, ◌↔◌, inl, inr, Bool, true, false, ◌||◌, none,
  some, List, [], ◌∷◌, Memᴰ, arith, ◌==◌, ==_iff, comparable_text, comparable_number, if◌then◌else◌,
  Bool-cases, Option-cases,
}
use aistio.Prelude.Dict.{lookup}
use aistio.Asdp.Protocol.{UpstreamMeta}
use aistio.Asdp.Server.{Server, get_connection, get_instance_key}
use aistio.Asdp.Server.Registry.{unregister_exact}
use aistio.Asdp.Handshake.{
  Uri, Certificate, TlsInfo, Peer, tls, peer_leaf_cert, has_suffix, any, certificate_names,
  candidate_names, identity_matches_agent, verify_peer_identity, tear_down_stale, handle_connect,
  refusal,
}

module _ {ℓ} {A : Type ℓ} where
  any-Mem : (p : A → Bool) (xs : List A) → any p xs ≡ true → (x : A) × Memᴰ x xs × (p x ≡ true)
  any-Mem p [] h = cc
  any-Mem p (x ∷ xs) h = elim (Bool-cases (p x)) [
    | inl e ↦ (x, Memᴰ.head refl, e)
    | inr e ↦ let (y, m, q) = any-Mem p xs (ground (arith, h, e)) in (y, Memᴰ.tail m, q)
  ]

  Mem-any : (p : A → Bool) (x : A) (xs : List A) → Memᴰ x xs → p x ≡ true → any p xs ≡ true
  Mem-any p x [] m h = elim m [ ]
  Mem-any p x (y ∷ ys) (Memᴰ.head q) h = rw (sym (ap p q) ∙ h) refl
  Mem-any p x (y ∷ ys) (Memᴰ.tail m) h = ground (arith, Mem-any p x ys m h)

-- The certificate names the agent: one of its names is a name of the agent's service, or one of
-- its URIs ends in the agent's path.
abbrev pub Authorizes : Certificate → String → String → Type 0
Authorizes cert namespace agent_name =
    ((name : String) × Memᴰ name (certificate_names cert)
      × Memᴰ name (candidate_names namespace agent_name))
    ⊎ ((u : Uri) × Memᴰ u cert.uris
        × ((has_suffix u.text ("/ns/" <> namespace <> "/agent/" <> agent_name) ≡ true)
            ⊎ (has_suffix u.path ("/ns/" <> namespace <> "/agent/" <> agent_name) ≡ true)))

or_split : (a b : Bool) → (a || b) ≡ true → (a ≡ true) ⊎ (b ≡ true)
or_split true b h = inl refl
or_split false b h = inr h

or_right : (a b : Bool) → b ≡ true → (a || b) ≡ true
or_right true b h = refl
or_right false b h = h

identity-Authorizes :
    (cert : Certificate) (namespace agent_name : String)
    → identity_matches_agent cert namespace agent_name ≡ true
    → Authorizes cert namespace agent_name
unfolding identity_matches_agent
identity-Authorizes cert namespace agent_name h =
    let names = certificate_names cert in
    let suffix = "/ns/" <> namespace <> "/agent/" <> agent_name in
    let named : String → Bool = λ candidate. any (λ name. name == candidate) names in
    let ends : Uri → Bool = λ u. has_suffix u.text suffix || has_suffix u.path suffix in
    elim (or_split (any named (candidate_names namespace agent_name)) (any ends cert.uris) h) [
      | inl e ↦
          let (candidate, m, q) = any-Mem named (candidate_names namespace agent_name) e in
          let (name, k, r) = any-Mem (λ name. name == candidate) names q in
          inl (candidate, subst (λ n. Memᴰ n names) ((==_iff name candidate).0 r) k, m)
      | inr e ↦
          let (u, m, q) = any-Mem ends cert.uris e in
          inr (u, m, or_split (has_suffix u.text suffix) (has_suffix u.path suffix) q)
    ]

Authorizes-identity :
    (cert : Certificate) (namespace agent_name : String)
    → Authorizes cert namespace agent_name
    → identity_matches_agent cert namespace agent_name ≡ true
unfolding identity_matches_agent
Authorizes-identity cert namespace agent_name (inl (name, k, m)) =
    let names = certificate_names cert in
    let named : String → Bool = λ candidate. any (λ n. n == candidate) names in
    let q : named name ≡ true = Mem-any (λ n. n == name) name names k ((==_iff name name).1 refl) in
    ground (arith, Mem-any named name (candidate_names namespace agent_name) m q)
Authorizes-identity cert namespace agent_name (inr (u, m, e)) =
    let names = certificate_names cert in
    let suffix = "/ns/" <> namespace <> "/agent/" <> agent_name in
    let named : String → Bool = λ candidate. any (λ name. name == candidate) names in
    let ends : Uri → Bool = λ u. has_suffix u.text suffix || has_suffix u.path suffix in
    or_right (any named (candidate_names namespace agent_name)) (any ends cert.uris)
      (Mem-any ends u cert.uris m (ground (arith, e)))

-- The test on the certificate holds exactly when the certificate authorizes the agent.
pub identity_matches_agent_iff :
    (cert : Certificate) (namespace agent_name : String)
    → (identity_matches_agent cert namespace agent_name ≡ true)
      ↔ Authorizes cert namespace agent_name
identity_matches_agent_iff cert namespace agent_name =
    (identity-Authorizes cert namespace agent_name, Authorizes-identity cert namespace agent_name)

abbrev missing : UpstreamMeta → Bool
missing meta = (meta.agent_name == "") || (meta.instance_id == "") || (meta.namespace == "")

-- The first certificate of the first verified chain or, where that is not there or is empty, the
-- first that was presented.
abbrev pub LeafOf : List (List Certificate) → List Certificate → Certificate → Type 0
LeafOf verified presented cert =
    ((rest : List Certificate) × (chains : List (List Certificate)) × (verified
        ≡ (cert ∷ rest) ∷ chains))
    ⊎ (((verified ≡ []) ⊎ ((chains : List (List Certificate)) × (verified ≡ [] ∷ chains)))
        × ((rest : List Certificate) × (presented ≡ cert ∷ rest)))

-- The leaf certificate of a peer that has authenticated by TLS.
abbrev pub IsLeaf : Peer → Certificate → Type 0
IsLeaf peer cert =
    (info : TlsInfo) × (peer ≡ tls info) × LeafOf info.verified_chains info.peer_certificates cert

-- The peer's leaf certificate, if it has one, authorizes the claimed agent.
abbrev pub IsAuthorized : Peer → UpstreamMeta → Type 0
IsAuthorized peer meta =
    (cert : Certificate) → IsLeaf peer cert → Authorizes cert meta.namespace meta.agent_name

abbrev IsChecked : Peer → UpstreamMeta → Type 0
IsChecked peer meta =
    (cert : Certificate)
    → peer_leaf_cert peer ≡ some cert
    → identity_matches_agent cert meta.namespace meta.agent_name ≡ true

module _ (quote : String → String) (version : String) where
  verify_cases :
      (peer : Peer) (meta : UpstreamMeta)
      → ((verify_peer_identity quote version peer meta ≡ none) × IsChecked peer meta)
        ⊎ ((err : String) × (verify_peer_identity quote version peer meta ≡ some err)
            × (IsChecked peer meta → ⊥))
  unfolding verify_peer_identity
  verify_cases peer meta = elim (Option-cases (peer_leaf_cert peer)) [
    | inl e ↦ inl (ground (arith, e), λ cert q. cc)
    | inr (cert, e) ↦
        elim (Bool-cases (identity_matches_agent cert meta.namespace meta.agent_name)) [
          | inl p ↦ inl (ground (arith, e, p), λ c q. ground (arith, e, p, q))
          | inr p ↦
              inr
                (refusal quote version meta, ground (arith, e, p), λ h. ground (arith, h cert e, p))
        ]
  ]

  tear_down_exact :
      (s : Server) (meta : UpstreamMeta) (k : String)
      → lookup k (tear_down_stale s meta).connections ≡ (
          if get_instance_key meta.namespace meta.instance_id == k
          then none
          else lookup k s.connections)
  unfolding tear_down_stale get_connection
  tear_down_exact s meta k =
      elim (Option-cases (get_connection s meta.namespace meta.instance_id)) [
        | inl e ↦ ground (arith, e, absent k e)
        | inr (c, e) ↦
            let (b, l) = unregister_exact s meta.namespace meta.instance_id c in
            ground (arith, e, b.1 e, l k)
      ]
    where
      absent :
          (k : String)
          → get_connection s meta.namespace meta.instance_id ≡ none
          → lookup k s.connections ≡ (
              if get_instance_key meta.namespace meta.instance_id == k
              then none
              else lookup k s.connections)
      absent k e = elim (Bool-cases (get_instance_key meta.namespace meta.instance_id == k)) [
        | inl p ↦
            let q : get_instance_key meta.namespace meta.instance_id ≡ k =
              (==_iff (get_instance_key meta.namespace meta.instance_id) k).0 p in
            ground (arith, p, subst (λ j. lookup j s.connections ≡ none) q e)
        | inr p ↦ ground (arith, p)
      ]

  -- A refused handshake changes nothing; an accepted one leaves no connection registered for the
  -- instance, and every other registration as it was.
  pub handle_connect_effect :
      (s : Server) (peer : Peer) (meta : UpstreamMeta)
      → let r = handle_connect quote version s peer meta in
        ((r.1.accepted ≡ false) × (r.0 ≡ s))
        ⊎ ((r.1.accepted ≡ true)
            × ((k : String)
                → lookup k r.0.connections ≡ (
                    if get_instance_key meta.namespace meta.instance_id == k
                    then none
                    else lookup k s.connections)))
  unfolding handle_connect
  handle_connect_effect s peer meta = elim (Bool-cases (missing meta)) [
    | inl p ↦ inl (ground (arith, p), ground (arith, p))
    | inr p ↦ elim (verify_cases peer meta) [
      | inl (e, a) ↦ inr (ground (arith, e, p), λ k. ground (arith, e, p, tear_down_exact s meta k))
      | inr (err, e, n) ↦ inl (ground (arith, e, p), ground (arith, e, p))
    ]
  ]
