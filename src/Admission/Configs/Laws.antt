-- ===== src/Admission/Configs/Laws.antt =====
-- What an admitted MCPServer, ModelConfig and AgentSession is.
use aistio.Prelude.{
  String, ◌≡◌, ◌≢◌, refl, ◌⊎◌, ◌↔◌, inl, inr, Option, none, some, arith, ◌==◌, ==_iff,
  comparable_text, Bool-cases,
}
use aistio.Prelude.Dict.{lookup}
use aistio.Api.Mcp.{McpServer, McpServerType, RemoteMcpConfig, StdioMcpConfig}
use aistio.Api.Model.{ModelConfig}
use aistio.Api.Session.{AgentSession}
use aistio.Admission.Checks.{is_some, check_iff, empty_iff}
use aistio.Admission.Configs.{
  validate_remote, validate_stdio, validate_server, validate_model_config, validate_session,
}

remote_iff :
    (o : Option RemoteMcpConfig)
    → (validate_remote o ≡ none) ↔ ((r : RemoteMcpConfig) × (o ≡ some r) × (r.url ≢ ""))
unfolding validate_remote
remote_iff none = (λ h. cc, λ h. cc)
remote_iff (some r) = (
  λ h. (r, refl, λ e. ground (arith, h, e, ==_iff r.url "")),
  λ (x, q, n). ground (arith, q, n, ==_iff x.url ""),
)

stdio_iff :
    (o : Option StdioMcpConfig)
    → (validate_stdio o ≡ none) ↔ ((r : StdioMcpConfig) × (o ≡ some r) × (r.command ≢ ""))
unfolding validate_stdio
stdio_iff none = (λ h. cc, λ h. cc)
stdio_iff (some r) = (
  λ h. (r, refl, λ e. ground (arith, h, e, ==_iff r.command "")),
  λ (x, q, n). ground (arith, q, n, ==_iff x.command ""),
)

abbrev pub IsRemote : McpServer → Type 0
IsRemote server =
    (server.spec.type ≡ McpServerType.remote_type)
    × ((r : RemoteMcpConfig) × (server.spec.remote ≡ some r) × (r.url ≢ ""))

abbrev pub IsStdio : McpServer → Type 0
IsStdio server =
    (server.spec.type ≡ McpServerType.stdio_type)
    × ((r : StdioMcpConfig) × (server.spec.stdio ≡ some r) × (r.command ≢ ""))

-- The webhook admits an MCPServer exactly when it is remote with a URL or stdio with a command.
pub validate_server_iff :
    (quote : String → String) (server : McpServer)
    → (validate_server quote server ≡ none) ↔ (IsRemote server ⊎ IsStdio server)
unfolding validate_server
validate_server_iff quote server = cases server server.spec.type refl
  where
    cases :
        (server : McpServer) (t : McpServerType)
        → server.spec.type ≡ t
        → (validate_server quote server ≡ none) ↔ (IsRemote server ⊎ IsStdio server)
    cases server McpServerType.remote_type e = (
      λ h. inl (e, (remote_iff server.spec.remote).0 (rw (validate_server, e) at h)),
      λ s. elim s [
        | inl v ↦ rw (validate_server, e) ((remote_iff server.spec.remote).1 v.1)
        | inr v ↦ absurd (cc (e, v.0))
      ],
    )
    cases server McpServerType.stdio_type e = (
      λ h. inr (e, (stdio_iff server.spec.stdio).0 (rw (validate_server, e) at h)),
      λ s. elim s [
        | inl v ↦ absurd (cc (e, v.0))
        | inr v ↦ rw (validate_server, e) ((stdio_iff server.spec.stdio).1 v.1)
      ],
    )
    cases server McpServerType.unset e = (
      λ h. absurd (ground (arith, h, e)),
      λ s. elim s [ inl v ↦ absurd (cc (e, v.0)) | inr v ↦ absurd (cc (e, v.0)) ],
    )
    cases server (McpServerType.other x) e = (
      λ h. absurd (ground (arith, h, e)),
      λ s. elim s [ inl v ↦ absurd (cc (e, v.0)) | inr v ↦ absurd (cc (e, v.0)) ],
    )

-- The webhook admits a ModelConfig exactly when it names a provider and a model and, if it names a
-- secret, also the key in it.
pub validate_model_config_iff :
    (mc : ModelConfig)
    → (validate_model_config mc ≡ none) ↔ (
        (mc.spec.provider ≢ "")
        × (mc.spec.model ≢ "")
        × (mc.spec.api_key_secret ≢ "" → mc.spec.api_key_secret_key ≢ ""))
unfolding validate_model_config
validate_model_config_iff mc =
    let secret = ==_iff mc.spec.api_key_secret "" in
    let key = ==_iff mc.spec.api_key_secret_key "" in
    (
      λ h.
          let a = (check_iff _ _ _).0 h in
          let b = (check_iff _ _ _).0 a.1 in
          (
            (empty_iff mc.spec.provider).0 a.0,
            (empty_iff mc.spec.model).0 b.0,
            λ n e. ground (arith, b.1, n, e, secret, key),
          ),
      λ (p, m, k). (check_iff _ _ _).1 (
        (empty_iff mc.spec.provider).1 p,
        (check_iff _ _ _).1 (
          (empty_iff mc.spec.model).1 m,
          elim (Bool-cases (mc.spec.api_key_secret == "")) [
            | inl e ↦ ground (arith, e)
            | inr e ↦ ground (
              arith,
              e,
              (empty_iff mc.spec.api_key_secret_key).1 (k ((empty_iff mc.spec.api_key_secret).0 e)),
            )
          ],
        ),
      ),
    )

-- The webhook admits a session exactly when it names an agent and has both or neither of the
-- labels of its team and its role.
pub validate_session_iff :
    (session : AgentSession)
    → (validate_session session ≡ none) ↔ (
        (session.spec.agent_ref.name ≢ "")
        × (is_some (lookup "agentscope.io/team" session.metadata.labels)
            ≡ is_some (lookup "agentscope.io/team-role" session.metadata.labels)))
unfolding validate_session
validate_session_iff session =
    let t = Bool-cases (is_some (lookup "agentscope.io/team" session.metadata.labels)) in
    let r = Bool-cases (is_some (lookup "agentscope.io/team-role" session.metadata.labels)) in
    let n = ==_iff session.spec.agent_ref.name "" in
    (λ h. (ground (arith, h, n), ground (arith, h, t, r)), λ (a, e). ground (arith, a, e, n, t, r))
