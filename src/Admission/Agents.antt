-- ===== src/Admission/Agents.antt =====
-- internal/discovery/webhook.go and defaulting_webhook.go: the validation and the defaults of an
-- Agent. The adapters that are registered are a map from the names of the runtimes.
pub mod Laws
use aistio.Prelude.{
  ℕ, String, ◌<>◌, Bool, true, false, not, ◌&&◌, Option, none, some, List, [], ◌∷◌, ◌==◌,
  comparable_text, comparable_number, if◌then◌else◌,
}
use aistio.Prelude.Dict.{Dict, lookup}
use aistio.Api.Agent.{Agent, AgentType, DeclarativeSpec, ByoSpec}
use aistio.Admission.Checks.{check, is_some}

-- `adapter.IsRegistered`, on the registry of the adapters.
unfoldable pub is_registered {ℓ} : {A : Type ℓ} → Dict String A → String → Bool
is_registered registry runtime = is_some (lookup runtime registry)

-- The text of an agent's type.
unfoldable pub type_text : AgentType → String
type_text AgentType.unset = ""
type_text AgentType.declarative = "Declarative"
type_text AgentType.byo = "BYO"
type_text (AgentType.other s) = s

module _ {A : Type 0} (quote : String → String) (registry : Dict String A) where
  abbrev pub unsupported : String → String
  unsupported runtime =
      "unsupported runtime " <> quote runtime <> ": no data plane adapter registered"

  unfoldable pub validate_declarative :
      String → Option DeclarativeSpec → Option ByoSpec → Option String
  validate_declarative runtime declarative byo =
      check (not (is_some declarative)) "spec.declarative is required when type=Declarative" (
        check (is_some byo) "spec.byo must be empty when type=Declarative"
          (check (not (is_registered registry runtime)) (unsupported runtime) none))

  unfoldable pub validate_byo : String → Option DeclarativeSpec → Option ByoSpec → Option String
  validate_byo runtime declarative none = some "spec.byo is required when type=BYO"
  validate_byo runtime declarative (some byo) =
      let has_image = not (byo.image == "") in
      let has_workload_ref = is_some byo.workload_ref in
      check (is_some declarative) "spec.declarative must be empty when type=BYO" (
        check (not has_image && not has_workload_ref)
          "spec.byo must specify either image or workloadRef"
          (check (has_image && has_workload_ref)
            "spec.byo.image and spec.byo.workloadRef are mutually exclusive"
            (check (has_workload_ref && is_some byo.replicas)
              "spec.byo.replicas is not applicable in workloadRef mode"
              (check (has_image && not (is_registered registry runtime)) (unsupported runtime)
                none))))

  -- The error, if there is one.
  unfoldable pub validate_agent : Agent → Option String
  validate_agent agent = elim agent.spec.type [
    | AgentType.declarative ↦
        validate_declarative agent.spec.runtime agent.spec.declarative agent.spec.byo
    | AgentType.byo ↦ validate_byo agent.spec.runtime agent.spec.declarative agent.spec.byo
    | _ ↦ some ("spec.type must be Declarative or BYO, got " <> quote (type_text agent.spec.type))
  ]

abbrev or_one : Option ℕ → Option ℕ
or_one none = some 1
or_one (some n) = some n

abbrev default_number : ℕ → ℕ → ℕ
default_number n default = if n == 0 then default else n

abbrev default_text : String → String → String
default_text s default = if s == "" then default else s

unfoldable pub default_declarative : Option DeclarativeSpec → Option DeclarativeSpec
default_declarative none = none
default_declarative (some d) = some (record d {
  replicas = or_one d.replicas;
  agent_config = record d.agent_config {
    max_turns = default_number d.agent_config.max_turns 50;
    session_affinity = default_text d.agent_config.session_affinity "none";
  };
})

unfoldable pub default_byo : Option ByoSpec → Option ByoSpec
default_byo none = none
default_byo (some b) = some (record b {
  agent_port = default_number b.agent_port 8080;
  contract_path = default_text b.contract_path "/agentscope";
})

unfoldable pub set_defaults : Agent → Agent
set_defaults agent = elim agent.spec.type [
  | AgentType.declarative ↦ record agent {
    spec = record agent.spec { declarative = default_declarative agent.spec.declarative };
  }
  | AgentType.byo ↦ record agent { spec = record agent.spec { byo = default_byo agent.spec.byo } }
  | _ ↦ agent
]
