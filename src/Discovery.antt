-- ===== src/Discovery.antt =====
-- internal/discovery/label_discovery.go and adopt.go: which deployments are discovered as agents, and
-- how one is adopted. Of a deployment, a type of Kubernetes, the code reads the metadata; an empty
-- map of labels is nil, as it is when it is decoded. `strconv.ParseInt` is a parameter.
pub mod Adoption
mod Tests
use aistio.Prelude.{
  ℕ, String, ◌<>◌, Bool, true, false, Option, none, some, List, [], ◌∷◌, ◌==◌, comparable_text,
  if◌then◌else◌,
}
use aistio.Prelude.Dict.{Dict, lookup, insert, delete}
use aistio.Prelude.Decimal.{show}
use aistio.Api.Meta.{ObjectMeta}
use aistio.Kube.{Client, Got, found, not_found, get_failed, Wrote, written, conflict, write_failed}

pub record Deployment : Type 0 where
  pub metadata : ObjectMeta

-- An `int32`, with its sign.
pub data Port : Type 0 where
  port minus_port : ℕ → Port

abbrev pub label_managed : String
label_managed = "agentscope.io/managed"

abbrev pub label_agent_name : String
label_agent_name = "agentscope.io/agent-name"

abbrev pub anno_runtime : String
anno_runtime = "agentscope.io/runtime"

abbrev pub anno_agent_port : String
anno_agent_port = "agentscope.io/agent-port"

abbrev pub anno_contract_path : String
anno_contract_path = "agentscope.io/contract-path"

pub record DeploymentMetadata : Type 0 where
  pub agent_name : String
  pub runtime : String
  pub agent_port : Port
  pub contract_path : String
  pub is_managed : Bool

abbrev pub value_or : String → Option String → String
value_or default none = default
value_or default (some s) = if s == "" then default else s

abbrev pub is_true : Option String → Bool
is_true none = false
is_true (some s) = s == "true"

unfoldable pub should_discover : Deployment → Bool
should_discover dep = is_true (lookup label_managed dep.metadata.labels)

module _ (parse_int : String → Option Port) where
  abbrev pub port_or_default : Option String → Port
  port_or_default none = port 8080
  port_or_default (some s) =
      if s == "" then port 8080 else elim (parse_int s) [ none ↦ port 8080 | some p ↦ p ]

  unfoldable pub extract_labelled : Deployment → DeploymentMetadata
  extract_labelled dep = record {
    agent_name = value_or dep.metadata.name (lookup label_agent_name dep.metadata.labels);
    runtime = value_or "custom" (lookup anno_runtime dep.metadata.annotations);
    agent_port = port_or_default (lookup anno_agent_port dep.metadata.annotations);
    contract_path = value_or "/agentscope" (lookup anno_contract_path dep.metadata.annotations);
    is_managed = should_discover dep;
  }

  abbrev pub unlabelled : DeploymentMetadata
  unlabelled = record {
    agent_name = "";
    runtime = "custom";
    agent_port = port 8080;
    contract_path = "/agentscope";
    is_managed = false;
  }

  abbrev pub extract_by : Deployment → Dict String String → DeploymentMetadata
  extract_by dep [] = unlabelled
  extract_by dep (label ∷ labels) = extract_labelled dep

  unfoldable pub extract_metadata : Deployment → DeploymentMetadata
  extract_metadata dep = extract_by dep dep.metadata.labels

abbrev pub port_text : Port → String
port_text (port n) = show n
port_text (minus_port n) = "-" <> show n

unfoldable pub build_endpoint : String → DeploymentMetadata → String
build_endpoint pod_ip meta =
    "http://" <> pod_ip <> ":" <> port_text meta.agent_port <> meta.contract_path

pub record AdoptRequest : Type 0 where
  pub deployment_name : String
  pub namespace : String
  pub agent_name : String
  pub runtime : String

pub record AdoptResult : Type 0 where
  pub agent_name : String
  pub deployment_name : String
  pub namespace : String
  pub labels_applied : Bool

abbrev pub adopted_name : AdoptRequest → String
adopted_name req = if req.agent_name == "" then req.deployment_name else req.agent_name

unfoldable pub labelled : Deployment → AdoptRequest → Deployment
labelled dep req = record dep {
  metadata = record dep.metadata {
    labels =
        insert label_agent_name (adopted_name req)
          (insert label_managed "true" dep.metadata.labels);
    annotations =
        if req.runtime == ""
        then dep.metadata.annotations
        else insert anno_runtime req.runtime dep.metadata.annotations;
  };
}

unfoldable pub unlabel : Deployment → Deployment
unlabel dep = record dep {
  metadata = record dep.metadata {
    labels = delete label_agent_name (delete label_managed dep.metadata.labels);
  };
}

abbrev pub adopt_result : {A : Type 0} → AdoptRequest → Wrote A → Option AdoptResult
adopt_result req (written b) = some (record {
  agent_name = adopted_name req;
  deployment_name = req.deployment_name;
  namespace = req.namespace;
  labels_applied = true;
})
adopt_result req conflict = none
adopt_result req write_failed = none

abbrev pub is_written : {A : Type 0} → Wrote A → Bool
is_written (written b) = true
is_written conflict = false
is_written write_failed = false

module _ {S : Type 0} (deployments : Client S Deployment) where
  abbrev pub adopt_got : S → AdoptRequest → Got Deployment → S × Option AdoptResult
  adopt_got s req not_found = (s, none)
  adopt_got s req get_failed = (s, none)
  adopt_got s req (found dep) =
      let r = deployments.update s (labelled dep req) in (r.0, adopt_result req r.1)

  unfoldable pub adopt : S → AdoptRequest → S × Option AdoptResult
  adopt s req = adopt_got s req (deployments.get s req.namespace req.deployment_name)

  abbrev pub unadopt_got : S → Got Deployment → S × Bool
  unadopt_got s not_found = (s, false)
  unadopt_got s get_failed = (s, false)
  unadopt_got s (found dep) = let r = deployments.update s (unlabel dep) in (r.0, is_written r.1)

  -- The Boolean is that there is no error.
  unfoldable pub unadopt : S → String → String → S × Bool
  unadopt s deployment_name namespace = unadopt_got s (deployments.get s namespace deployment_name)
