-- ===== src/Http/Authz.antt =====
-- internal/httpapi/authz.go, and the authentication of internal/httpapi/server.go: what of a request
-- reaches its handler. The reviews of tokens and of access, which Kubernetes answers, are parameters;
-- logs are left out.
pub mod Access
pub mod Routes
mod Tests
use Prim.Native.Char.{code}
use aistio.Prelude.{
  ℕ, String, ◌<>◌, Bool, true, false, not, ◌&&◌, ◌||◌, Option, none, some, List, [], ◌∷◌, ◌==◌,
  comparable_text, comparable_number, if◌then◌else◌,
}
use aistio.Prelude.Dict.{Dict, lookup}

-- What the middleware reads of a request: `full_path` is the pattern of its route, `username` and
-- `groups` what the authentication has set, empty where it has set nothing.
pub record Request : Type 0 where
  pub full_path : String
  pub method : String
  pub query_namespace : String
  pub authorization : String
  pub username : String
  pub groups : List String

pub record Mapping : Type 0 where
  pub resource : String
  pub group : String

abbrev pub of_agentscope : String → Mapping
of_agentscope resource = record { resource = resource; group = "agentscope.io" }

unfoldable pub resource_mapping : Dict String Mapping
resource_mapping =
    ("teams", of_agentscope "agentteams")
    ∷ ("agents", of_agentscope "agents")
    ∷ ("sessions", of_agentscope "agentsessions")
    ∷ ("sandboxes", of_agentscope "sandboxclaims")
    ∷ ("modelconfigs", of_agentscope "modelconfigs")
    ∷ ("mcpservers", of_agentscope "mcpservers")
    ∷ []

-- What follows the prefix, if the text has it.
unfoldable pub after_prefix : String → String → Option String
after_prefix String.[] s = some s
after_prefix (String.◌∷◌ c p) String.[] = none
after_prefix (String.◌∷◌ c p) (String.◌∷◌ d s) =
    let rest = after_prefix p s in if code c == code d then rest else none

-- `strings.Cut` at the first slash: what is before it, and what is after it if there is one.
unfoldable pub cut_slash : String → String × Option String
cut_slash String.[] = (String.[], none)
cut_slash (String.◌∷◌ c s) =
    let (before, after) = cut_slash s in
    if code c == b'/' then (String.[], some s) else (String.◌∷◌ c before, after)

abbrev pub api_prefix : String
api_prefix = "/api/v1/"

abbrev pub no_mapping : Mapping
no_mapping = record { resource = ""; group = "" }

abbrev pub mapping_or_none : Option Mapping → Mapping
mapping_or_none none = no_mapping
mapping_or_none (some m) = m

unfoldable pub resolve_resource : String → Mapping
resolve_resource full_path = elim (after_prefix api_prefix full_path) [
  | none ↦ no_mapping
  | some rest ↦
      let (seg, after) = cut_slash rest in
      if seg == "" then no_mapping else mapping_or_none (lookup seg resource_mapping)
]

abbrev pub ends_there : Option String → Bool
ends_there none = true
ends_there (some after) = after == ""

unfoldable pub is_collection_route : String → Bool
is_collection_route full_path = elim (after_prefix api_prefix full_path) [
  | none ↦ false
  | some rest ↦ ends_there (cut_slash rest).1
]

unfoldable pub http_method_to_verb : Request → String
http_method_to_verb r =
    if r.method == "GET"
    then (if is_collection_route r.full_path then "list" else "get")
    else if r.method == "POST"
    then "create"
    else if (r.method == "PUT") || (r.method == "PATCH")
    then "update"
    else if r.method == "DELETE"
    then "delete"
    else "get"

unfoldable pub resolve_namespace : Request → String
resolve_namespace r = if r.query_namespace == "" then "" else r.query_namespace

pub record SubjectAccessReview : Type 0 where
  pub user : String
  pub groups : List String
  pub namespace : String
  pub verb : String
  pub group : String
  pub resource : String

unfoldable pub review_of : Request → SubjectAccessReview
review_of r =
    let m = resolve_resource r.full_path in
    record {
      user = r.username;
      groups = r.groups;
      namespace = resolve_namespace r;
      verb = http_method_to_verb r;
      group = m.group;
      resource = m.resource;
    }

-- The request goes on to its handler, or is answered with the status.
pub data Decision : Type 0 where
  passed : Request → Decision
  aborted : ℕ → Decision

abbrev pub after_review : Request → Option Bool → Decision
after_review r none = aborted 403
after_review r (some false) = aborted 403
after_review r (some true) = passed r

-- `review` is the answer to a SubjectAccessReview, `none` its error; there is none of it where the
-- server has no client of Kubernetes.
unfoldable pub authz_middleware : Option (SubjectAccessReview → Option Bool) → Request → Decision
authz_middleware none r = passed r
authz_middleware (some review) r =
    let reviewed = after_review r (review (review_of r)) in
    if r.username == ""
    then aborted 403
    else if (resolve_resource r.full_path).resource == ""
    then passed r
    else reviewed

pub record UserInfo : Type 0 where
  pub username : String
  pub groups : List String

-- What the API server answers to a token: the user, if it is authenticated.
pub record KubeClient : Type 0 where
  pub review_token : String → Option UserInfo
  pub review_access : SubjectAccessReview → Option Bool

-- `strings.TrimPrefix(auth, "Bearer ")`
unfoldable pub bearer_token : String → String
bearer_token auth = elim (after_prefix "Bearer " auth) [ none ↦ auth | some token ↦ token ]

abbrev pub with_user : Request → Option UserInfo → Decision
with_user r none = aborted 401
with_user r (some u) = passed (record r { username = u.username; groups = u.groups })

unfoldable pub kube_auth : KubeClient → Request → Decision
kube_auth kube r =
    let token = bearer_token r.authorization in
    let reviewed = with_user r (kube.review_token token) in
    if (token == "") || (token == r.authorization) then aborted 401 else reviewed

unfoldable pub auth_middleware : Option KubeClient → String → Request → Decision
auth_middleware (some kube) auth_token r = kube_auth kube r
auth_middleware none auth_token r =
    if auth_token == ""
    then passed r
    else if not (bearer_token r.authorization == auth_token) || (r.authorization == "")
    then aborted 401
    else passed r

abbrev pub access_of : Option KubeClient → Option (SubjectAccessReview → Option Bool)
access_of none = none
access_of (some kube) = some kube.review_access

abbrev pub then_authz : Option KubeClient → Decision → Decision
then_authz kube (aborted status) = aborted status
then_authz kube (passed r) = authz_middleware (access_of kube) r

-- The middleware of the group `/api/v1`, in its order.
unfoldable pub admit : Option KubeClient → String → Request → Decision
admit kube auth_token r = then_authz kube (auth_middleware kube auth_token r)
