-- ===== src/Http/Authz/Tests.antt =====
-- A user who may read, on a server that knows one token.
use aistio.Prelude.{
  String, ◌<>◌, ◌≡◌, ◌≢◌, ◌↔◌, refl, none, some, [], arith, ◌==◌, comparable_text,
  comparable_number, if◌then◌else◌,
}
use aistio.Prelude.Dict.{lookup}
use aistio.Prelude.Text.{NoSlash}
use aistio.Http.Authz.{
  Request, KubeClient, passed, aborted, admit, auth_middleware, kube_auth, bearer_token,
  authz_middleware, review_of, resolve_resource, resolve_namespace, http_method_to_verb,
  is_collection_route, after_prefix, cut_slash, resource_mapping, mapping_or_none, api_prefix,
}
use aistio.Http.Authz.Access.{IsAdmitted, admit_exact}
use aistio.Http.Authz.Routes.{resolve_route}

abbrev kube : KubeClient
kube = record {
  review_token =
      λ t. if t == "secret" then some (record { username = "ann"; groups = [] }) else none;
  review_access = λ s. some (s.verb == "get");
}

abbrev get_agent : Request
get_agent = record {
  full_path = "/api/v1/agents/:name";
  method = "GET";
  query_namespace = "default";
  authorization = "Bearer secret";
  username = "";
  groups = [];
}

abbrev as_ann : Request
as_ann = record get_agent { username = "ann" }

-- Ann may get an agent, and may not list them.
may_get : admit (some kube) "" get_agent ≡ passed as_ann
unfolding admit auth_middleware kube_auth bearer_token authz_middleware review_of resolve_resource
    resolve_namespace http_method_to_verb is_collection_route after_prefix cut_slash
    resource_mapping lookup
may_get = refl

may_not_list :
    admit (some kube) "" (record get_agent { full_path = "/api/v1/agents" }) ≡ aborted 403
unfolding admit auth_middleware kube_auth bearer_token authz_middleware review_of resolve_resource
    resolve_namespace http_method_to_verb is_collection_route after_prefix cut_slash
    resource_mapping lookup
may_not_list = refl

admit_exact_example :
    (admit (some kube) "" get_agent ≡ passed as_ann) ↔ IsAdmitted kube get_agent as_ann
admit_exact_example = admit_exact kube "" get_agent as_ann

abbrev segment : String
segment = "teams"

abbrev rest : String
rest = ":team/tasks"

teams-NoSlash : NoSlash segment
teams-NoSlash = (ground arith, (ground arith, (ground arith, (ground arith, (ground arith, tt)))))

teams_named : segment ≢ ""
teams_named = λ h. cc

resolve_route_example :
    let m = mapping_or_none (lookup segment resource_mapping) in
    (resolve_resource (api_prefix <> segment) ≡ m)
    × (resolve_resource (api_prefix <> segment <> "/" <> rest) ≡ m)
    × (http_method_to_verb (record get_agent { method = "GET"; full_path = api_prefix <> segment })
        ≡ "list")
    × (http_method_to_verb
          (record get_agent { method = "GET"; full_path = api_prefix <> segment <> "/" <> rest })
        ≡ (if rest == "" then "list" else "get"))
resolve_route_example = resolve_route segment rest get_agent teams-NoSlash teams_named
