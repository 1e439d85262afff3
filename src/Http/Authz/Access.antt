-- ===== src/Http/Authz/Access.antt =====
-- Which requests reach their handler.
use aistio.Prelude.{
  subst, String, ◌≡◌, ◌≢◌, refl, sym, ap, ◌∙◌, ◌⊎◌, ◌↔◌, inl, inr, Bool, true, false, ◌||◌, Option,
  none, some, arith, ◌==◌, ==_iff, comparable_text, Bool-cases, Option-cases,
}
use aistio.Http.Authz.{
  Request, resolve_resource, resolve_namespace, is_collection_route, http_method_to_verb,
  SubjectAccessReview, review_of, passed, after_review, authz_middleware, UserInfo, KubeClient,
  bearer_token, kube_auth, auth_middleware, admit,
}

-- The verb for the method of a request, and for its route where it is a GET.
abbrev pub IsVerb : Request → String → Type 0
IsVerb r verb =
    ((r.method ≡ "GET") × (is_collection_route r.full_path ≡ true) × (verb ≡ "list"))
    ⊎ ((r.method ≡ "GET") × (is_collection_route r.full_path ≡ false) × (verb ≡ "get"))
    ⊎ ((r.method ≡ "POST") × (verb ≡ "create"))
    ⊎ (((r.method ≡ "PUT") ⊎ (r.method ≡ "PATCH")) × (verb ≡ "update"))
    ⊎ ((r.method ≡ "DELETE") × (verb ≡ "delete"))
    ⊎ ((r.method ≢ "GET")
        × (r.method ≢ "POST")
        × (r.method ≢ "PUT")
        × (r.method ≢ "PATCH")
        × (r.method ≢ "DELETE")
        × (verb ≡ "get"))

http_method_to_verb-IsVerb : (r : Request) → IsVerb r (http_method_to_verb r)
unfolding http_method_to_verb
http_method_to_verb-IsVerb r =
    let get = ==_iff r.method "GET" in
    let post = ==_iff r.method "POST" in
    let put = ==_iff r.method "PUT" in
    let patch = ==_iff r.method "PATCH" in
    let del = ==_iff r.method "DELETE" in
    elim (Bool-cases (r.method == "GET")) [
      | inl a ↦ elim (Bool-cases (is_collection_route r.full_path)) [
        | inl c ↦ inl (get.0 a, c, ground (arith, a, c))
        | inr c ↦ inr (inl (get.0 a, c, ground (arith, a, c)))
      ]
      | inr a ↦ elim (Bool-cases (r.method == "POST")) [
        | inl b ↦ inr (inr (inl (post.0 b, ground (arith, a, b))))
        | inr b ↦ elim (Bool-cases (r.method == "PUT")) [
          | inl c ↦ inr (inr (inr (inl (inl (put.0 c), ground (arith, a, b, c)))))
          | inr c ↦ elim (Bool-cases (r.method == "PATCH")) [
            | inl d ↦ inr (inr (inr (inl (inr (patch.0 d), ground (arith, a, b, c, d)))))
            | inr d ↦ elim (Bool-cases (r.method == "DELETE")) [
              | inl e ↦ inr (inr (inr (inr (inl (del.0 e, ground (arith, a, b, c, d, e))))))
              | inr e ↦ inr (
                  inr (
                    inr (
                      inr (
                        inr (
                          (λ h. ground (arith, a, h, get)),
                          (λ h. ground (arith, b, h, post)),
                          (λ h. ground (arith, c, h, put)),
                          (λ h. ground (arith, d, h, patch)),
                          (λ h. ground (arith, e, h, del)),
                          ground (arith, a, b, c, d, e),
                        )))))
            ]
          ]
        ]
      ]
    ]

IsVerb-unique : (r : Request) (v : String) → IsVerb r v → http_method_to_verb r ≡ v
unfolding http_method_to_verb
IsVerb-unique r v (inl (a, c, e)) = rw (http_method_to_verb, a, c, e) refl
IsVerb-unique r v (inr (inl (a, c, e))) = rw (http_method_to_verb, a, c, e) refl
IsVerb-unique r v (inr (inr (inl (a, e)))) = rw (http_method_to_verb, a, e) refl
IsVerb-unique r v (inr (inr (inr (inl (inl a, e))))) = rw (http_method_to_verb, a, e) refl
IsVerb-unique r v (inr (inr (inr (inl (inr a, e))))) = rw (http_method_to_verb, a, e) refl
IsVerb-unique r v (inr (inr (inr (inr (inl (a, e)))))) = rw (http_method_to_verb, a, e) refl
IsVerb-unique r v (inr (inr (inr (inr (inr (a, b, c, d, k, e)))))) = ground (
  arith,
  a,
  b,
  c,
  d,
  k,
  e,
  ==_iff r.method "GET",
  ==_iff r.method "POST",
  ==_iff r.method "PUT",
  ==_iff r.method "PATCH",
  ==_iff r.method "DELETE",
)

-- What the access review is asked: may the user use the verb on the resource of the route, in the
-- namespace that the query names?
abbrev pub asked : Request → String → SubjectAccessReview
asked r verb = record {
  user = r.username;
  groups = r.groups;
  namespace = r.query_namespace;
  verb = verb;
  group = (resolve_resource r.full_path).group;
  resource = (resolve_resource r.full_path).resource;
}

-- The route is of no resource of the table, or the access review grants the verb of the request.
abbrev pub IsGranted : (SubjectAccessReview → Option Bool) → Request → Type 0
IsGranted review r =
    ((resolve_resource r.full_path).resource ≡ "")
    ⊎ ((verb : String) × IsVerb r verb × (review (asked r verb) ≡ some true))

review_of-asked :
    (r : Request) (verb : String) → http_method_to_verb r ≡ verb → review_of r ≡ asked r verb
unfolding review_of resolve_namespace
review_of-asked r verb e = elim (Bool-cases (r.query_namespace == "")) [
  | inl q ↦
      let n : r.query_namespace ≡ "" = (==_iff r.query_namespace "").0 q in ground (arith, e, q, n)
  | inr q ↦ ground (arith, e, q)
]

review_of-IsGranted :
    (review : SubjectAccessReview → Option Bool) (r : Request)
    → review (review_of r) ≡ some true
    → IsGranted review r
review_of-IsGranted review r h =
    let verb = http_method_to_verb r in
    inr (verb, http_method_to_verb-IsVerb r, ap review (sym (review_of-asked r verb refl)) ∙ h)

after_review-passed :
    (r r' : Request) (o : Option Bool) → after_review r o ≡ passed r' → (o ≡ some true) × (r' ≡ r)
after_review-passed r r' none h = cc
after_review-passed r r' (some false) h = cc
after_review-passed r r' (some true) h = (refl, cc)

authz-passed :
    (review : SubjectAccessReview → Option Bool) (r r' : Request)
    → authz_middleware (some review) r ≡ passed r'
    → (r' ≡ r) × (r.username ≢ "") × IsGranted review r
unfolding authz_middleware
authz-passed review r r' h =
    let res = (resolve_resource r.full_path).resource in
    elim (Bool-cases (r.username == "")) [
      | inl e ↦ absurd (ground (arith, h, e))
      | inr e ↦
          let named : r.username ≢ "" = λ q. ground (arith, e, q, ==_iff r.username "") in
          elim (Bool-cases (res == "")) [
            | inl u ↦
                let q : passed r ≡ passed r' = ground (arith, h, e, u) in
                (cc, named, inl ((==_iff res "").0 u))
            | inr u ↦
                let p = after_review-passed r r' (review (review_of r)) (ground (arith, h, e, u)) in
                (p.1, named, review_of-IsGranted review r p.0)
          ]
    ]

passed-authz :
    (review : SubjectAccessReview → Option Bool) (r : Request)
    → r.username ≢ ""
    → IsGranted review r
    → authz_middleware (some review) r ≡ passed r
unfolding authz_middleware
passed-authz review r n (inl u) =
    let res = (resolve_resource r.full_path).resource in
    ground (arith, n, u, ==_iff r.username "", ==_iff res "")
passed-authz review r n (inr (verb, v, q)) =
    let g : review (review_of r) ≡ some true =
      ap review (review_of-asked r verb (IsVerb-unique r verb v)) ∙ q in
    let res = (resolve_resource r.full_path).resource in
    ground (arith, n, g, ==_iff r.username "", ==_iff res "")

-- The request comes with a bearer token that the API server knows as the user's, the user has a
-- name, and the access is granted; the handler gets the request with the user's name and groups.
abbrev pub IsAdmitted : KubeClient → Request → Request → Type 0
IsAdmitted kube r r' =
    let token = bearer_token r.authorization in
    (token ≢ "")
    × (token ≢ r.authorization)
    × ((u : UserInfo) × (kube.review_token token ≡ some u)
        × (r' ≡ record r { username = u.username; groups = u.groups })
        × (u.username ≢ "")
        × IsGranted kube.review_access r')

-- Where the server has a client of Kubernetes, a request reaches its handler exactly where it
-- carries a bearer token that is authenticated as a user with a name, and either its route is of no
-- resource of the table or the access review grants the user the verb of the method (list or get,
-- create, update, delete; get for any other method) on the route's resource in the namespace that
-- the query names; the handler then gets the request with the user's name and groups.
pub admit_exact :
    (kube : KubeClient) (auth_token : String) (r r' : Request)
    → (admit (some kube) auth_token r ≡ passed r') ↔ IsAdmitted kube r r'
unfolding admit auth_middleware kube_auth
admit_exact kube auth_token r r' = (only, when)
  where
    only : admit (some kube) auth_token r ≡ passed r' → IsAdmitted kube r r'
    only h =
        let token = bearer_token r.authorization in
        let a = ==_iff token "" in
        let b = ==_iff token r.authorization in
        elim (Bool-cases ((token == "") || (token == r.authorization))) [
          | inl e ↦ absurd (ground (arith, h, e))
          | inr e ↦ elim (Option-cases (kube.review_token token)) [
            | inl n ↦ absurd (ground (arith, h, e, n))
            | inr (u, t) ↦
                let r1 = record r { username = u.username; groups = u.groups } in
                let (q, name, g) =
                  authz-passed kube.review_access r1 r' (ground (arith, h, e, t)) in
                (
                  (λ k. ground (arith, e, k, a)),
                  (λ k. ground (arith, e, k, b)),
                  (u, t, q, name, subst (IsGranted kube.review_access) (sym q) g),
                )
          ]
        ]

    when : IsAdmitted kube r r' → admit (some kube) auth_token r ≡ passed r'
    when (n, m, (u, t, q, name, g)) =
        let token = bearer_token r.authorization in
        let r1 = record r { username = u.username; groups = u.groups } in
        let p : authz_middleware (some kube.review_access) r1 ≡ passed r1 =
          passed-authz kube.review_access r1 name (subst (IsGranted kube.review_access) q g) in
        let e : ((token == "") || (token == r.authorization)) ≡ false =
          ground (arith, n, m, ==_iff token "", ==_iff token r.authorization) in
        ground (arith, e, t, p) ∙ ap passed (sym q)
