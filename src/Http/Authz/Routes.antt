-- ===== src/Http/Authz/Routes.antt =====
-- What a route of the REST interface is a request for.
use Prim.Native.Char.{code}
use text.Mathlib.TextLemmas.{nil-append, cons-append}
use aistio.Prelude.{
  if◌then◌else◌, String, ◌<>◌, ◌≡◌, ◌≢◌, refl, ap, none, some, arith, ◌==◌, ==_iff, comparable_text,
  comparable_number,
}
use aistio.Prelude.Dict.{lookup}
use aistio.Prelude.Text.{NoSlash, flat_nil}
use aistio.Http.Authz.{
  after_prefix, api_prefix, cut_slash, resolve_resource, resource_mapping, mapping_or_none,
  is_collection_route, Request, http_method_to_verb,
}

after_prefix-append : (p s : String) → after_prefix p (p <> s) ≡ some s
unfolding after_prefix
after_prefix-append String.[] s = ap some (nil-append s)
after_prefix-append (String.◌∷◌ c p) s =
    rw (cons-append c p s) (ground (arith, after_prefix-append p s, ==_iff (code c) (code c)))

cut_slash-whole : (a : String) → NoSlash a → cut_slash a ≡ (a, none)
unfolding cut_slash
cut_slash-whole String.[] h = refl
cut_slash-whole (String.◌∷◌ c a) h =
    ground (arith, h.0, cut_slash-whole a h.1, ==_iff (code c) b'/')

cut_slash-append : (a b : String) → NoSlash a → cut_slash (a <> "/" <> b) ≡ (a, some b)
unfolding cut_slash
cut_slash-append String.[] b h = rw (flat_nil b) refl
cut_slash-append (String.◌∷◌ c a) b h =
    rw (cons-append c a ("/" <> b))
      (ground (arith, h.0, cut_slash-append a b h.1, ==_iff (code c) b'/'))

-- A route whose first segment is `seg`, ending there or going on, is a request for the resource that
-- the table has for `seg`, if it has one; the verb of a GET is `list` where nothing follows the
-- segment but a slash, and `get` otherwise.
pub resolve_route :
    (seg rest : String) (r : Request)
    → NoSlash seg
    → seg ≢ ""
    → let m = mapping_or_none (lookup seg resource_mapping) in
      (resolve_resource (api_prefix <> seg) ≡ m)
      × (resolve_resource (api_prefix <> seg <> "/" <> rest) ≡ m)
      × (http_method_to_verb (record r { method = "GET"; full_path = api_prefix <> seg }) ≡ "list")
      × (http_method_to_verb
            (record r { method = "GET"; full_path = api_prefix <> seg <> "/" <> rest })
          ≡ (if rest == "" then "list" else "get"))
unfolding resolve_resource is_collection_route http_method_to_verb
resolve_route seg rest r h n =
    let whole = after_prefix-append api_prefix seg in
    let longer = after_prefix-append api_prefix (seg <> "/" <> rest) in
    let cut = cut_slash-whole seg h in
    let cut' = cut_slash-append seg rest h in
    let named = ==_iff seg "" in
    (
      ground (arith, whole, cut, named, n),
      ground (arith, longer, cut', named, n),
      ground (arith, whole, cut),
      ground (arith, longer, cut'),
    )
