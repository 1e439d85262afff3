-- ===== src/Kube/Memory.antt =====
-- A server that keeps the objects of one kind in memory: it shows that the laws can hold, and runs
-- the examples.
use aistio.Prelude.{
  ℕ, ◌+◌, String, ◌<>◌, ◌≡◌, ◌≢◌, inl, inr, Bool, true, false, Option, none, some, [], ◌∷◌, arith,
  ◌==◌, ==_iff, comparable_text, comparable_number, if◌then◌else◌, Bool-cases, Option-cases, keep,
}
use aistio.Prelude.Dict.{Dict, lookup, insert, delete as remove, values, lookup-insert}
use aistio.Api.Meta.{ObjectMeta}
use aistio.Kube.{Client, Got, found, not_found, Wrote, written, conflict, write_failed}
use aistio.Kube.Optimistic.{IsOptimistic, IsAt}

abbrev pub key_of : String → String → String
key_of namespace name = namespace <> "/" <> name

module _ {A : Type 0} where
  abbrev pub got : Option A → Got A
  got none = not_found
  got (some a) = found a

module _ {A : Type 0} (meta : A → ObjectMeta) (versioned : A → ℕ → A) where
  abbrev pub has_labels : Dict String String → A → Bool
  has_labels [] a = true
  has_labels ((k, v) ∷ labels) a =
      let rest = has_labels labels a in
      elim (lookup k (meta a).labels) [ none ↦ false | some w ↦ if w == v then rest else false ]

  abbrev pub store : Dict String A → A → ℕ → Dict String A × A
  store s a v = let b = versioned a v in (insert (key_of (meta a).namespace (meta a).name) b s, b)

  abbrev pub write_current : Dict String A → A → Option A → Dict String A × Wrote A
  write_current s a none = (s, write_failed)
  write_current s a (some current) =
      let r = store s a ((meta a).resource_version + 1) in
      if (meta current).resource_version == (meta a).resource_version
      then (r.0, written r.1)
      else (s, conflict)

  abbrev pub write : Dict String A → A → Dict String A × Wrote A
  write s a = write_current s a (lookup (key_of (meta a).namespace (meta a).name) s)

  abbrev pub memory : Client (Dict String A) A
  memory = record {
    get = λ s namespace name. got (lookup (key_of namespace name) s);
    list = λ s namespace labels. some (keep (has_labels labels) (values s));
    create = λ s a. let r = store s a 1 in (r.0, some r.1);
    update = write;
    update_status = write;
    delete = λ s a. (remove (key_of (meta a).namespace (meta a).name) s, true);
    delete_all_of = λ s namespace labels. [];
  }

  module _ (law : (a : A) (v : ℕ) → (meta (versioned a v)).resource_version ≡ v) where
    found_some : (o : Option A) (a : A) → got o ≡ found a → o ≡ some a
    found_some none a h = cc
    found_some (some b) a h = cc

    stale :
        (s : Dict String A) (a current : A)
        → memory.get s (meta a).namespace (meta a).name ≡ found current
        → (meta current).resource_version ≢ (meta a).resource_version
        → memory.update_status s a ≡ (s, conflict)
    stale s a current g n =
        let key = key_of (meta a).namespace (meta a).name in
        let e = found_some (lookup key s) current g in
        ground (arith, e, n, ==_iff (meta current).resource_version (meta a).resource_version)

    own_write :
        (s : Dict String A) (a : A) (v : ℕ)
        → lookup (key_of (meta a).namespace (meta a).name) (store s a v).0 ≡ some (versioned a v)
    own_write s a v =
        let key = key_of (meta a).namespace (meta a).name in
        ground (arith, lookup-insert key key (versioned a v) s, ==_iff key key)

    accepted :
        (s : Dict String A) (a b : A)
        → (memory.update_status s a).1 ≡ written b
        → IsAt meta memory
            (memory.update_status s a).0
            (meta a).namespace
            (meta a).name
            ((meta a).resource_version + 1)
    accepted s a b w =
        let key = key_of (meta a).namespace (meta a).name in
        let next = (meta a).resource_version + 1 in
        elim (Option-cases (lookup key s)) [
          | inl e ↦ absurd (ground (arith, w, e))
          | inr (current, e) ↦
              elim (Bool-cases ((meta current).resource_version == (meta a).resource_version)) [
                | inl p ↦ (
                  versioned a next,
                  ground (arith, e, p, own_write s a next),
                  omega (arith, law a next),
                )
                | inr p ↦ absurd (ground (arith, w, e, p))
              ]
        ]

    advances :
        (s : Dict String A) (a : A) (namespace name : String) (v : ℕ)
        → IsAt meta memory s namespace name v
        → IsAt meta memory (memory.update_status s a).0 namespace name v
    advances s a namespace name v (c, g, h) =
        let key = key_of (meta a).namespace (meta a).name in
        let mine = key_of namespace name in
        let next = (meta a).resource_version + 1 in
        let at : lookup mine s ≡ some c = found_some (lookup mine s) c g in
        elim (Option-cases (lookup key s)) [
          | inl e ↦ (c, ground (arith, e, g), h)
          | inr (current, e) ↦
              elim (Bool-cases ((meta current).resource_version == (meta a).resource_version)) [
                | inr p ↦ (c, ground (arith, e, p, g), h)
                | inl p ↦ elim (Bool-cases (key == mine)) [
                  | inr q ↦ (
                    c,
                    ground (arith, e, p, q, at, lookup-insert key mine (versioned a next) s),
                    h,
                  )
                  | inl q ↦
                      let same : key ≡ mine = (==_iff key mine).0 q in
                      let old : current ≡ c = cc (same, e, at) in
                      let version : (meta c).resource_version ≡ (meta a).resource_version = ground (
                        arith,
                        old,
                        (==_iff (meta current).resource_version (meta a).resource_version).0 p,
                      ) in
                      (
                        versioned a next,
                        ground (arith, e, p, q, lookup-insert key mine (versioned a next) s),
                        omega (arith, law a next, version),
                      )
                ]
              ]
        ]

    pub memory-IsOptimistic : IsOptimistic meta memory
    memory-IsOptimistic = record { stale = stale; accepted = accepted; advances = advances }

  pub memory-written :
      (s : Dict String A) (a b : A)
      → (memory.update_status s a).1 ≡ written b
      → b ≡ versioned a ((meta a).resource_version + 1)
  memory-written s a b w =
      elim (Option-cases (lookup (key_of (meta a).namespace (meta a).name) s)) [
        | inl e ↦ absurd (ground (arith, w, e))
        | inr (current, e) ↦
            elim (Bool-cases ((meta current).resource_version == (meta a).resource_version)) [
              | inl p ↦ ground (arith, w, e, p)
              | inr p ↦ absurd (ground (arith, w, e, p))
            ]
      ]

module _ {S A : Type 0} where
  -- A server that has no objects of a kind.
  abbrev pub no_objects : Client S A
  no_objects = record {
    get = λ s namespace name. not_found;
    list = λ s namespace labels. some [];
    create = λ s a. (s, none);
    update = λ s a. (s, write_failed);
    update_status = λ s a. (s, write_failed);
    delete = λ s a. (s, false);
    delete_all_of = λ s namespace labels. s;
  }
