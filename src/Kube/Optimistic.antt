-- ===== src/Kube/Optimistic.antt =====
-- Optimistic concurrency: what the API server documents of writes to the status of an object.
use aistio.Prelude.{ℕ, ◌+◌, ◌≤◌, String, ◌≡◌, ◌≢◌, List, [], ◌∷◌, arith}
use aistio.Api.Meta.{ObjectMeta}
use aistio.Kube.{Client, found, written, conflict}

module _ {S A : Type 0} (meta : A → ObjectMeta) (client : Client S A) where
  -- The current object of the name has at least the version `v`.
  abbrev pub IsAt : S → String → String → ℕ → Type 0
  IsAt s namespace name v =
      (a : A) × (client.get s namespace name ≡ found a) × (v ≤ (meta a).resource_version)

  -- A status write of an object that is not the current one is refused as a conflict and changes
  -- nothing; one that is accepted stores the object under a higher version; a write of any
  -- object leaves the current one of every name at its version or a higher one.
  pub record IsOptimistic : Type 0 where
    pub stale :
        (s : S) (a current : A)
        → client.get s (meta a).namespace (meta a).name ≡ found current
        → (meta current).resource_version ≢ (meta a).resource_version
        → client.update_status s a ≡ (s, conflict)
    pub accepted :
        (s : S) (a b : A)
        → (client.update_status s a).1 ≡ written b
        → IsAt
            (client.update_status s a).0
            (meta a).namespace
            (meta a).name
            ((meta a).resource_version + 1)
    pub advances :
        (s : S) (a : A) (namespace name : String) (v : ℕ)
        → IsAt s namespace name v
        → IsAt (client.update_status s a).0 namespace name v

  -- The status writes of any number of clients, in any order.
  abbrev pub writes : S → List A → S
  writes s [] = s
  writes s (a ∷ as') = writes (client.update_status s a).0 as'

  module _ (laws : IsOptimistic) where
    pub writes-IsAt :
        (s : S) (others : List A) (namespace name : String) (v : ℕ)
        → IsAt s namespace name v
        → IsAt (writes s others) namespace name v
    writes-IsAt s [] namespace name v h = h
    writes-IsAt s (a ∷ others) namespace name v h =
        writes-IsAt (client.update_status s a).0 others namespace name v
          (laws.advances s a namespace name v h)

    -- An object read before another write of its name was accepted cannot be written any more.
    pub write_after_write :
        (s : S) (a b mine : A) (others : List A)
        → (client.update_status s a).1 ≡ written b
        → (meta mine).namespace ≡ (meta a).namespace
        → (meta mine).name ≡ (meta a).name
        → (meta mine).resource_version ≤ (meta a).resource_version
        → let later = writes (client.update_status s a).0 others in
          client.update_status later mine ≡ (later, conflict)
    write_after_write s a b mine others w n m v =
        let later = writes (client.update_status s a).0 others in
        let (current, g, h) =
          writes-IsAt (client.update_status s a).0 others (meta a).namespace (meta a).name
            ((meta a).resource_version + 1) (laws.accepted s a b w) in
        laws.stale later mine current (rw (n, m) g) (λ e. omega arith)
