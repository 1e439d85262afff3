-- ===== src/Kube/Updates.antt =====
-- A read, a change and a write of an object's status, retried on a conflict.
use aistio.Prelude.{subst, String, ◌≡◌, refl, sym, ap, ◌∙◌}
use aistio.Api.Meta.{ObjectMeta}
use aistio.Kube.{Client, found, Wrote, written, conflict, write_failed}
use aistio.Kube.Retry.{Outcome, succeeded, outcome_of, IsRetry, Runs-last}
use aistio.Kube.Stored.{IsStored}

module _ {S A B : Type 0} (meta : A → ObjectMeta) (status : A → B) (client : Client S A) where
  -- The API server holds an object of the name, with a status of which `P` holds.
  abbrev pub Holds : (B → Type 0) → S → String → String → Type 0
  Holds P s namespace name = (a : A) × (client.get s namespace name ≡ found a) × P (status a)

  module _ (stored : IsStored meta status client) where
    -- An accepted write of a status is found under the name that the object was read by.
    pub named-Holds :
        (P : B → Type 0) (s : S) (namespace name : String) (a new : A)
        → client.get s namespace name ≡ found a
        → (meta new).namespace ≡ (meta a).namespace
        → (meta new).name ≡ (meta a).name
        → P (status new)
        → outcome_of (client.update_status s new).1 ≡ succeeded
        → Holds P (client.update_status s new).0 namespace name
    named-Holds P s namespace name a new g mk mn p w =
        written_case (client.update_status s new).1 refl w
      where
        written_case :
            (r : Wrote A)
            → (client.update_status s new).1 ≡ r
            → outcome_of r ≡ succeeded
            → Holds P (client.update_status s new).0 namespace name
        written_case (written b) e w =
            let (f, q) = stored.read_back s new b e in
            let (k, n) = stored.found_key s namespace name a g in
            let k' : (meta new).namespace ≡ namespace = mk ∙ k in
            let n' : (meta new).name ≡ name = mn ∙ n in (b, cc (f, k', n'), subst P (sym q) p)
        written_case conflict e w = cc
        written_case write_failed e w = cc

    pub written-Holds :
        (P : B → Type 0) (s : S) (namespace name : String) (a new : A)
        → client.get s namespace name ≡ found a
        → meta new ≡ meta a
        → P (status new)
        → outcome_of (client.update_status s new).1 ≡ succeeded
        → Holds P (client.update_status s new).0 namespace name
    written-Holds P s namespace name a new g m p w =
        named-Holds P s namespace name a new g (ap (λ x. x.namespace) m) (ap (λ x. x.name) m) p w

    -- What holds after each run without an error holds at the end of the retries.
    pub retried-Holds :
        (P : B → Type 0) (namespace name : String) (body : S → S × Outcome) (s : S)
        (retry : (S → S × Outcome) → S → S × Outcome)
        → IsRetry retry
        → ((u : S) → (body u).1 ≡ succeeded → Holds P (body u).0 namespace name)
        → (retry body s).1 ≡ succeeded
        → Holds P (retry body s).0 namespace name
    retried-Holds P namespace name body s retry retried each h =
        let (u, _, e) = Runs-last {0} (λ (u : S). Unit) body s _ (λ u p. tt) (retried body s) tt in
        subst (λ (r : S × Outcome). Holds P r.0 namespace name) (sym e)
          (each u (ap (λ r. r.1) (sym e) ∙ h))
