-- ===== src/Sandbox/Claims.antt =====
-- The phases of a claim, over its sandbox's life.
use aistio.Prelude.{subst, String, ◌≡◌, refl, sym, ap, ◌∙◌, inl, inr, true, some, arith, Bool-cases}
use aistio.Api.Meta.{ObjectMeta}
use aistio.Api.Common.{ObjectReference}
use aistio.Api.Sandbox.{SandboxClaim, SandboxClaimStatus, SandboxPhase}
use aistio.Kube.{Client, found, Wrote, written, conflict, write_failed}
use aistio.Kube.Retry.{outcome_of, succeeded}
use aistio.Kube.Stored.{IsStored}
use aistio.Kube.Updates.{Holds, written-Holds}
use aistio.Sandbox.{
  SandboxObject, SandboxClient, sandbox_name, new_sandbox, bound_to, released_claim, is_written,
  provision, release,
}

abbrev pub claim_meta : SandboxClaim → ObjectMeta
claim_meta c = c.metadata

abbrev pub claim_status : SandboxClaim → SandboxClaimStatus
claim_status c = c.status

claim_written : (w : Wrote SandboxClaim) → is_written w ≡ true → outcome_of w ≡ succeeded
claim_written (written b) h = refl
claim_written conflict h = cc
claim_written write_failed h = cc

module _ {S : Type 0} (claims : Client S SandboxClaim) (sandboxes : SandboxClient S)
    (sandbox_namespace : String) where
  -- Creating and deleting sandboxes leaves the claims as they are.
  pub record IsApart : Type 0 where
    pub create_apart :
        (s : S) (x : SandboxObject) (namespace name : String)
        → claims.get (sandboxes.create s x).0 namespace name ≡ claims.get s namespace name
    pub delete_apart :
        (s : S) (ns n namespace name : String)
        → claims.get (sandboxes.delete s ns n) namespace name ≡ claims.get s namespace name

  -- The claim is bound to the sandbox that is made for it.
  abbrev pub IsBound : SandboxClaim → SandboxClaimStatus → Type 0
  IsBound claim st =
      (st.phase ≡ SandboxPhase.bound)
      × (st.sandbox_ref
          ≡ some (record { kind = ""; name = sandbox_name claim; namespace = sandbox_namespace }))

  abbrev pub IsReleased : SandboxClaimStatus → Type 0
  IsReleased st = st.phase ≡ SandboxPhase.released

  abbrev pub HoldsClaim : (SandboxClaimStatus → Type 0) → S → String → String → Type 0
  HoldsClaim = Holds claim_meta claim_status claims

  module _ (stored : IsStored claim_meta claim_status claims) (apart : IsApart) where
    provision-IsBound :
        (s : S) (claim : SandboxClaim) (namespace name : String)
        → claims.get s namespace name ≡ found claim
        → (provision claims sandboxes sandbox_namespace s claim).1 ≡ true
        → HoldsClaim
            (IsBound claim)
            (provision claims sandboxes sandbox_namespace s claim).0
            namespace
            name
    unfolding provision bound_to
    provision-IsBound s claim namespace name g h =
        let made = sandboxes.create s (new_sandbox sandbox_namespace claim) in
        let sent = bound_to sandbox_namespace claim in
        elim (Bool-cases made.1) [
          | inr e ↦ absurd (ground (arith, h, e))
          | inl e ↦
              rw (provision, e)
                (written-Holds claim_meta claim_status claims stored (IsBound claim) made.0
                  namespace name claim sent
                  (apart.create_apart s (new_sandbox sandbox_namespace claim) namespace name ∙ g)
                  refl (refl, refl)
                  (claim_written (claims.update_status made.0 sent).1 (rw (provision, e) at h)))
        ]

    release-IsReleased :
        (s : S) (claim : SandboxClaim) (ref : ObjectReference) (namespace name : String)
        → claims.get s namespace name ≡ found claim
        → claim.status.sandbox_ref ≡ some ref
        → (release claims sandboxes sandbox_namespace s claim).1 ≡ true
        → HoldsClaim IsReleased
            (release claims sandboxes sandbox_namespace s claim).0
            namespace
            name
    unfolding release
    release-IsReleased s claim ref namespace name g e h =
        let s' = sandboxes.delete s ref.namespace ref.name in
        let w = claims.update_status s' (released_claim claim) in
        let r : release claims sandboxes sandbox_namespace s claim ≡ (w.0, is_written w.1) =
          ground (arith, e) in
        rw r (
          written-Holds claim_meta claim_status claims stored IsReleased s' namespace name claim
            (released_claim claim) (apart.delete_apart s ref.namespace ref.name namespace name ∙ g)
            refl refl (claim_written w.1 (ap (λ x. x.1) (sym r) ∙ h)))

    found_same : (a b : SandboxClaim) → found a ≡ found b → a ≡ b
    found_same a b h = cc

    -- A claim that is provisioned without an error is stored as bound to the sandbox of its name; the
    -- claim found then, released without an error, is stored as released.
    release-provision :
        (s : S) (claim c : SandboxClaim) (namespace name : String)
        → claims.get s namespace name ≡ found claim
        → (provision claims sandboxes sandbox_namespace s claim).1 ≡ true
        → claims.get (provision claims sandboxes sandbox_namespace s claim).0 namespace name
          ≡ found c
        → (release claims sandboxes sandbox_namespace
            (provision claims sandboxes sandbox_namespace s claim).0
            c).1
          ≡ true
        → IsBound claim c.status
          × HoldsClaim IsReleased
              (release claims sandboxes sandbox_namespace
                (provision claims sandboxes sandbox_namespace s claim).0
                c).0
              namespace
              name
    release-provision s claim c namespace name g h f k =
        let s' = (provision claims sandboxes sandbox_namespace s claim).0 in
        let (d, f', b) = provision-IsBound s claim namespace name g h in
        let bound : IsBound claim c.status =
          subst (λ (x : SandboxClaim). IsBound claim x.status) (found_same d c (sym f' ∙ f)) b in
        (bound, release-IsReleased s' c _ namespace name f bound.1 k)
