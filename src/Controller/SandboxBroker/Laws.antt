-- ===== src/Controller/SandboxBroker/Laws.antt =====
-- What the API server holds of a claim after it was reconciled.
use aistio.Prelude.{
  subst, ℕ, String, ◌≡◌, ◌≢◌, refl, sym, ap, ◌∙◌, ◌⊎◌, inl, inr, Bool, true, false, some, arith,
  ◌==◌, ==_iff, comparable_text, Bool-cases, if◌then◌else◌, List, [], ◌∷◌,
}
use aistio.Api.Sandbox.{SandboxClaim, SandboxClaimStatus, SandboxPhase}
use aistio.Kube.{Client, found, Wrote, written, conflict, write_failed}
use aistio.Kube.Stored.{IsStored}
use aistio.Kube.Retry.{succeeded, outcome_of}
use aistio.Kube.Updates.{Holds, written-Holds}
use aistio.Sandbox.Claims.{claim_meta, claim_status}
use aistio.Team.Lifecycle.{condition_text, set_team_condition}
use aistio.Team.Lifecycle.Conditions.{find_condition, set_team_condition_lookup}
use aistio.Controller.{Result}
use aistio.Controller.SandboxBroker.{
  set_condition_in_list, invalid_agent_ref, claim_accepted, not_implemented, is_bound_phase,
  refused_status, pending_status, after_update, write_claim, reconcile_claim, reconcile_got,
  reconcile,
}

-- The claim waits: it is pending, and its conditions say that it was accepted and that no sandbox
-- was provisioned.
abbrev pub IsWaiting : ℕ → SandboxClaimStatus → Type 0
IsWaiting now st =
    (st.phase ≡ SandboxPhase.pending)
    × (find_condition (claim_accepted now) st.conditions ≡ some (claim_accepted now))
    × (find_condition (not_implemented now) st.conditions ≡ some (not_implemented now))

-- The claim keeps its phase, and its condition says that it names no agent.
abbrev pub IsRefused : ℕ → SandboxPhase → SandboxClaimStatus → Type 0
IsRefused now phase st =
    (st.phase ≡ phase)
    × (find_condition (invalid_agent_ref now) st.conditions ≡ some (invalid_agent_ref now))

pending_status-IsWaiting :
    (st : SandboxClaimStatus) (now : ℕ) → IsWaiting now (pending_status st now)
unfolding pending_status condition_text set_team_condition
pending_status-IsWaiting st now =
    let a = claim_accepted now in
    let p = not_implemented now in
    let cs = set_condition_in_list a st.conditions in
    (
      refl,
      set_team_condition_lookup p a cs ∙ set_team_condition_lookup a a st.conditions,
      set_team_condition_lookup p p cs,
    )

refused_status-IsRefused :
    (st : SandboxClaimStatus) (now : ℕ) → IsRefused now st.phase (refused_status st now)
unfolding refused_status condition_text
refused_status-IsRefused st now =
    let c = invalid_agent_ref now in (refl, set_team_condition_lookup c c st.conditions)

no_error : {A : Type 0} (r : Wrote A) → (after_update r).error ≡ false → outcome_of r ≡ succeeded
no_error (written a) h = refl
no_error conflict h = cc
no_error write_failed h = cc

module _ {S : Type 0} (claims : Client S SandboxClaim)
    (stored : IsStored claim_meta claim_status claims) where
  -- What the API server holds of the claim: where it was bound, nothing is written; where it names no
  -- agent, it is refused, and otherwise it waits.
  abbrev pub IsReconciled : S → SandboxClaim → String → String → ℕ → S → Type 0
  IsReconciled s claim namespace name now s' =
      ((claim.status.phase ≡ SandboxPhase.bound) × (s' ≡ s))
      ⊎ ((claim.status.phase ≢ SandboxPhase.bound)
          × (claim.spec.agent_ref.name ≡ "")
          × Holds claim_meta claim_status claims (IsRefused now claim.status.phase) s' namespace
              name)
      ⊎ ((claim.status.phase ≢ SandboxPhase.bound)
          × (claim.spec.agent_ref.name ≢ "")
          × Holds claim_meta claim_status claims (IsWaiting now) s' namespace name)

  bound_phase : (p : SandboxPhase) → is_bound_phase p ≡ true → p ≡ SandboxPhase.bound
  bound_phase SandboxPhase.bound h = refl
  bound_phase SandboxPhase.unset h = cc
  bound_phase SandboxPhase.pending h = cc
  bound_phase SandboxPhase.released h = cc
  bound_phase (SandboxPhase.other s) h = cc

  unbound_phase : (p : SandboxPhase) → is_bound_phase p ≡ false → p ≢ SandboxPhase.bound
  unbound_phase p h e = let q = ap is_bound_phase e in cc (h, q)

  choose : (c : Bool) (x y : S × Result × List String) → c ≡ true → (if c then x else y) ≡ x
  choose true x y h = refl
  choose false x y h = cc

  pass : (c : Bool) (x y : S × Result × List String) → c ≡ false → (if c then x else y) ≡ y
  pass true x y h = cc
  pass false x y h = refl

  write_claim-Holds :
      (P : SandboxClaimStatus → Type 0) (s : S) (namespace name : String) (claim : SandboxClaim)
      (st : SandboxClaimStatus) (events : List String)
      → claims.get s namespace name ≡ found claim
      → P st
      → (write_claim claims s (record claim { status = st }) events).1.error ≡ false
      → Holds claim_meta claim_status claims P
          (write_claim claims s (record claim { status = st }) events).0
          namespace
          name
  write_claim-Holds P s namespace name claim st events g p h =
      let new : SandboxClaim = record claim { status = st } in
      written-Holds claim_meta claim_status claims stored P s namespace name claim new g refl p
        (no_error (claims.update_status s new).1 h)

  claim-IsReconciled :
      (s : S) (claim : SandboxClaim) (namespace name : String) (now : ℕ)
      → claims.get s namespace name ≡ found claim
      → (reconcile_claim claims s claim now).1.error ≡ false
      → IsReconciled s claim namespace name now (reconcile_claim claims s claim now).0
  unfolding reconcile_claim
  claim-IsReconciled s claim namespace name now g h =
      let IsGoal : S × Result × List String → Type 0 =
        λ r. IsReconciled s claim namespace name now r.0 in
      let phase = claim.status.phase in
      let agent = claim.spec.agent_ref.name in
      elim (Bool-cases (is_bound_phase phase)) [
        | inl b ↦
            subst IsGoal (sym (choose (is_bound_phase phase) _ _ b))
              (inl (bound_phase phase b, refl))
        | inr b ↦
            let unbound = unbound_phase phase b in
            elim (Bool-cases (agent == "")) [
              | inl e ↦
                  let q = pass (is_bound_phase phase) _ _ b ∙ choose (agent == "") _ _ e in
                  subst IsGoal (sym q) (
                    inr (
                      inl (
                        unbound,
                        (==_iff agent "").0 e,
                        write_claim-Holds (IsRefused now phase) s namespace name claim
                            (refused_status claim.status now) [] g
                            (refused_status-IsRefused claim.status now)
                            (ap (λ r. r.1.error) (sym q) ∙ h),
                      )))
              | inr e ↦
                  let q = pass (is_bound_phase phase) _ _ b ∙ pass (agent == "") _ _ e in
                  subst IsGoal (sym q) (
                    inr (
                      inr (
                        unbound,
                        (λ k. ground (arith, e, k, ==_iff agent "")),
                        write_claim-Holds (IsWaiting now) s namespace name claim
                            (pending_status claim.status now) ("SandboxNotImplemented" ∷ []) g
                            (pending_status-IsWaiting claim.status now)
                            (ap (λ r. r.1.error) (sym q) ∙ h),
                      )))
            ]
      ]

  -- A reconciliation without an error writes nothing for a claim that is bound; a claim that names no
  -- agent keeps its phase and gets the Accepted condition that says so; any other claim is stored as
  -- pending, accepted, with the Provisioned condition that provisioning is not implemented. So no
  -- claim is ever bound by it.
  pub reconcile-IsReconciled :
      (s : S) (claim : SandboxClaim) (namespace name : String) (now : ℕ)
      → claims.get s namespace name ≡ found claim
      → (reconcile claims s namespace name now).1.error ≡ false
      → IsReconciled s claim namespace name now (reconcile claims s namespace name now).0
  unfolding reconcile
  reconcile-IsReconciled s claim namespace name now g h =
      let q = ap (λ x. reconcile_got claims s x now) g in
      subst (λ (r : S × Result × List String). IsReconciled s claim namespace name now r.0) (sym q)
        (claim-IsReconciled s claim namespace name now g (ap (λ r. r.1.error) (sym q) ∙ h))
