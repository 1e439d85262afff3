-- ===== src/Discovery/Adoption.antt =====
-- What adoption does to a deployment, and what undoing it leaves.
use aistio.Prelude.{
  String, ◌≡◌, refl, true, false, none, some, arith, ◌==◌, comparable_text, if◌then◌else◌,
}
use aistio.Prelude.Dict.{Dict, lookup, insert, delete, lookup-insert, lookup-delete}
use aistio.Api.Meta.{ObjectMeta}
use aistio.Kube.{Client, found, Wrote, written, conflict, write_failed}
use aistio.Kube.Retry.{outcome_of, succeeded}
use aistio.Kube.Stored.{IsStored}
use aistio.Kube.Updates.{Holds, named-Holds}
use aistio.Discovery.{
  Deployment, label_managed, label_agent_name, should_discover, AdoptRequest, AdoptResult,
  adopted_name, labelled, unlabel, adopt_result, is_written, adopt, unadopt,
}

abbrev pub deployment_meta : Deployment → ObjectMeta
deployment_meta d = d.metadata

-- The key and the labels of a deployment, which an update of it sends.
abbrev pub deployment_labels : Deployment → Dict String String
deployment_labels d = d.metadata.labels

-- The writes of the whole object in place of those of the status, for the law that a write is
-- read back.
abbrev pub whole : {S A : Type 0} → Client S A → Client S A
whole client = record client { update_status = client.update }

-- An adopted deployment's labels, and those after adoption is undone, next to the old ones.
abbrev pub IsAdopted : AdoptRequest → Dict String String → Dict String String → Type 0
IsAdopted req old new =
    (j : String)
    → lookup j new ≡ (
        if label_agent_name == j
        then some (adopted_name req)
        else if label_managed == j
        then some "true"
        else lookup j old)

abbrev pub IsUnadopted : Dict String String → Dict String String → Type 0
IsUnadopted old new =
    (j : String)
    → lookup j new
      ≡ (if label_agent_name == j then none else if label_managed == j then none else lookup j old)

labelled-IsAdopted :
    (dep : Deployment) (req : AdoptRequest)
    → IsAdopted req dep.metadata.labels (labelled dep req).metadata.labels
unfolding labelled
labelled-IsAdopted dep req j =
    let managed = insert label_managed "true" dep.metadata.labels in
    ground (
      arith,
      lookup-insert label_agent_name j (adopted_name req) managed,
      lookup-insert label_managed j "true" dep.metadata.labels,
    )

unlabel-IsUnadopted :
    (dep : Deployment) → IsUnadopted dep.metadata.labels (unlabel dep).metadata.labels
unfolding unlabel
unlabel-IsUnadopted dep j =
    let rest = delete label_managed dep.metadata.labels in
    ground (
      arith,
      lookup-delete label_agent_name j rest,
      lookup-delete label_managed j dep.metadata.labels,
    )

module _ {S : Type 0} (deployments : Client S Deployment)
    (stored : IsStored deployment_meta deployment_labels (whole deployments)) where
  -- The API server holds the deployment, with labels of which `P` holds.
  abbrev pub HoldsLabels : (Dict String String → Type 0) → S → String → String → Type 0
  HoldsLabels = Holds deployment_meta deployment_labels (whole deployments)

  adopted_written :
      (req : AdoptRequest) (w : Wrote Deployment) (res : AdoptResult)
      → adopt_result req w ≡ some res
      → outcome_of w ≡ succeeded
  adopted_written req (written b) res h = refl
  adopted_written req conflict res h = cc
  adopted_written req write_failed res h = cc

  unadopted_written : (w : Wrote Deployment) → is_written w ≡ true → outcome_of w ≡ succeeded
  unadopted_written (written b) h = refl
  unadopted_written conflict h = cc
  unadopted_written write_failed h = cc

  -- An adoption that has a result leaves the deployment with the label of a managed one and the
  -- agent's name, and with every other label as it was.
  adopt-IsAdopted :
      (s : S) (req : AdoptRequest) (dep : Deployment) (res : AdoptResult)
      → deployments.get s req.namespace req.deployment_name ≡ found dep
      → (adopt deployments s req).1 ≡ some res
      → HoldsLabels
          (IsAdopted req dep.metadata.labels)
          (adopt deployments s req).0
          req.namespace
          req.deployment_name
  unfolding adopt labelled
  adopt-IsAdopted s req dep res g h =
      let w = deployments.update s (labelled dep req) in
      rw (adopt, g)
        (named-Holds deployment_meta deployment_labels (whole deployments) stored
          (IsAdopted req dep.metadata.labels) s req.namespace req.deployment_name dep
          (labelled dep req) g refl refl (labelled-IsAdopted dep req)
          (adopted_written req w.1 res (rw (adopt, g) at h)))

  unadopt-IsUnadopted :
      (s : S) (namespace name : String) (dep : Deployment)
      → deployments.get s namespace name ≡ found dep
      → (unadopt deployments s name namespace).1 ≡ true
      → HoldsLabels
          (IsUnadopted dep.metadata.labels)
          (unadopt deployments s name namespace).0
          namespace
          name
  unfolding unadopt unlabel
  unadopt-IsUnadopted s namespace name dep g h =
      let w = deployments.update s (unlabel dep) in
      rw (unadopt, g)
        (named-Holds deployment_meta deployment_labels (whole deployments) stored
          (IsUnadopted dep.metadata.labels) s namespace name dep (unlabel dep) g refl refl
          (unlabel-IsUnadopted dep) (unadopted_written w.1 (rw (unadopt, g) at h)))

  adopted_discovered :
      (req : AdoptRequest) (old : Dict String String) (dep : Deployment)
      → IsAdopted req old dep.metadata.labels
      → should_discover dep ≡ true
  unfolding should_discover
  adopted_discovered req old dep a = rw (a label_managed) refl

  unadopted_hidden :
      (old : Dict String String) (dep : Deployment)
      → IsUnadopted old dep.metadata.labels
      → should_discover dep ≡ false
  unfolding should_discover
  unadopted_hidden old dep a = rw (a label_managed) refl

  -- An adopted deployment is discovered; once its adoption is undone it is not, and every label but
  -- the two of the adoption is what it was before. Both updates are without an error.
  pub unadopt-adopt :
      (s : S) (req : AdoptRequest) (dep : Deployment) (res : AdoptResult)
      → deployments.get s req.namespace req.deployment_name ≡ found dep
      → (adopt deployments s req).1 ≡ some res
      → (unadopt deployments (adopt deployments s req).0 req.deployment_name req.namespace).1 ≡ true
      → ((d : Deployment) × (deployments.get
              (adopt deployments s req).0
              req.namespace
              req.deployment_name
            ≡ found d)
          × (should_discover d ≡ true))
        × ((d : Deployment) × (deployments.get
                (unadopt deployments
                  (adopt deployments s req).0
                  req.deployment_name
                  req.namespace).0
                req.namespace
                req.deployment_name
              ≡ found d)
            × (should_discover d ≡ false)
            × IsUnadopted dep.metadata.labels d.metadata.labels)
  unadopt-adopt s req dep res g h k =
      let (d, f, a) = adopt-IsAdopted s req dep res g h in
      let (e, f', b) =
        unadopt-IsUnadopted (adopt deployments s req).0 req.namespace req.deployment_name d f k in
      let c : IsUnadopted dep.metadata.labels e.metadata.labels = λ j. ground (arith, a j, b j) in
      (
        (d, f, adopted_discovered req dep.metadata.labels d a),
        (e, f', unadopted_hidden d.metadata.labels e b, c),
      )
