-- ===== src/Discovery/Tests.antt =====
-- A deployment that is adopted and then left alone again.
use aistio.Prelude.{◌≡◌, refl, true, false, some, [], ◌∷◌, comparable_text}
use aistio.Prelude.Dict.{lookup, insert, delete}
use aistio.Kube.{Client, found}
use aistio.Kube.Stored.{single, single-IsStored}
use aistio.Admission.Samples.{meta_of}
use aistio.Discovery.{
  Deployment, port, AdoptRequest, AdoptResult, adopt, unadopt, labelled, unlabel, should_discover,
  extract_metadata, extract_labelled,
}
use aistio.Discovery.Adoption.{deployment_meta, deployment_labels, IsUnadopted, unadopt-adopt}

abbrev shop : Deployment
shop = record { metadata = record (meta_of "shop") { labels = ("app", "shop") ∷ [] } }

abbrev deployments : Client Deployment Deployment
deployments = single deployment_meta

abbrev request : AdoptRequest
request = record {
  deployment_name = "shop";
  namespace = "default";
  agent_name = "clerk";
  runtime = "";
}

abbrev result : AdoptResult
result = record {
  agent_name = "clerk";
  deployment_name = "shop";
  namespace = "default";
  labels_applied = true;
}

adopts : (adopt deployments shop request).1 ≡ some result
unfolding adopt labelled lookup insert
adopts = refl

unadopts : (unadopt deployments (adopt deployments shop request).0 "shop" "default").1 ≡ true
unfolding adopt unadopt labelled unlabel lookup insert delete
unadopts = refl

-- The name of the agent is that of the request.
named_clerk :
    (extract_metadata (λ s. some (port 1)) (adopt deployments shop request).0).agent_name ≡ "clerk"
unfolding adopt labelled lookup insert extract_metadata extract_labelled should_discover
named_clerk = refl

unadopt-adopt_example :
    ((d : Deployment) × (deployments.get (adopt deployments shop request).0 "default" "shop"
        ≡ found d)
      × (should_discover d ≡ true))
    × ((d : Deployment) × (deployments.get
            (unadopt deployments (adopt deployments shop request).0 "shop" "default").0
            "default"
            "shop"
          ≡ found d)
        × (should_discover d ≡ false)
        × IsUnadopted shop.metadata.labels d.metadata.labels)
unadopt-adopt_example =
    unadopt-adopt deployments (single-IsStored deployment_meta deployment_labels) shop request shop
      result refl adopts unadopts
