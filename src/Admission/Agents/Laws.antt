-- ===== src/Admission/Agents/Laws.antt =====
-- What an admitted Agent is, and what the defaults leave of it.
use aistio.Prelude.{
  ℕ, String, ◌≡◌, ◌≢◌, refl, ◌⊎◌, ◌↔◌, inl, inr, true, Option, none, some, arith, ◌==◌, ==_iff,
  comparable_text, comparable_number, Bool-cases, Option-cases,
}
use aistio.Prelude.Dict.{Dict}
use aistio.Api.Common.{ObjectReference}
use aistio.Api.Agent.{Agent, AgentType, DeclarativeSpec, ByoSpec}
use aistio.Admission.Checks.{empty_iff}
use aistio.Admission.Agents.{
  is_registered, validate_declarative, validate_byo, validate_agent, or_one, default_number,
  default_text, default_declarative, default_byo, set_defaults,
}

-- The two forms of an agent: built by an adapter from its declaration, or brought along as an
-- image of a registered runtime or as an existing workload, whose replicas are not set.
abbrev pub IsDeclarative : {A : Type 0} → Dict String A → Agent → Type 0
IsDeclarative registry agent =
    (agent.spec.type ≡ AgentType.declarative)
    × ((d : DeclarativeSpec) × (agent.spec.declarative ≡ some d))
    × (agent.spec.byo ≡ none)
    × (is_registered registry agent.spec.runtime ≡ true)

abbrev IsImage : {A : Type 0} → Dict String A → String → ByoSpec → Type 0
IsImage registry runtime b =
    (b.image ≢ "") × (b.workload_ref ≡ none) × (is_registered registry runtime ≡ true)

abbrev IsWorkload : ByoSpec → Type 0
IsWorkload b =
    (b.image ≡ "") × ((w : ObjectReference) × (b.workload_ref ≡ some w)) × (b.replicas ≡ none)

abbrev pub IsByo : {A : Type 0} → Dict String A → Agent → Type 0
IsByo registry agent =
    (agent.spec.type ≡ AgentType.byo)
    × (agent.spec.declarative ≡ none)
    × ((b : ByoSpec) × (agent.spec.byo ≡ some b)
        × (IsImage registry agent.spec.runtime b ⊎ IsWorkload b))

two_types : {t : AgentType} → t ≡ AgentType.declarative → t ≡ AgentType.byo → ⊥
two_types e q = cc

module _ {A : Type 0} (quote : String → String) (registry : Dict String A) where
  declarative_iff :
      (runtime : String) (d : Option DeclarativeSpec) (b : Option ByoSpec)
      → (validate_declarative quote registry runtime d b ≡ none) ↔ (
          ((x : DeclarativeSpec) × (d ≡ some x))
          × (b ≡ none)
          × (is_registered registry runtime ≡ true))
  unfolding validate_declarative
  declarative_iff runtime none b = (λ h. cc, λ h. cc)
  declarative_iff runtime (some d) (some b) = (λ h. cc, λ h. cc)
  declarative_iff runtime (some d) none =
      (λ h. ((d, refl), refl, ground (arith, h)), λ h. ground (arith, h.2))

  byo_iff :
      (runtime : String) (d : Option DeclarativeSpec) (b : ByoSpec)
      → (validate_byo quote registry runtime d (some b) ≡ none)
        ↔ ((d ≡ none) × (IsImage registry runtime b ⊎ IsWorkload b))
  unfolding validate_byo
  byo_iff runtime (some d) b = (λ h. cc, λ h. cc)
  byo_iff runtime none b = (
    λ h. (refl, forth h),
    λ h. elim h.1 [
      | inl (i, w, r) ↦ ground (arith, i, w, r, ==_iff b.image "")
      | inr (i, (w, e), r) ↦ ground (arith, i, e, r, ==_iff b.image "")
    ],
  )
    where
      forth :
          validate_byo quote registry runtime none (some b) ≡ none
          → IsImage registry runtime b ⊎ IsWorkload b
      forth h = elim (Bool-cases (b.image == "")) [
        | inl p ↦ elim (Option-cases b.workload_ref) [
          | inl e ↦ absurd (ground (arith, h, p, e))
          | inr (w, e) ↦ inr (
            (==_iff b.image "").0 p,
            (w, e),
            elim (Option-cases b.replicas) [
              | inl q ↦ q
              | inr (n, q) ↦ absurd (ground (arith, h, p, e, q))
            ],
          )
        ]
        | inr p ↦ elim (Option-cases b.workload_ref) [
          | inl e ↦ inl ((empty_iff b.image).0 p, e, ground (arith, h, p, e))
          | inr (w, e) ↦ absurd (ground (arith, h, p, e))
        ]
      ]

  missing_byo :
      (agent : Agent)
      → agent.spec.byo ≡ none
      → validate_byo quote registry agent.spec.runtime agent.spec.declarative agent.spec.byo ≡ none
      → ⊥
  unfolding validate_byo
  missing_byo agent n h = ground (arith, n, h)

  no_byo :
      (agent : Agent)
      → agent.spec.byo ≡ none
      → agent.spec.type ≡ AgentType.byo
      → IsDeclarative registry agent ⊎ IsByo registry agent
      → ⊥
  no_byo agent n e (inl v) = two_types v.0 e
  no_byo agent n e (inr v) = let (b, q, _) = v.2 in cc (n, q)

  -- The webhook admits an agent exactly when it is declarative, with a declaration, no
  -- bring-your-own part and a registered runtime, or bring-your-own, with no declaration and
  -- either an image of a registered runtime or a reference to a workload and no replicas.
  pub validate_agent_iff :
      (agent : Agent)
      → (validate_agent quote registry agent ≡ none)
        ↔ (IsDeclarative registry agent ⊎ IsByo registry agent)
  unfolding validate_agent
  validate_agent_iff agent = cases agent agent.spec.type refl
    where
      cases :
          (agent : Agent) (t : AgentType)
          → agent.spec.type ≡ t
          → (validate_agent quote registry agent ≡ none)
            ↔ (IsDeclarative registry agent ⊎ IsByo registry agent)
      cases agent AgentType.declarative e =
          let i = declarative_iff agent.spec.runtime agent.spec.declarative agent.spec.byo in
          (
            λ h. let v = i.0 (rw (validate_agent, e) at h) in inl (e, v.0, v.1, v.2),
            λ s. elim s [
              | inl v ↦ rw (validate_agent, e) (i.1 (v.1, v.2, v.3))
              | inr v ↦ absurd (two_types e v.0)
            ],
          )
      cases agent AgentType.byo e = elim (Option-cases agent.spec.byo) [
        | inl n ↦ (
          λ h. absurd (missing_byo agent n (rw (validate_agent, e) at h)),
          λ s. absurd (no_byo agent n e s),
        )
        | inr (b, q) ↦
            let i = byo_iff agent.spec.runtime agent.spec.declarative b in
            (
              λ h. let v = i.0 (rw (validate_agent, e, q) at h) in inr (e, v.0, (b, q, v.1)),
              λ s. elim s [
                | inl v ↦ absurd (two_types v.0 e)
                | inr v ↦
                    let (c, r, w) = v.2 in
                    rw (validate_agent, e, r)
                      ((byo_iff agent.spec.runtime agent.spec.declarative c).1 (v.1, w))
              ],
            )
      ]
      cases agent AgentType.unset e = (λ h. absurd (ground (arith, h, e)), λ s. absurd (neither s))
        where
          neither : IsDeclarative registry agent ⊎ IsByo registry agent → ⊥
          neither (inl v) = cc (e, v.0)
          neither (inr v) = cc (e, v.0)
      cases agent (AgentType.other x) e =
          (λ h. absurd (ground (arith, h, e)), λ s. absurd (neither s))
        where
          neither : IsDeclarative registry agent ⊎ IsByo registry agent → ⊥
          neither (inl v) = cc (e, v.0)
          neither (inr v) = cc (e, v.0)

  declarative_kept :
      (runtime : String) (d : Option DeclarativeSpec) (b : Option ByoSpec)
      → validate_declarative quote registry runtime (default_declarative d) b
        ≡ validate_declarative quote registry runtime d b
  unfolding validate_declarative default_declarative
  declarative_kept runtime none b = refl
  declarative_kept runtime (some d) b = refl

  byo_kept :
      (runtime : String) (d : Option DeclarativeSpec) (b : Option ByoSpec)
      → validate_byo quote registry runtime d (default_byo b)
        ≡ validate_byo quote registry runtime d b
  unfolding validate_byo default_byo
  byo_kept runtime d none = refl
  byo_kept runtime d (some b) = refl

  -- The defaults change nothing that the validation reads: the same agents are admitted, and with
  -- the same message refused, before and after them.
  pub validate_agent-set_defaults :
      (agent : Agent)
      → validate_agent quote registry (set_defaults agent) ≡ validate_agent quote registry agent
  unfolding validate_agent set_defaults
  validate_agent-set_defaults agent = cases agent agent.spec.type refl
    where
      cases :
          (agent : Agent) (t : AgentType)
          → agent.spec.type ≡ t
          → validate_agent quote registry (set_defaults agent) ≡ validate_agent quote registry agent
      cases agent AgentType.declarative e =
          ground
            (arith, e, declarative_kept agent.spec.runtime agent.spec.declarative agent.spec.byo)
      cases agent AgentType.byo e =
          ground (arith, e, byo_kept agent.spec.runtime agent.spec.declarative agent.spec.byo)
      cases agent AgentType.unset e = ground (arith, e)
      cases agent (AgentType.other s) e = ground (arith, e)

or_one_idem : (o : Option ℕ) → or_one (or_one o) ≡ or_one o
or_one_idem none = refl
or_one_idem (some n) = refl

default_number_idem :
    (n default : ℕ) → default_number (default_number n default) default ≡ default_number n default
default_number_idem n default = ground arith

default_text-same : (default : String) → default_text default default ≡ default
default_text-same default = elim (Bool-cases (default == "")) [
  | inl e ↦ ground (arith, e)
  | inr e ↦ ground (arith, e)
]

default_text_idem :
    (s default : String) → default_text (default_text s default) default ≡ default_text s default
default_text_idem s default = elim (Bool-cases (s == "")) [
  | inl e ↦ ground (arith, e, default_text-same default)
  | inr e ↦ ground (arith, e)
]

default_declarative_idem :
    (d : Option DeclarativeSpec)
    → default_declarative (default_declarative d) ≡ default_declarative d
unfolding default_declarative
default_declarative_idem none = refl
default_declarative_idem (some d) = cc (
  or_one_idem d.replicas,
  default_number_idem d.agent_config.max_turns 50,
  default_text_idem d.agent_config.session_affinity "none",
)

default_byo_idem : (b : Option ByoSpec) → default_byo (default_byo b) ≡ default_byo b
unfolding default_byo
default_byo_idem none = refl
default_byo_idem (some b) =
    cc (default_number_idem b.agent_port 8080, default_text_idem b.contract_path "/agentscope")

-- The defaults are stable: setting them again changes nothing.
pub set_defaults_idem : (agent : Agent) → set_defaults (set_defaults agent) ≡ set_defaults agent
unfolding set_defaults
set_defaults_idem agent = cases agent agent.spec.type refl
  where
    cases :
        (agent : Agent) (t : AgentType)
        → agent.spec.type ≡ t
        → set_defaults (set_defaults agent) ≡ set_defaults agent
    cases agent AgentType.declarative e =
        ground (arith, e, default_declarative_idem agent.spec.declarative)
    cases agent AgentType.byo e = ground (arith, e, default_byo_idem agent.spec.byo)
    cases agent AgentType.unset e = ground (arith, e)
    cases agent (AgentType.other s) e = ground (arith, e)
