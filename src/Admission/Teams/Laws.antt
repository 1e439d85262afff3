-- ===== src/Admission/Teams/Laws.antt =====
-- What an admitted AgentTeam is.
use aistio.Prelude.{
  subst, ℕ, ◌+◌, ◌≤◌, String, ◌≡◌, ◌≢◌, refl, sym, ◌⊎◌, ◌↔◌, inl, inr, true, false, Option, none,
  some, List, [], ◌∷◌, map, All, Memᴰ, length, arith, ◌==◌, ==_iff, comparable_text,
  comparable_number, Bool-cases, Option-cases,
}
use aistio.Api.Team.{AgentTeam, TeamMemberSpec, DynamicMembersSpec, TeamConfig, TeamLifecycle}
use aistio.Admission.Checks.{check_iff, empty_iff}
use aistio.Admission.Teams.{
  is_seen, or_next, validate_members, validate_dynamic, is_shutdown_policy, validate_config,
  validate_duration, validate_lifecycle, validate_team,
}

-- No name stands twice in the list.
abbrev pub DistinctNames : List String → Type 0
DistinctNames [] = Unit
DistinctNames (x ∷ xs) = (Memᴰ x xs → ⊥) × DistinctNames xs

abbrev pub IsNamed : TeamMemberSpec → Type 0
IsNamed m = (m.name ≢ "") × (m.agent_ref.name ≢ "")

abbrev member_name : TeamMemberSpec → String
member_name m = m.name

abbrev pub names : List TeamMemberSpec → List String
names ms = map member_name ms

abbrev pub HasRoom : ℕ → Option DynamicMembersSpec → Type 0
HasRoom members o =
    (d : DynamicMembersSpec) → o ≡ some d → d.enabled ≡ true → members + 1 ≤ d.max_total

abbrev pub IsPolicy : String → Type 0
IsPolicy p = (p ≡ "all-complete") ⊎ (p ≡ "lead-decides") ⊎ (p ≡ "manual") ⊎ (p ≡ "timeout")

abbrev pub HasPolicy : Option TeamConfig → Type 0
HasPolicy o = (c : TeamConfig) → o ≡ some c → c.shutdown_policy ≢ "" → IsPolicy c.shutdown_policy

abbrev pub HasDuration : (String → Option String) → Option TeamLifecycle → Type 0
HasDuration duration_error o =
    (l : TeamLifecycle) → o ≡ some l → l.max_duration ≢ "" → duration_error l.max_duration ≡ none

is_seen-Mem : (x : String) (seen : List String) → is_seen x seen ≡ false → Memᴰ x seen → ⊥
is_seen-Mem x [] h m = elim m [ ]
is_seen-Mem x (s ∷ seen) h (Memᴰ.head q) = ground (arith, h, q, ==_iff s x)
is_seen-Mem x (s ∷ seen) h (Memᴰ.tail m) = is_seen-Mem x seen (ground (arith, h)) m

Mem-is_seen : (x : String) (seen : List String) → (Memᴰ x seen → ⊥) → is_seen x seen ≡ false
Mem-is_seen x [] n = refl
Mem-is_seen x (s ∷ seen) n = elim (Bool-cases (s == x)) [
  | inl e ↦ absurd (n (Memᴰ.head (sym ((==_iff s x).0 e))))
  | inr e ↦ ground (arith, e, Mem-is_seen x seen (λ m. n (Memᴰ.tail m)))
]

is_seen_iff : (x : String) (seen : List String) → (is_seen x seen ≡ false) ↔ (Memᴰ x seen → ⊥)
is_seen_iff x seen = (is_seen-Mem x seen, Mem-is_seen x seen)

or_next_iff : (o rest : Option String) → (or_next o rest ≡ none) ↔ ((o ≡ none) × (rest ≡ none))
or_next_iff none rest = (λ h. (refl, h), λ h. h.1)
or_next_iff (some m) rest = (λ h. cc, λ h. cc)

-- No member's name is one of those seen before.
abbrev AllNew : List String → List TeamMemberSpec → Type 0
AllNew seen ms = All (λ m. Memᴰ m.name seen → ⊥) ms

-- Membership in a list with one entry more.
absent-cons : (x y : String) (ys : List String) → (x ≢ y) → (Memᴰ x ys → ⊥) → Memᴰ x (y ∷ ys) → ⊥
absent-cons x y ys d n (Memᴰ.head q) = d q
absent-cons x y ys d n (Memᴰ.tail m) = n m

AllNew-forth :
    (x : String) (seen : List String) (ms : List TeamMemberSpec)
    → AllNew (x ∷ seen) ms
    → AllNew seen ms × (Memᴰ x (names ms) → ⊥)
AllNew-forth x seen [] h = (tt, λ m. elim m [ ])
AllNew-forth x seen (m ∷ ms) (h, t) =
    let r = AllNew-forth x seen ms t in
    ((λ k. h (Memᴰ.tail k), r.0), absent-cons x m.name (names ms) (λ q. h (Memᴰ.head (sym q))) r.1)

AllNew-back :
    (x : String) (seen : List String) (ms : List TeamMemberSpec)
    → AllNew seen ms
    → (Memᴰ x (names ms) → ⊥)
    → AllNew (x ∷ seen) ms
AllNew-back x seen [] h n = tt
AllNew-back x seen (m ∷ ms) (h, t) n = (
  absent-cons m.name x seen (λ q. n (Memᴰ.head (sym q))) h,
  AllNew-back x seen ms t (λ k. n (Memᴰ.tail k)),
)

AllNew-none : (ms : List TeamMemberSpec) → AllNew [] ms
AllNew-none [] = tt
AllNew-none (m ∷ ms) = (λ k. elim k [ ], AllNew-none ms)

is_shutdown_policy-IsPolicy : (p : String) → (is_shutdown_policy p ≡ true) ↔ IsPolicy p
unfolding is_shutdown_policy
is_shutdown_policy-IsPolicy p = (
  λ h. elim (Bool-cases (p == "all-complete")) [
    | inl e ↦ inl ((==_iff p "all-complete").0 e)
    | inr a ↦ elim (Bool-cases (p == "lead-decides")) [
      | inl e ↦ inr (inl ((==_iff p "lead-decides").0 e))
      | inr b ↦ elim (Bool-cases (p == "manual")) [
        | inl e ↦ inr (inr (inl ((==_iff p "manual").0 e)))
        | inr c ↦ inr (inr (inr ((==_iff p "timeout").0 (ground (arith, h, a, b, c)))))
      ]
    ]
  ],
  λ s. elim s [
    | inl e ↦ ground (arith, (==_iff p "all-complete").1 e)
    | inr (inl e) ↦ ground (arith, (==_iff p "lead-decides").1 e)
    | inr (inr (inl e)) ↦ ground (arith, (==_iff p "manual").1 e)
    | inr (inr (inr e)) ↦ ground (arith, (==_iff p "timeout").1 e)
  ],
)

ap-IsPolicy :
    (c x : TeamConfig)
    → some c ≡ some x
    → (c.shutdown_policy ≢ "" → IsPolicy c.shutdown_policy)
    → x.shutdown_policy ≢ ""
    → IsPolicy x.shutdown_policy
ap-IsPolicy c x e f n =
    let q : c ≡ x = cc e in subst (λ y. (y.shutdown_policy ≢ "") → IsPolicy y.shutdown_policy) q f n

module _ (quote : String → String) (duration_error : String → Option String) where
  members_iff :
      (i : ℕ) (seen : List String) (ms : List TeamMemberSpec)
      → (validate_members quote duration_error i seen ms ≡ none)
        ↔ (All IsNamed ms × DistinctNames (names ms) × AllNew seen ms)
  unfolding validate_members
  members_iff i seen [] = (λ h. (tt, tt, tt), λ h. refl)
  members_iff i seen (m ∷ ms) =
      let rest = members_iff (i + 1) (m.name ∷ seen) ms in
      (
        λ h.
            let a = (check_iff _ _ _).0 h in
            let b = (check_iff _ _ _).0 a.1 in
            let c = (check_iff _ _ _).0 b.1 in
            let r = rest.0 c.1 in
            let n = AllNew-forth m.name seen ms r.2 in
            (
              (((empty_iff m.name).0 a.0, (empty_iff m.agent_ref.name).0 c.0), r.0),
              (n.1, r.1),
              ((is_seen_iff m.name seen).0 b.0, n.0),
            ),
        λ h.
            let (((a, c), all), (d, ds), (k, ks)) = h in
            (check_iff _ _ _).1 (
              (empty_iff m.name).1 a,
              (check_iff _ _ _).1 (
                (is_seen_iff m.name seen).1 k,
                (check_iff _ _ _).1 (
                  (empty_iff m.agent_ref.name).1 c,
                  rest.1 (all, ds, AllNew-back m.name seen ms ks d),
                ),
              ),
            ),
      )

  dynamic_iff :
      (n : ℕ) (o : Option DynamicMembersSpec)
      → (validate_dynamic quote duration_error n o ≡ none) ↔ HasRoom n o
  unfolding validate_dynamic
  dynamic_iff n none = (λ h d e. cc, λ h. refl)
  dynamic_iff n (some d) = (
    λ h x e on. ground (arith, h, e, on),
    λ r. elim (Bool-cases d.enabled) [
      | inl e ↦ ground (arith, e, r d refl e)
      | inr e ↦ ground (arith, e)
    ],
  )

  config_iff :
      (o : Option TeamConfig) → (validate_config quote duration_error o ≡ none) ↔ HasPolicy o
  unfolding validate_config
  config_iff none = (λ h c e. cc, λ h. refl)
  config_iff (some c) = (
    λ h x e n.
        ap-IsPolicy c x e
          (λ m.
            (is_shutdown_policy-IsPolicy c.shutdown_policy).0
              (ground (arith, h, m, ==_iff c.shutdown_policy "")))
          n,
    λ h. elim (Bool-cases (c.shutdown_policy == "")) [
      | inl e ↦ ground (arith, e)
      | inr e ↦ ground (
        arith,
        (is_shutdown_policy-IsPolicy c.shutdown_policy).1
            (h c refl ((empty_iff c.shutdown_policy).0 e)),
      )
    ],
  )

  lifecycle_iff :
      (o : Option TeamLifecycle)
      → (validate_lifecycle quote duration_error o ≡ none) ↔ HasDuration duration_error o
  unfolding validate_lifecycle validate_duration
  lifecycle_iff none = (λ h l e. cc, λ h. refl)
  lifecycle_iff (some l) = elim (Bool-cases (l.max_duration == "")) [
    | inl e ↦ (λ h x q n. ground (arith, q, e, n, ==_iff l.max_duration ""), λ h. ground (arith, e))
    | inr e ↦ elim (Option-cases (duration_error l.max_duration)) [
      | inl d ↦ (λ h x q n. ground (arith, q, d), λ h. ground (arith, e, d))
      | inr (err, d) ↦ (
        λ h x q n. absurd (ground (arith, h, e, d)),
        λ h. absurd (let k = h l refl ((empty_iff l.max_duration).0 e) in ground (arith, k, d)),
      )
    ]
  ]

  -- The webhook admits a team exactly when its lead names an agent, every member has a name and an
  -- agent, no two members share a name, enabled dynamic members leave room for the lead and the
  -- static members, and the shutdown policy and the maximal duration, where set, are known.
  pub validate_team_iff :
      (team : AgentTeam)
      → (validate_team quote duration_error team ≡ none) ↔ (
          (team.spec.lead.agent_ref.name ≢ "")
          × (All IsNamed team.spec.members × DistinctNames (names team.spec.members))
          × HasRoom (length team.spec.members) team.spec.dynamic_members
          × HasPolicy team.spec.config
          × HasDuration duration_error team.spec.lifecycle)
  unfolding validate_team
  validate_team_iff team =
      let m = members_iff 0 [] team.spec.members in
      let d = dynamic_iff (length team.spec.members) team.spec.dynamic_members in
      let c = config_iff team.spec.config in
      let l = lifecycle_iff team.spec.lifecycle in
      (
        λ h.
            let p = (check_iff _ _ _).0 h in
            let q = (or_next_iff _ _).0 p.1 in
            let r = (or_next_iff _ _).0 q.1 in
            let s = (or_next_iff _ _).0 r.1 in
            let ms = m.0 q.0 in ((empty_iff _).0 p.0, (ms.0, ms.1), d.0 r.0, c.0 s.0, l.0 s.1),
        λ h.
            let (lead, (all, distinct), room, policy, duration) = h in
            (check_iff _ _ _).1 (
              (empty_iff _).1 lead,
              (or_next_iff _ _).1 (
                m.1 (all, distinct, AllNew-none team.spec.members),
                (or_next_iff _ _).1 (d.1 room, (or_next_iff _ _).1 (c.1 policy, l.1 duration)),
              ),
            ),
      )
