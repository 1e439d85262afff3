-- ===== src/Team/Recovery/Laws.antt =====
-- Who is rescheduled, how often, and who may join.
use aistio.Prelude.{
  ltb, leb, ◌≤◌, ℕ, ◌+◌, ◌<◌, String, ◌≡◌, ◌≢◌, refl, ◌⊎◌, ◌↔◌, inl, inr, true, false, not, ◌&&◌,
  Option, none, some, List, [], ◌∷◌, ◌++◌, All, Memᴰ, arith, length, ◌==◌, ==_iff, comparable_text,
  comparable_number, Bool-cases, Option-cases,
}
use aistio.Api.Common.{ObjectReference}
use aistio.Api.Team.{AgentTeam, TeamMemberStatus, RecoverySpec, DynamicMembersSpec, MemberPhase}
use aistio.Team.Recovery.{
  FailureAction, update_status, reschedule, max_restarts, after_failure, fail_member,
  handle_member_failure, is_allowed, is_empty, check_limits, check_dynamic_member,
}

-- A failed member is rescheduled exactly when the team's policy is `Auto` and the member has been
-- restarted fewer times than the policy's limit, or than three times where it sets none.
pub after_failure_reschedules_iff :
    (recovery : Option RecoverySpec) (reason : String) (m : TeamMemberStatus)
    → ((after_failure recovery reason m).1 ≡ reschedule) ↔ (
        (r : RecoverySpec) × (recovery ≡ some r)
        × (r.reschedule_policy ≡ "Auto")
        × (m.restart_count < max_restarts r))
unfolding after_failure
after_failure_reschedules_iff none reason m = (λ h. cc, λ h. cc)
after_failure_reschedules_iff (some r) reason m =
    let auto = ==_iff r.reschedule_policy "Auto" in
    (λ h. (r, refl, ground (arith, h, auto), ground (arith, h)), λ (x, e, p, c). back x (cc e) p c)
  where
    back :
        (x : RecoverySpec)
        → r ≡ x
        → x.reschedule_policy ≡ "Auto"
        → m.restart_count < max_restarts x
        → (after_failure (some r) reason m).1 ≡ reschedule
    back x q p c =
        let p' : r.reschedule_policy ≡ "Auto" = cc (q, p) in
        let c' : m.restart_count < max_restarts r = rw q c in
        let on : (r.reschedule_policy == "Auto") ≡ true =
          (==_iff r.reschedule_policy "Auto").1 p' in
        let off : (r.reschedule_policy == "None") ≡ false = rw p' refl in
        ground (arith, on, off, c')

fail_member-found :
    (recovery : Option RecoverySpec) (name reason : String) (before after : List TeamMemberStatus)
    (m : TeamMemberStatus)
    → All (λ b. b.name ≢ name) before
    → m.name ≡ name
    → let r = after_failure recovery reason m in
      fail_member recovery name reason (before ++ (m ∷ after))
      ≡ some (before ++ (r.0 ∷ after), length before, r.1)
unfolding fail_member
fail_member-found recovery name reason [] after m o h = ground (arith, h, ==_iff m.name name)
fail_member-found recovery name reason (b ∷ bs) after m o h =
    let rest = fail_member-found recovery name reason bs after m o.1 h in
    let n : (b.name == name) ≡ false = elim (Bool-cases (b.name == name)) [
      | inl e ↦ absurd (o.0 ((==_iff b.name name).0 e))
      | inr e ↦ e
    ] in
    rw (fail_member, n, rest) refl

-- The limit on restarts that a policy sets, or three where it sets none.
abbrev pub IsLimit : RecoverySpec → ℕ → Type 0
IsLimit r n = ((r.max_restarts ≡ 0) × (n ≡ 3)) ⊎ ((0 < r.max_restarts) × (n ≡ r.max_restarts))

-- What becomes of a failed member, and of the team, before a rescheduled member is spawned again.
abbrev pub IsFailure :
    Option RecoverySpec → String → TeamMemberStatus → TeamMemberStatus → FailureAction → Type 0
IsFailure recovery reason m m' action =
    let lost = record m { phase = MemberPhase.lost; last_restart_reason = reason } in
    let gone = record m { phase = MemberPhase.failed; last_restart_reason = reason } in
    (((recovery ≡ none)
        ⊎ ((r : RecoverySpec) × (recovery ≡ some r) × (r.reschedule_policy ≡ "None")))
      × (m' ≡ lost)
      × (action ≡ update_status (some "no_policy")))
    ⊎ ((r : RecoverySpec) × (limit : ℕ) × (recovery ≡ some r)
        × (r.reschedule_policy ≢ "None")
        × IsLimit r limit
        × (((limit ≤ m.restart_count) × (m' ≡ gone) × (action ≡ update_status (some "exhausted")))
            ⊎ ((m.restart_count < limit)
                × (r.reschedule_policy ≡ "Auto")
                × (m' ≡ lost)
                × (action ≡ reschedule))
            ⊎ ((m.restart_count < limit)
                × (r.reschedule_policy ≢ "Auto")
                × (m' ≡ lost)
                × (action ≡ update_status none))))

max_restarts-IsLimit : (r : RecoverySpec) → IsLimit r (max_restarts r)
unfolding max_restarts
max_restarts-IsLimit r = elim (Bool-cases (ltb 0 r.max_restarts)) [
  | inl e ↦ inr (ground (arith, e), ground (arith, e))
  | inr e ↦ inl (ground (arith, e), ground (arith, e))
]

after_failure-IsFailure :
    (recovery : Option RecoverySpec) (reason : String) (m : TeamMemberStatus)
    → let r = after_failure recovery reason m in IsFailure recovery reason m r.0 r.1
unfolding after_failure
after_failure-IsFailure none reason m = inl (inl refl, refl, refl)
after_failure-IsFailure (some r) reason m =
    let off = ==_iff r.reschedule_policy "None" in
    let auto = ==_iff r.reschedule_policy "Auto" in
    elim (Bool-cases (r.reschedule_policy == "None")) [
      | inl e ↦ inl (inr (r, refl, off.0 e), ground (arith, e), ground (arith, e))
      | inr e ↦
          let n : r.reschedule_policy ≢ "None" = λ h. ground (arith, e, h, off) in
          let shared = max_restarts-IsLimit r in
          elim (Bool-cases (leb (max_restarts r) m.restart_count)) [
            | inl l ↦ inr (
              r,
              max_restarts r,
              refl,
              n,
              shared,
              inl (ground (arith, l), ground (arith, e, l), ground (arith, e, l)),
            )
            | inr l ↦ elim (Bool-cases (r.reschedule_policy == "Auto")) [
              | inl a ↦ inr (
                r,
                max_restarts r,
                refl,
                n,
                shared,
                inr (
                    inl (
                      ground (arith, l),
                      auto.0 a,
                      ground (arith, e, l, a),
                      ground (arith, e, l, a),
                    )),
              )
              | inr a ↦ inr (
                r,
                max_restarts r,
                refl,
                n,
                shared,
                inr (
                    inr (
                      ground (arith, l),
                      (λ h. ground (arith, a, h, auto)),
                      ground (arith, e, l, a),
                      ground (arith, e, l, a),
                    )),
              )
            ]
          ]
    ]

-- The failure of a member touches the first member of its name and no other, which keeps its place:
-- without a policy, or with `None`, it is lost; restarted as often as the policy's limit, or three
-- times where it sets none, it has failed; otherwise it is lost, and is to be rescheduled where the
-- policy is `Auto`.
pub handle_member_failure_exact :
    (team : AgentTeam) (name reason : String) (before after : List TeamMemberStatus)
    (m : TeamMemberStatus)
    → team.status.members ≡ before ++ (m ∷ after)
    → All (λ b. b.name ≢ name) before
    → m.name ≡ name
    → (m' : TeamMemberStatus) × (action : FailureAction) × (handle_member_failure team name reason
        ≡ some (
          record team { status = record team.status { members = before ++ (m' ∷ after) } },
          length before,
          action,
        ))
      × IsFailure team.spec.recovery reason m m' action
unfolding handle_member_failure
handle_member_failure_exact team name reason before after m e other h =
    let r = after_failure team.spec.recovery reason m in
    (
      r.0,
      r.1,
      rw
          (
            handle_member_failure,
            e,
            fail_member-found team.spec.recovery name reason before after m other h,
          )
          refl,
      after_failure-IsFailure team.spec.recovery reason m,
    )

-- The team has room for one more besides its lead, or no limit; and the agent is one of those
-- allowed, or all are.
abbrev pub IsAllowed : DynamicMembersSpec → String → Type 0
IsAllowed d agent_ref =
    (d.allowed_agent_refs ≡ [])
    ⊎ ((ref : ObjectReference) × Memᴰ ref d.allowed_agent_refs × (ref.name ≡ agent_ref))

abbrev pub MayJoin : AgentTeam → String → Type 0
MayJoin team agent_ref =
    (d : DynamicMembersSpec) × (team.spec.dynamic_members ≡ some d)
    × (d.enabled ≡ true)
    × (0 < d.max_total → length team.status.members + 1 < d.max_total)
    × IsAllowed d agent_ref

is_allowed-Mem :
    (refs : List ObjectReference) (agent_ref : String)
    → is_allowed refs agent_ref ≡ true
    → (ref : ObjectReference) × Memᴰ ref refs × (ref.name ≡ agent_ref)
is_allowed-Mem [] agent_ref h = cc
is_allowed-Mem (x ∷ refs) agent_ref h = elim (Bool-cases (x.name == agent_ref)) [
  | inl e ↦ (x, Memᴰ.head refl, (==_iff x.name agent_ref).0 e)
  | inr e ↦
      let (ref, m, q) = is_allowed-Mem refs agent_ref (ground (arith, h, e)) in
      (ref, Memᴰ.tail m, q)
]

Mem-is_allowed :
    (refs : List ObjectReference) (agent_ref : String) (ref : ObjectReference)
    → Memᴰ ref refs
    → ref.name ≡ agent_ref
    → is_allowed refs agent_ref ≡ true
Mem-is_allowed [] agent_ref ref m q = elim m [ ]
Mem-is_allowed (x ∷ refs) agent_ref ref (Memᴰ.head e) q =
    let n : x.name ≡ agent_ref = cc (e, q) in ground (arith, n, ==_iff x.name agent_ref)
Mem-is_allowed (x ∷ refs) agent_ref ref (Memᴰ.tail m) q =
    ground (arith, Mem-is_allowed refs agent_ref ref m q)

allowed_iff :
    (refs : List ObjectReference) (agent_ref : String)
    → ((not (is_empty refs) && not (is_allowed refs agent_ref)) ≡ false)
      ↔ ((refs ≡ []) ⊎ ((ref : ObjectReference) × Memᴰ ref refs × (ref.name ≡ agent_ref)))
allowed_iff [] agent_ref = (λ h. inl refl, λ h. refl)
allowed_iff (x ∷ refs) agent_ref = (
  λ h. inr (is_allowed-Mem (x ∷ refs) agent_ref (ground (arith, h))),
  λ s. elim s [
    | inl e ↦ absurd (cc e)
    | inr (ref, m, q) ↦ ground (arith, Mem-is_allowed (x ∷ refs) agent_ref ref m q)
  ],
)

module _ (quote : String → String) where
  limits_iff :
      (d : DynamicMembersSpec) (team_name : String) (n : ℕ) (agent_ref : String)
      → (check_limits quote d team_name n agent_ref ≡ none)
        ↔ ((d.enabled ≡ true) × (0 < d.max_total → n < d.max_total) × IsAllowed d agent_ref)
  unfolding check_limits
  limits_iff d team_name n agent_ref =
      let allowed = allowed_iff d.allowed_agent_refs agent_ref in
      (
        λ h. (ground (arith, h), λ p. ground (arith, h, p), allowed.0 (ground (arith, h))),
        λ (e, room, ok). ground (arith, e, room, allowed.1 ok),
      )

  -- A dynamic member may be spawned exactly when the team enables them, a limit that is set leaves
  -- room for one more besides the lead, and the agent is allowed, by name or because all are.
  pub check_dynamic_member_iff :
      (team : AgentTeam) (agent_ref : String)
      → (check_dynamic_member quote team agent_ref ≡ none) ↔ MayJoin team agent_ref
  unfolding check_dynamic_member
  check_dynamic_member_iff team agent_ref = elim (Option-cases team.spec.dynamic_members) [
    | inl e ↦ (λ h. absurd (ground (arith, h, e)), λ (d, q, _, _, _). absurd (cc (e, q)))
    | inr (d, e) ↦
        let name = team.metadata.name in
        let n = length team.status.members + 1 in
        (
          λ h.
              let r = (limits_iff d name n agent_ref).0 (rw (check_dynamic_member, e) at h) in
              (d, e, r.0, r.1, r.2),
          λ (x, q, on, room, ok).
              rw (check_dynamic_member, q) ((limits_iff x name n agent_ref).1 (on, room, ok)),
        )
  ]
