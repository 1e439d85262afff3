-- ===== src/Team/Recovery.antt =====
-- internal/team/lifecycle.go: what happens to a team when a member fails, and who may join it. The
-- recovery session that a reschedule spawns is the spawner's; its name is an argument here. A count
-- of restarts, an `int32`, starts at 0 and is taken to be no more than 2 ^ 31 - 1.
pub mod Laws
mod Tests
use aistio.Prelude.{
  ℕ, suc, ◌+◌, ◌%◌, ◌^◌, String, ◌<>◌, Bool, true, false, not, ◌&&◌, ◌||◌, Option, none, some, List,
  [], ◌∷◌, length, ◌==◌, comparable_text, comparable_number, if◌then◌else◌, ltb, leb,
}
use aistio.Prelude.Decimal.{show}
use aistio.Api.Common.{ObjectReference}
use aistio.Api.Team.{AgentTeam, TeamMemberStatus, RecoverySpec, MemberPhase, DynamicMembersSpec}

-- The metric that is recorded, and whether the member is rescheduled or the status written.
pub data FailureAction : Type 0 where
  update_status : Option String → FailureAction
  reschedule : FailureAction

unfoldable pub max_restarts : RecoverySpec → ℕ
max_restarts r = if ltb 0 r.max_restarts then r.max_restarts else 3

abbrev pub lost_member : TeamMemberStatus → String → TeamMemberStatus
lost_member m reason = record m { phase = MemberPhase.lost; last_restart_reason = reason }

unfoldable pub after_failure :
    Option RecoverySpec → String → TeamMemberStatus → TeamMemberStatus × FailureAction
after_failure none reason m = (lost_member m reason, update_status (some "no_policy"))
after_failure (some r) reason m =
    let lost = lost_member m reason in
    if r.reschedule_policy == "None"
    then (lost, update_status (some "no_policy"))
    else if leb (max_restarts r) m.restart_count
    then (record lost { phase = MemberPhase.failed }, update_status (some "exhausted"))
    else if r.reschedule_policy == "Auto"
    then (lost, reschedule)
    else (lost, update_status none)

-- The members after the loop, the index of the member found, and what is done about it.
abbrev Found : Type 0
Found = List TeamMemberStatus × ℕ × FailureAction

abbrev passed_over : TeamMemberStatus → Option Found → Option Found
passed_over m none = none
passed_over m (some (ms, i, action)) = some (m ∷ ms, suc i, action)

-- The loop over the members, which returns at the first one of the name.
unfoldable pub fail_member :
    Option RecoverySpec → String → String → List TeamMemberStatus → Option Found
fail_member recovery name reason [] = none
fail_member recovery name reason (m ∷ ms) =
    let rest = fail_member recovery name reason ms in
    let (m', action) = after_failure recovery reason m in
    if m.name == name then some (m' ∷ ms, 0, action) else passed_over m rest

-- `none` is the error that the member is not found.
unfoldable pub handle_member_failure :
    AgentTeam → String → String → Option (AgentTeam × ℕ × FailureAction)
handle_member_failure team name reason =
    elim (fail_member team.spec.recovery name reason team.status.members) [
      | none ↦ none
      | some (ms, i, action) ↦
          some (record team { status = record team.status { members = ms } }, i, action)
    ]

-- The member after its recovery session has been spawned.
unfoldable pub rescheduled : TeamMemberStatus → String → String → TeamMemberStatus
rescheduled m session now = record m {
  session_id = session;
  phase = MemberPhase.working;
  restart_count = (m.restart_count + 1) % 2 ^ 32;
  last_restart_at = now;
}

abbrev is_allowed : List ObjectReference → String → Bool
is_allowed [] agent_ref = false
is_allowed (ref ∷ refs) agent_ref = (ref.name == agent_ref) || is_allowed refs agent_ref

abbrev is_empty : List ObjectReference → Bool
is_empty [] = true
is_empty (ref ∷ refs) = false

module _ (quote : String → String) where
  unfoldable pub check_limits : DynamicMembersSpec → String → ℕ → String → Option String
  check_limits d team_name current_count agent_ref =
      if not d.enabled
      then some ("dynamic members not enabled for team " <> team_name)
      else if ltb 0 d.max_total && leb d.max_total current_count
      then some ("team " <> team_name <> " reached maxTotal " <> show d.max_total)
      else if not (is_empty d.allowed_agent_refs) && not (is_allowed d.allowed_agent_refs agent_ref)
      then some
          ("agentRef " <> quote agent_ref <> " not in allowedAgentRefs for team " <> team_name)
      else none

  -- The tests before a dynamic member is spawned; the error, if there is one.
  unfoldable pub check_dynamic_member : AgentTeam → String → Option String
  check_dynamic_member team agent_ref = elim team.spec.dynamic_members [
    | none ↦ some ("dynamic members not enabled for team " <> team.metadata.name)
    | some d ↦ check_limits d team.metadata.name (length team.status.members + 1) agent_ref
  ]
