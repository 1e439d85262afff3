-- ===== src/Admission/Teams.antt =====
-- internal/discovery/agentteam_webhook.go: the validation of an AgentTeam. The number of members of
-- an object that the API server stores stays far below 2 ^ 31, so that `int32` does not wrap.
-- `time.ParseDuration` is given by its error, and `%q` of fmt by a function.
pub mod Laws
use aistio.Prelude.{
  ℕ, ◌+◌, String, ◌<>◌, Bool, true, false, not, ◌&&◌, ◌||◌, Option, none, some, List, [], ◌∷◌,
  length, ◌==◌, comparable_text, if◌then◌else◌, ltb,
}
use aistio.Prelude.Decimal.{show}
use aistio.Api.Team.{AgentTeam, TeamMemberSpec, DynamicMembersSpec, TeamConfig, TeamLifecycle}
use aistio.Admission.Checks.{check}

-- Is the name a key of the map of those seen so far?
abbrev pub is_seen : String → List String → Bool
is_seen name [] = false
is_seen name (s ∷ seen) = (s == name) || is_seen name seen

-- A failing check returns; otherwise the next one runs.
abbrev pub or_next : Option String → Option String → Option String
or_next none rest = rest
or_next (some message) rest = some message

unfoldable pub is_shutdown_policy : String → Bool
is_shutdown_policy policy =
    (policy == "all-complete")
    || (policy == "lead-decides")
    || (policy == "manual")
    || (policy == "timeout")

module _ (quote : String → String) (duration_error : String → Option String) where
  abbrev pub member_field : ℕ → String → String
  member_field i field = "spec.members[" <> show i <> "]." <> field

  -- The loop over the members, from the index `i` on.
  unfoldable pub validate_members : ℕ → List String → List TeamMemberSpec → Option String
  validate_members i seen [] = none
  validate_members i seen (m ∷ ms) =
      let rest = validate_members (i + 1) (m.name ∷ seen) ms in
      check (m.name == "") (member_field i "name is required") (
        check (is_seen m.name seen) (member_field i "name " <> quote m.name <> " is duplicated")
          (check (m.agent_ref.name == "") (member_field i "agentRef.name is required") rest))

  unfoldable pub validate_dynamic : ℕ → Option DynamicMembersSpec → Option String
  validate_dynamic members none = none
  validate_dynamic members (some d) =
      let min_required = members + 1 in
      check (d.enabled && ltb d.max_total min_required)
        ("spec.dynamicMembers.maxTotal ("
          <> show d.max_total
          <> ") must be >= number of static members + 1 (lead) ("
          <> show min_required
          <> ")")
        none

  unfoldable pub validate_config : Option TeamConfig → Option String
  validate_config none = none
  validate_config (some config) =
      let policy = config.shutdown_policy in
      check (not (policy == "") && not (is_shutdown_policy policy))
        ("spec.config.shutdownPolicy must be one of: all-complete, lead-decides, manual, timeout; got "
          <> quote policy)
        none

  unfoldable pub validate_duration : String → Option String
  validate_duration max_duration = elim (duration_error max_duration) [
    | none ↦ none
    | some err ↦
        some (
          "spec.lifecycle.maxDuration "
          <> quote max_duration
          <> " is not a valid duration: "
          <> err)
  ]

  unfoldable pub validate_lifecycle : Option TeamLifecycle → Option String
  validate_lifecycle none = none
  validate_lifecycle (some lifecycle) =
      if lifecycle.max_duration == "" then none else validate_duration lifecycle.max_duration

  unfoldable pub validate_team : AgentTeam → Option String
  validate_team team =
      check (team.spec.lead.agent_ref.name == "") "spec.lead.agentRef.name is required" (
        or_next (validate_members 0 [] team.spec.members) (
          or_next (validate_dynamic (length team.spec.members) team.spec.dynamic_members)
            (or_next (validate_config team.spec.config) (validate_lifecycle team.spec.lifecycle))))
