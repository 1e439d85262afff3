-- ===== src/Team/TaskStore/Isolation.antt =====
-- Calls do not reach into other teams.
use aistio.Prelude.{
  String, ◌<>◌, ◌≡◌, ◌≢◌, ◌⊎◌, inl, inr, false, arith, ◌==◌, ==_iff, comparable_text, Bool-cases,
  Option-cases,
}
use aistio.Prelude.Text.{NoSlash, slash-injective}
use aistio.Team.TaskStore.{
  TaskStore, TeamTask, Reply, ns_team_key, modify, claim, complete, unclaim, Call, creates, claims,
  completes, unclaims, deletes, step,
}
use aistio.Team.TaskStore.Frame.{find, modify_missing, find-modify, find-create, find-delete_team}

-- The namespace and the team that a call names.
abbrev pub call_namespace : Call → String
call_namespace (creates namespace _ _ _ _ _) = namespace
call_namespace (claims namespace _ _ _ _) = namespace
call_namespace (completes namespace _ _ _ _) = namespace
call_namespace (unclaims namespace _ _) = namespace
call_namespace (deletes namespace _) = namespace

abbrev pub call_team : Call → String
call_team (creates _ team_name _ _ _ _) = team_name
call_team (claims _ team_name _ _ _) = team_name
call_team (completes _ team_name _ _ _) = team_name
call_team (unclaims _ team_name _) = team_name
call_team (deletes _ team_name) = team_name

abbrev call_key : Call → String
call_key c = ns_team_key (call_namespace c) (call_team c)

find-modify_other :
    (s : TaskStore) (namespace team_name id : String) (body : TeamTask → Reply) (key j : String)
    → (ns_team_key namespace team_name == key) ≡ false
    → find (modify s namespace team_name id body).0 key j ≡ find s key j
find-modify_other s namespace team_name id body key j h =
    elim (Option-cases (find s (ns_team_key namespace team_name) id)) [
      | inl e ↦ rw (modify_missing s namespace team_name id body e).0
      | inr (t, e) ↦ ground (arith, find-modify s namespace team_name id body t key j e)
    ]

find-step_other :
    (s : TaskStore) (c : Call) (key j : String)
    → (call_key c == key) ≡ false
    → find (step s c) key j ≡ find s key j
unfolding step claim complete unclaim
find-step_other s (creates namespace team_name subject description blocked_by now) key j h =
    ground (arith, find-create s namespace team_name subject description blocked_by now key j)
find-step_other s (claims namespace team_name id claimed_by expected) key j h =
    find-modify_other s namespace team_name id _ key j h
find-step_other s (completes namespace team_name id result now) key j h =
    find-modify_other s namespace team_name id _ key j h
find-step_other s (unclaims namespace team_name id) key j h =
    find-modify_other s namespace team_name id _ key j h
find-step_other s (deletes namespace team_name) key j h =
    ground (arith, find-delete_team s namespace team_name key j)

-- Where neither namespace contains a slash, a call for one team leaves every task of every other
-- team as it was.
pub step_isolated :
    (s : TaskStore) (c : Call) (namespace team_name id : String)
    → NoSlash (call_namespace c)
    → NoSlash namespace
    → (call_namespace c ≢ namespace) ⊎ (call_team c ≢ team_name)
    → find (step s c) (ns_team_key namespace team_name) id
      ≡ find s (ns_team_key namespace team_name) id
unfolding ns_team_key
step_isolated s c namespace team_name id hc hn different =
    find-step_other s c (namespace <> "/" <> team_name) id
      (elim (Bool-cases (call_key c == (namespace <> "/" <> team_name))) [
        | inl p ↦ absurd (
            apart different (
              slash-injective (call_namespace c) namespace (call_team c) team_name hc hn
                ((==_iff _ _).0 p)))
        | inr p ↦ p
      ])
  where
    apart :
        (call_namespace c ≢ namespace) ⊎ (call_team c ≢ team_name)
        → (call_namespace c ≡ namespace) × (call_team c ≡ team_name)
        → ⊥
    apart (inl n) e = n e.0
    apart (inr n) e = n e.1
