-- ===== src/Team/Lifecycle/Conditions.antt =====
-- A list of conditions as a map from their types.
use aistio.Prelude.{
  ◌≡◌, refl, Option, none, some, List, [], ◌∷◌, arith, ==_iff, comparable_text, if◌then◌else◌,
}
use aistio.Api.Common.{Condition}
use aistio.Team.Lifecycle.{condition_text, same_type, set_team_condition}

-- The first condition of the type of `cond`.
abbrev pub find_condition : Condition → List Condition → Option Condition
find_condition cond [] = none
find_condition cond (c ∷ cs) =
    let rest = find_condition cond cs in if same_type c cond then some c else rest

-- After a condition is set, its type has it, and every other type has what it had.
pub set_team_condition_lookup :
    (cond other : Condition) (cs : List Condition)
    → find_condition other (set_team_condition cond cs)
      ≡ (if same_type cond other then some cond else find_condition other cs)
unfolding set_team_condition
set_team_condition_lookup cond other [] = refl
set_team_condition_lookup cond other (c ∷ cs) =
    let ih = set_team_condition_lookup cond other cs in
    let x = condition_text c.type in
    let y = condition_text cond.type in
    let z = condition_text other.type in ground (arith, ==_iff x y, ==_iff y z, ==_iff x z, ih)
