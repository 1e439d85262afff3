-- ===== src/Api/Task.antt =====
-- api/v1alpha1/teamtask_types.go
use aistio.Prelude.{String, List}
use aistio.Api.Meta.{ObjectMeta}

pub data TeamTaskState : Type 0 where
  unset pending in_progress completed : TeamTaskState
  other : String → TeamTaskState

pub record TeamTaskSpec : Type 0 where
  pub team_ref : String
  pub subject : String
  pub description : String
  pub blocked_by : List String

pub record TeamTaskStatus : Type 0 where
  pub state : TeamTaskState
  pub owner : String
  pub completed_at : String
  pub result : String

pub record TeamTask : Type 0 where
  pub metadata : ObjectMeta
  pub spec : TeamTaskSpec
  pub status : TeamTaskStatus
