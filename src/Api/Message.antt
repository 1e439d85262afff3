-- ===== src/Api/Message.antt =====
-- api/v1alpha1/teammessage_types.go
use aistio.Prelude.{ℕ, String, Bool}
use aistio.Api.Meta.{ObjectMeta}

pub record TeamMessageSpec : Type 0 where
  pub team_ref : String
  pub from : String
  pub to : String
  pub content : String
  pub kind : String
  pub nonce : String

pub record TeamMessageStatus : Type 0 where
  pub delivered : Bool
  pub delivered_at : String
  pub attempts : ℕ

pub record TeamMessage : Type 0 where
  pub metadata : ObjectMeta
  pub spec : TeamMessageSpec
  pub status : TeamMessageStatus
