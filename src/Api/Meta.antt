-- ===== src/Api/Meta.antt =====
-- What the code reads of an object's metadata (`metav1.ObjectMeta`, which Kubernetes declares).
-- `deleting` is `!DeletionTimestamp.IsZero()`; a time stamp is a number of seconds.
-- A resource version is the number of the write that stored the object; only the API server reads it.

use aistio.Prelude.{ℕ, String, Bool, List}
use aistio.Prelude.Dict.{Dict}

-- `metav1.OwnerReference` of a controller.
pub record OwnerReference : Type 0 where
  pub kind : String
  pub name : String
  pub uid : String

pub record ObjectMeta : Type 0 where
  pub name : String
  pub namespace : String
  pub generate_name : String
  pub labels : Dict String String
  pub annotations : Dict String String
  pub finalizers : List String
  pub owner_references : List OwnerReference
  pub uid : String
  pub resource_version : ℕ
  pub creation_timestamp : ℕ
  pub deleting : Bool

-- `corev1.Toleration`, passed through by the code.
pub record Toleration : Type 0 where
  pub key : String
  pub operator : String
  pub value : String
  pub effect : String

-- `metav1.ConditionStatus`
pub data ConditionStatus : Type 0 where
  true_status false_status unknown_status : ConditionStatus
