-- ===== src/Kube.antt =====
-- The Kubernetes API as the code uses it through the client of controller-runtime, which is not
-- part of the repository: a parameter, with what its documentation promises as named laws. `S` is
-- the state of the API server, and `A` the kind of object that a client reads and writes.
pub mod Optimistic
pub mod Retry
pub mod Memory
pub mod Stored
pub mod Updates
use aistio.Prelude.{String, Bool, Option, List, ℕ}
use aistio.Prelude.Dict.{Dict}

pub data Got (A : Type 0) : Type 0 where
  found : A → Got A
  not_found get_failed : Got A

-- The object as the server stored it, with its new version; a write from an object that is not
-- the current one; any other error.
pub data Wrote (A : Type 0) : Type 0 where
  written : A → Wrote A
  conflict write_failed : Wrote A

-- A write returns the new state with its result; `none` is the error of a list or of a creation.
pub record Client (S A : Type 0) : Type 0 where
  pub get : S → String → String → Got A
  pub list : S → String → Dict String String → Option (List A)
  pub create : S → A → S × Option A
  pub update : S → A → S × Wrote A
  pub update_status : S → A → S × Wrote A
  pub delete : S → A → S × Bool
  pub delete_all_of : S → String → Dict String String → S
