-- ===== src/Api.antt =====
-- The custom resources: api/v1/modelrepository_types.go and api/v1/llmengine_types.go. Of the
-- Kubernetes types they embed, the fields that the controllers read or write: of the metadata the
-- name, the namespace, the finalizers and whether a deletion timestamp is set; of a condition its
-- type, status, reason and message.
pub mod Repository
pub mod Engine
pub mod Sample
pub mod Decode
use aitrigram.Base.{String, List, Bool, true, false}

pub data ConditionStatus : Type 0 where
  condition_true condition_false condition_unknown : ConditionStatus

pub record Condition : Type 0 where
  pub type : String
  pub status : ConditionStatus
  pub reason : String
  pub message : String

pub record Metadata : Type 0 where
  pub name : String
  pub namespace : String
  pub deleting : Bool
  pub finalizers : List String

abbrev pub is_true : ConditionStatus → Bool
is_true condition_true = true
is_true _ = false
