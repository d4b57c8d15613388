-- ===== src/Kube/Types.antt =====
-- The types of internal/kube/client.go, and the fields that it reads of the Kubernetes objects. An
-- int32 or int64 is an integer; a pointer is an Option; an object's other fields are left out.
use chatops.Base.{ℕ, ℤ, Bool, String, Option, List}
use chatops.Go.Maps.{Map}

pub record Container : Type 0 where
  pub image : String

-- corev1.PodTemplateSpec; the annotations may be the nil map.
pub record PodTemplate : Type 0 where
  pub annotations : Option (Map String)
  pub containers : List Container

pub record DeploymentStatus : Type 0 where
  pub replicas : ℤ
  pub updated_replicas : ℤ
  pub available_replicas : ℤ
  pub unavailable_replicas : ℤ
  pub observed_generation : ℤ

-- The label selector is kept as one text: the program only hands it to LabelSelectorAsSelector.
pub record Deployment : Type 0 where
  pub annotations : Map String
  pub generation : ℤ
  pub spec_replicas : Option ℤ
  pub selector : String
  pub template : PodTemplate
  pub status : DeploymentStatus

-- The creation time is an instant.
pub record ReplicaSet : Type 0 where
  pub name : String
  pub annotations : Map String
  pub created : ℕ
  pub replicas : ℤ
  pub ready_replicas : ℤ
  pub template : PodTemplate

pub record RevisionInfo : Type 0 where
  pub revision : ℤ
  pub rs_name : String
  pub image : String

pub record PodLogsOptions : Type 0 where
  pub previous : Bool
  pub tail_lines : ℤ
  pub since_seconds : ℤ
  pub timestamps : Bool

-- corev1.PodLogOptions, whose numbers are pointers
pub record PodLogOptions : Type 0 where
  pub previous : Bool
  pub tail_lines : Option ℤ
  pub since_seconds : Option ℤ
  pub timestamps : Bool
