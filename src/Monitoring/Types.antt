-- ===== src/Monitoring/Types.antt =====
-- The data of internal/monitoring. What encoding/json puts into an interface{} is a value of JSON.
use chatops.Base.{ℕ, ℤ, Bool, String, Option, List}
use chatops.Go.Maps.{Map}

-- One element of a []interface{}: a text, or any other value with the text that %v prints.
pub data JsonValue : Type 0 where
  text : String → JsonValue
  other : String → JsonValue

-- One entry of data.result of a PrometheusQueryResponse.
pub record QueryResult : Type 0 where
  pub metric : Map String
  pub value : List JsonValue

pub record PrometheusQueryResponse : Type 0 where
  pub status : String
  pub result_type : String
  pub result : List QueryResult

pub record PrometheusLabelResponse : Type 0 where
  pub status : String
  pub values : List String

-- The time activeAt is an instant, which the program does not read.
pub record Alert : Type 0 where
  pub labels : Map String
  pub annotations : Map String
  pub state : String
  pub active_at : ℕ
  pub value : String

-- float64 and what the program does with it: the language's operations on it, and the formats %.2f
-- and %.0f. Nothing in the development depends on how they compute.
pub record Floats (F : Type 0) : Type 0 where
  pub zero_value : F
  pub parse : String → Option F
  pub to_int64 : F → ℤ
  pub is_one : F → Bool
  pub over_1024 : F → F
  pub format_2 : F → String
  pub format_0 : F → String

pub record PodStatus (F : Type 0) : Type 0 where
  pub pod_name : String
  pub phase : String
  pub ready : Bool
  pub cpu_usage_cores : F
  pub cpu_limit_cores : F
  pub memory_usage_bytes : F
  pub memory_limit_bytes : F
  pub restarts : ℤ
  pub oom_killed : Bool

pub record ServiceStatusDashboard (F : Type 0) : Type 0 where
  pub service_name : String
  pub alerts : List Alert
  pub pods : List (PodStatus F)
