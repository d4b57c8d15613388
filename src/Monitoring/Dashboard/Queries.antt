-- ===== src/Monitoring/Dashboard/Queries.antt =====
-- The queries of GetStatusDashboard, and what one entry of an answer changes.
use Prim.Native.String.{◌++◌}
use chatops.Base.{String, Option, none, some, List, [], ◌∷◌, if◌then◌else◌}
use chatops.Monitoring.Types.{JsonValue, Floats, QueryResult, other, text}
use chatops.Monitoring.Dashboard.Settings.{
  Job, Setting, cpu_usage, set_cpu_usage, set_phase, cpu_limit, set_cpu_limit, set_oom_killed,
  set_memory_usage, memory_usage, memory_limit, set_memory_limit, phase, restarts, set_restarts,
  oom_killed, set_ready, ready,
}
use chatops.Go.Maps.{lookup}

-- The query that each goroutine sends, for the names of the pods joined by "|".
unfoldable pub query_text : Job → String → String
query_text cpu_usage pods =
    "sum(rate(container_cpu_usage_seconds_total{pod=~\"" ++ pods
    ++ "\", container!=\"\", image!~\".*pause.*\"}[5m])) by (pod)"
query_text cpu_limit pods =
    "sum(kube_pod_container_resource_limits{pod=~\"" ++ pods ++ "\", resource=\"cpu\"}) by (pod)"
query_text memory_usage pods =
    "sum(container_memory_working_set_bytes{pod=~\"" ++ pods
    ++ "\", container!=\"\", image!~\".*pause.*\"}) by (pod)"
query_text memory_limit pods =
    "sum(kube_pod_container_resource_limits{pod=~\"" ++ pods ++ "\", resource=\"memory\"}) by (pod)"
query_text restarts pods =
    "sum(kube_pod_container_status_restarts_total{pod=~\"" ++ pods ++ "\"}) by (pod)"
query_text ready pods = "kube_pod_status_ready{condition=\"true\", pod=~\"" ++ pods ++ "\"}"
query_text phase pods = "kube_pod_status_phase{pod=~\"" ++ pods ++ "\"} > 0"
query_text oom_killed pods =
    "kube_pod_container_status_last_terminated_reason{pod=~\"" ++ pods
    ++ "\", reason=\"OOMKilled\"}"

-- What an entry does: nothing, a panic if its pod is one of the dashboard's, or a write to that pod.
pub data Change (F : Type 0) : Type 0 where
  keep : Change F
  fault : String → Change F
  write : String → Setting F → Change F

abbrev pub second : List JsonValue → Option JsonValue
second [] = none
second (_ ∷ []) = none
second (_ ∷ v ∷ _) = some v

module _ {F : Type 0} (floats : Floats F) where
  -- The parser functions of the map queries.
  unfoldable pub parsed_change : Job → String → F → Change F
  parsed_change cpu_usage n v = write n (set_cpu_usage v)
  parsed_change cpu_limit n v = write n (set_cpu_limit v)
  parsed_change memory_usage n v = write n (set_memory_usage v)
  parsed_change memory_limit n v = write n (set_memory_limit v)
  parsed_change restarts n v = write n (set_restarts (floats.to_int64 v))
  parsed_change ready n v = if floats.is_one v then write n set_ready else keep
  parsed_change phase n v = keep
  parsed_change oom_killed n v = keep

  abbrev pub if_parsed : Job → String → Option F → Change F
  if_parsed job n none = keep
  if_parsed job n (some v) = parsed_change job n v

  -- result.Value[1].(string), and ParseFloat of it: a value that is missing or no text panics.
  unfoldable pub value_change : Job → String → Option JsonValue → Change F
  unfolding parsed_change
  value_change job n none = fault n
  value_change job n (some (other t)) = fault n
  value_change job n (some (text t)) = if_parsed job n (floats.parse t)

  abbrev pub label_change : String → Option String → Change F
  label_change n none = keep
  label_change n (some label) = write n (set_phase label)

  unfoldable pub pod_change : Job → String → QueryResult → Change F
  unfolding value_change
  pod_change phase n r = label_change n (lookup "phase" r.metric)
  pod_change oom_killed n r = write n set_oom_killed
  pod_change job n r = value_change job n (second r.value)

  abbrev pub if_named : Job → QueryResult → Option String → Change F
  if_named job r none = keep
  if_named job r (some n) = pod_change job n r

  -- One round of the loops of queryAndParse, queryAndParseLabel and the last goroutine.
  unfoldable pub change_of : Job → QueryResult → Change F
  unfolding pod_change
  change_of job r = if_named job r (lookup "pod" r.metric)
