-- ===== src/Monitoring/Dashboard.antt =====
-- GetStatusDashboard and getPodNamesForJob of internal/monitoring/dashboard.go. Each goroutine holds
-- the mutex for its whole loop, so what the scheduler chooses is the order of the loops.
pub mod Settings
pub mod Queries
pub mod Commute
pub mod Order
pub mod Writes
pub mod Pods
pub mod Fields
pub mod Report
pub mod Faults
pub mod Reported
use Prim.Native.String.{◌++◌}
use chatops.Base.{
  ℕ, Bool, true, false, ◌&&◌, ◌||◌, String, Option, none, some, List, [], ◌∷◌, map, if◌then◌else◌,
  str_eq, select, pos,
}
use chatops.Go.Maps.{lookup, get, put, Map}
use chatops.Go.Strings.{join}
use chatops.Effects.{Error, Result, ok, err, Call, Outcome, done, fail, panic}
use chatops.Monitoring.Types.{
  Alert, QueryResult, PrometheusQueryResponse, Floats, PodStatus, ServiceStatusDashboard,
}
use chatops.Monitoring.Client.{Http, Client, query, get_active_alerts, exchange}
use chatops.Monitoring.Dashboard.Queries.{query_text, Change, change_of, fault, write, keep}
use chatops.Monitoring.Dashboard.Settings.{Setting, Job, apply}

abbrev named : Option String → Map (Unit {0}) → Map (Unit {0})
named none m = m
named (some n) m = put n tt m

-- The set podNames: every pod that an entry names, once.
unfoldable pub pod_names : List QueryResult → Map (Unit {0})
pod_names [] = []
pod_names (r ∷ rs) = named (lookup "pod" r.metric) (pod_names rs)

abbrev pub keys {ℓ} : {V : Type ℓ} → Map V → List String
keys [] = []
keys ((k, v) ∷ m) = k ∷ keys m

-- podMetrics, a map[string]*PodStatus
abbrev pub Pods : Type 0 → Type 0
Pods F = Map (PodStatus F)

unfoldable pub has : {F : Type 0} → String → Map (PodStatus F) → Bool
has n [] = false
has n ((m, ps) ∷ pods) = str_eq m n || has n pods

-- A write through the pointer podMetrics[n], where that exists.
unfoldable pub adjust : {F : Type 0} → String → Setting F → Map (PodStatus F) → Map (PodStatus F)
adjust n s [] = []
adjust n s ((m, ps) ∷ pods) = (m, if str_eq m n then apply s ps else ps) ∷ adjust n s pods

-- `none` is a panic.
unfoldable pub change : {F : Type 0} → Change F → Map (PodStatus F) → Option (Map (PodStatus F))
unfolding has adjust
change keep pods = some pods
change (fault n) pods = if has n pods then none else some pods
change (write n s) pods = some (adjust n s pods)

abbrev pub unless_panicked : {A : Type 0} → Option A → (A → Option A) → Option A
unless_panicked none f = none
unless_panicked (some a) f = f a

infixl 5 ◌>=>◌
abbrev pub ◌>=>◌ : {A : Type 0} → (A → Option A) → (A → Option A) → A → Option A
◌>=>◌ f g a = unless_panicked (f a) g

unfoldable pub changes :
    {F : Type 0} → List (Change F) → Map (PodStatus F) → Option (Map (PodStatus F))
changes [] = some
changes (c ∷ cs) = change c >=> changes cs

abbrev pub statuses : {F : Type 0} → Map (PodStatus F) → List (PodStatus F)
statuses [] = []
statuses ((n, ps) ∷ pods) = ps ∷ statuses pods

module _ {F : Type 0} (floats : Floats F) where
  -- What a goroutine does once its query is answered; an error or another type of result ends it.
  unfoldable pub changes_of : Job → Result PrometheusQueryResponse → List (Change F)
  changes_of job (err e) = []
  changes_of job (ok resp) =
      if str_eq resp.result_type "vector" then map (change_of floats job) resp.result else []

  -- The loops in the order in which the goroutines take the mutex.
  unfoldable pub run_jobs :
      (Job → Result PrometheusQueryResponse)
      → List Job
      → Map (PodStatus F)
      → Option (Map (PodStatus F))
  run_jobs answers [] = some
  run_jobs answers (j ∷ js) = changes (changes_of j (answers j)) >=> run_jobs answers js

  abbrev pub new_pod : String → PodStatus F
  new_pod n = record {
    pod_name = n;
    phase = "";
    ready = false;
    cpu_usage_cores = floats.zero_value;
    cpu_limit_cores = floats.zero_value;
    memory_usage_bytes = floats.zero_value;
    memory_limit_bytes = floats.zero_value;
    restarts = pos 0;
    oom_killed = false;
  }

  abbrev pub new_pods : List String → Map (PodStatus F)
  new_pods [] = []
  new_pods (n ∷ ns) = (n, new_pod n) ∷ new_pods ns

-- The filter of the alerts.
unfoldable pub concerns : String → String → Alert → Bool
concerns namespace job_name alert =
    str_eq (get "job" alert.labels) job_name
    && (str_eq namespace "" || str_eq (get "namespace" alert.labels) namespace)

-- An error of GetActiveAlerts leaves the dashboard without alerts.
abbrev pub found_alerts : String → String → Result (List Alert) → List Alert
found_alerts namespace job_name (err e) = []
found_alerts namespace job_name (ok alerts) = select (concerns namespace job_name) alerts

abbrev pub names_query : String → String → String
names_query namespace job_name =
    "up{job=~\"^" ++ job_name ++ ".*\", namespace=\"" ++ namespace ++ "\"}"

-- Where a `range` loop visits the names of the set podNames, and the values of the map podMetrics:
-- Go leaves both orders open.
pub record Ranges (F : Type 0) : Type 0 where
  pub visit_names : List String → List String
  pub visit_pods : List (PodStatus F) → List (PodStatus F)

abbrev pub names_of :
    (List String → List String) → Result PrometheusQueryResponse → Result (List String)
names_of visit (err e) = err e
names_of visit (ok resp) =
    if str_eq resp.result_type "vector"
    then ok (visit (keys (pod_names resp.result)))
    else err ("unexpected result type for pod name query: " ++ resp.result_type)

module _ {W Q F : Type 0} (http : Http W Q) (floats : Floats F) (c : Client)
    (ranges : Ranges F) where
  unfoldable pub get_pod_names_for_job : String → String → Call W (List String)
  unfolding pod_names query
  get_pod_names_for_job namespace job_name w =
      let (r, v) = query http c (names_query namespace job_name) w in
      (names_of ranges.visit_names r, v)

  -- The answer of a goroutine's query, which meets the surroundings `v`.
  abbrev pub job_answer : List String → Job → W → Result PrometheusQueryResponse
  job_answer names job v = (query http c (query_text job (join "|" names)) v).0

  abbrev pub made_dashboard :
      String → List Alert → Option (Map (PodStatus F)) → Outcome (ServiceStatusDashboard F)
  made_dashboard job_name alerts none = panic
  made_dashboard job_name alerts (some pods) = done (record {
    service_name = job_name;
    alerts = alerts;
    pods = ranges.visit_pods (statuses pods);
  })

  abbrev pub fill_dashboard :
      (Job → W)
      → List Job
      → String
      → String
      → Result (List String) × W
      → Outcome (ServiceStatusDashboard F)
  fill_dashboard meets order namespace job_name (err e, w) =
      fail ("could not get pod names for job " ++ job_name ++ ": " ++ e)
  fill_dashboard meets order namespace job_name (ok [], w) =
      done (record { service_name = job_name; alerts = []; pods = [] })
  fill_dashboard meets order namespace job_name (ok (n ∷ ns), w) =
      made_dashboard job_name (found_alerts namespace job_name (get_active_alerts http c w).0) (
        run_jobs floats (λ job. job_answer (n ∷ ns) job (meets job)) order
          (new_pods floats (n ∷ ns)))

  -- `meets` is what each query meets, `order` the order in which the goroutines take the mutex.
  unfoldable pub get_status_dashboard :
      (Job → W) → List Job → String → String → W → Outcome (ServiceStatusDashboard F)
  unfolding get_pod_names_for_job run_jobs concerns
  get_status_dashboard meets order namespace job_name w =
      fill_dashboard meets order namespace job_name (get_pod_names_for_job namespace job_name w)
