-- ===== src/Monitoring/Dashboard/Reported.antt =====
-- What GetStatusDashboard reports, and when it panics.
use chatops.Monitoring.Dashboard.Settings.{restarts, oom_killed}
use mathlib.Core.List.{Perm, Permᴰ}
use chatops.Base.{
  List, ◌≡◌, [], ◌∷◌, true, false, refl, ap, ◌∙◌, map, none, some, String, Bool, if◌then◌else◌,
  select, subst, str_eq, ◌&&◌, any, ◌||◌, pos,
}
use chatops.Go.Maps.{Map, or_empty, get, lookup}
use chatops.Monitoring.Dashboard.Settings.{
  Job, all_jobs, phase, ready, cpu_usage, cpu_limit, memory_usage, memory_limit,
}
use chatops.Monitoring.Dashboard.Pods.{entries, names, last_value, is_one, number_in, int64_of}
use chatops.Monitoring.Dashboard.Report.{entered_jobs-status_by, all_changes-entered}
use chatops.Monitoring.Dashboard.Writes.{
  filled, all_changes, apply_all, settings_for, run_jobs-filled,
}
use chatops.Monitoring.Types.{Floats}
use chatops.Monitoring.Dashboard.{
  new_pods, PrometheusQueryResponse, statuses, PodStatus, new_pod, Http, Client, Ranges,
  get_status_dashboard, Alert, run_jobs, ServiceStatusDashboard, get_pod_names_for_job, query,
  made_dashboard, query_text, join, job_answer, found_alerts, get_active_alerts, fill_dashboard,
  QueryResult, concerns,
}
use chatops.Effects.{Result, ok, Outcome, panic, done, err}
use chatops.Monitoring.Dashboard.Faults.{panics, number_faults}
use chatops.Monitoring.Dashboard.Order.{get_status_dashboard-perm}

module _ {F : Type 0} (floats : Floats F) where
  -- The status of each pod: each field by the entries about the pod that the query for it has found,
  -- and the zero value of the field where these say nothing.
  abbrev pub status_of : (Job → Result PrometheusQueryResponse) → String → PodStatus F
  status_of answers n =
      let about : Job → List QueryResult = λ job. select (names n) (entries (answers job)) in
      record {
        pod_name = n;
        phase = last_value (λ r. lookup "phase" r.metric) "" (about phase);
        ready = any (λ r. is_one floats (number_in floats r.value)) (about ready);
        cpu_usage_cores =
            last_value (λ r. number_in floats r.value) floats.zero_value (about cpu_usage);
        cpu_limit_cores =
            last_value (λ r. number_in floats r.value) floats.zero_value (about cpu_limit);
        memory_usage_bytes =
            last_value (λ r. number_in floats r.value) floats.zero_value (about memory_usage);
        memory_limit_bytes =
            last_value (λ r. number_in floats r.value) floats.zero_value (about memory_limit);
        restarts =
            last_value (λ r. int64_of floats (number_in floats r.value)) (pos 0) (about restarts);
        oom_killed = any (λ r. true) (about oom_killed);
      }

  filled_lem :
      (answers : Job → Result PrometheusQueryResponse) (ns : List String)
      → statuses (filled floats ns (all_changes floats answers all_jobs))
        ≡ map (status_of answers) ns
  filled_lem answers [] = refl
  filled_lem answers (n ∷ ns) =
      ap
        (λ rest.
          apply_all (settings_for n (all_changes floats answers all_jobs)) (new_pod floats n)
          ∷ rest)
        (filled_lem answers ns)
      ∙ ap (λ ps. ps ∷ map (status_of answers) ns)
          (all_changes-entered floats answers all_jobs n (new_pod floats n)
            ∙ entered_jobs-status_by floats (λ job. select (names n) (entries (answers job)))
                (new_pod floats n))

-- The alert is one of the service, in the namespace if one is named.
abbrev pub of_service : String → String → Alert → Bool
of_service namespace job_name alert =
    str_eq (or_empty (lookup "job" alert.labels)) job_name
    && (str_eq namespace "" || str_eq (or_empty (lookup "namespace" alert.labels)) namespace)

-- An error of the request for the alerts leaves the dashboard without any.
abbrev pub alerts_of : String → String → Result (List Alert) → List Alert
alerts_of namespace job_name (err e) = []
alerts_of namespace job_name (ok alerts) = select (of_service namespace job_name) alerts

found_alerts_lem :
    (namespace job_name : String) (r : Result (List Alert))
    → found_alerts namespace job_name r ≡ alerts_of namespace job_name r
unfolding concerns get
found_alerts_lem namespace job_name (err e) = refl
found_alerts_lem namespace job_name (ok alerts) = refl

module _ {W Q F : Type 0} (http : Http W Q) (floats : Floats F) (c : Client) (ranges : Ranges F)
    (meets : Job → W) (order : List Job) (namespace job_name : String) where
  -- What a dashboard is for some pods: the alerts that concern the service, and one status for each
  -- pod, in some order; or the panic.
  pub record Reported (ns : List String) (v : W) (r : Outcome (ServiceStatusDashboard F))
      : Type 0 where
    pub answers : Job → Result PrometheusQueryResponse
    pub asked :
        (job : Job) → answers job ≡ (query http c (query_text job (join "|" ns)) (meets job)).0
    pub pods : List (PodStatus F)
    pub each_pod : Perm pods (map (status_of floats answers) ns)
    pub ends : r ≡ (
        if panics floats ns answers
        then panic
        else done (record {
          service_name = job_name;
          alerts = alerts_of namespace job_name (get_active_alerts http c v).0;
          pods = pods;
        }))

  all_jobs_lem :
      (answers : Job → Result PrometheusQueryResponse) (ns : List String)
      → run_jobs floats answers all_jobs (new_pods floats ns) ≡ (
          if panics floats ns answers
          then none
          else some (filled floats ns (all_changes floats answers all_jobs)))
  all_jobs_lem answers ns =
      run_jobs-filled floats answers all_jobs ns
      ∙ ap (λ b. if b then none else some (filled floats ns (all_changes floats answers all_jobs)))
          (number_faults floats ns answers)

  made-if :
      (alerts : List Alert) (b : Bool) (pods : Map (PodStatus F))
      → made_dashboard http floats c ranges job_name alerts (if b then none else some pods) ≡ (
          if b
          then panic
          else done (record {
            service_name = job_name;
            alerts = alerts;
            pods = ranges.visit_pods (statuses pods);
          }))
  made-if alerts true pods = refl
  made-if alerts false pods = refl

  -- Where getPodNamesForJob names some pods, each of the eight queries takes the mutex once, and
  -- the range over podMetrics visits each of its values once, in whatever order,
  -- GetStatusDashboard panics exactly if, in the vector that answers one of the six queries for
  -- numbers, the second value of an entry about one of the pods is missing or no text. Else its
  -- dashboard has the alerts of the service and, in some order, one status for each pod: the phase
  -- is the last label, and each number that of the last entry with one, among the entries about
  -- the pod that its own query has found; the pod is ready if the query for that has found a 1,
  -- and was killed if the last query has found the pod at all.
  pub get_status_dashboard-Reported :
      (n : String) (ns : List String) (w v : W)
      → get_pod_names_for_job http floats c ranges namespace job_name w ≡ (ok (n ∷ ns), v)
      → Permᴰ order all_jobs
      → ((pods : List (PodStatus F)) → Perm (ranges.visit_pods pods) pods)
      → Reported
          (n ∷ ns)
          v
          (get_status_dashboard http floats c ranges meets order namespace job_name w)
  unfolding get_status_dashboard
  get_status_dashboard-Reported n ns w v named once visits =
      let answers : Job → Result PrometheusQueryResponse =
        λ job. job_answer http floats c ranges (n ∷ ns) job (meets job) in
      let filled_pods = filled floats (n ∷ ns) (all_changes floats answers all_jobs) in
      let alerts = found_alerts namespace job_name (get_active_alerts http c v).0 in
      record {
        answers = answers;
        asked = λ job. refl;
        pods = ranges.visit_pods (statuses filled_pods);
        each_pod =
            subst (Perm (ranges.visit_pods (statuses filled_pods)))
              (filled_lem floats answers (n ∷ ns)) (visits (statuses filled_pods));
        ends =
            get_status_dashboard-perm http floats c ranges meets order all_jobs namespace job_name w
              once
            ∙ ap (λ r. fill_dashboard http floats c ranges meets all_jobs namespace job_name r)
                named
            ∙ ap (λ pods. made_dashboard http floats c ranges job_name alerts pods)
                (all_jobs_lem answers (n ∷ ns))
            ∙ ap
                (λ alerts.
                  made_dashboard http floats c ranges job_name alerts
                    (if panics floats (n ∷ ns) answers then none else some filled_pods))
                (found_alerts_lem namespace job_name (get_active_alerts http c v).0)
            ∙ made-if (alerts_of namespace job_name (get_active_alerts http c v).0)
                (panics floats (n ∷ ns) answers) filled_pods;
      }
