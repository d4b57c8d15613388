-- ===== src/Monitoring/Dashboard/Order.antt =====
-- GetStatusDashboard under several orders in which its goroutines take the mutex.
use chatops.Monitoring.Dashboard.Commute.{Belongs, assoc, changes_comm}
use mathlib.Core.List.{Permᴰ}
use native.Mathlib.Decide.{ℕ_discrete}
use chatops.Base.{[], if◌then◌else◌, ◌==◌}
use chatops.Monitoring.Dashboard.Queries.{
  change_of, pod_change, value_change, parsed_change, if_parsed, label_change, if_named, second,
}
use chatops.Monitoring.Dashboard.{
  changes, change_of, changes_of, ◌>=>◌, Result, PrometheusQueryResponse, run_jobs, Map, PodStatus,
  err, ok, QueryResult, lookup, get_status_dashboard, Http, Client, fill_dashboard, made_dashboard,
  found_alerts, get_active_alerts, new_pods, job_answer, get_pod_names_for_job, Ranges,
}
use chatops.Base.{
  Option, String, ℕ, List, ◌≡◌, ◌≢◌, sym, some, ◌⊎◌, All, ◌∙◌, none, ap, refl, ◌∷◌, inl, str_eq,
  inr, map, Bool-cases,
}
use chatops.Monitoring.Dashboard.Settings.{
  Job, cpu_usage, cpu_limit, memory_usage, memory_limit, restarts, ready, phase, oom_killed,
}
use chatops.Monitoring.Types.{Floats, JsonValue, other, text}

job_number : Job → ℕ
job_number cpu_usage = 0
job_number cpu_limit = 1
job_number memory_usage = 2
job_number memory_limit = 3
job_number restarts = 4
job_number ready = 5
job_number phase = 6
job_number oom_killed = 7

Job-cases : (j k : Job) → (j ≡ k) ⊎ (j ≢ k)
unfolding job_number
Job-cases j k = elim (ℕ_discrete (job_number j) (job_number k)) [
  | yes e ↦ inl (same j k e)
  | no ne ↦ inr (λ e. ne (ap job_number e))
]
  where
    number_job : ℕ → Job
    number_job n =
        if n == 0
        then cpu_usage
        else if n == 1
        then cpu_limit
        else if n == 2
        then memory_usage
        else if n == 3
        then memory_limit
        else if n == 4
        then restarts
        else if n == 5
        then ready
        else if n == 6
        then phase
        else oom_killed

    back : (j : Job) → number_job (job_number j) ≡ j
    back cpu_usage = refl
    back cpu_limit = refl
    back memory_usage = refl
    back memory_limit = refl
    back restarts = refl
    back ready = refl
    back phase = refl
    back oom_killed = refl

    same : (j k : Job) → job_number j ≡ job_number k → j ≡ k
    same j k e = sym (back j) ∙ ap number_job e ∙ back k

module _ {F : Type 0} (floats : Floats F) where
  change_of-Belongs : (job : Job) (r : QueryResult) → Belongs job (change_of floats job r)
  unfolding change_of pod_change value_change parsed_change
  change_of-Belongs job r = named_Belongs (lookup "pod" r.metric)
    where
      parsed_Belongs :
          (job : Job) (n : String) (o : Option F) → Belongs job (if_parsed floats job n o)
      parsed_Belongs job n none = tt
      parsed_Belongs cpu_usage n (some v) = refl
      parsed_Belongs cpu_limit n (some v) = refl
      parsed_Belongs memory_usage n (some v) = refl
      parsed_Belongs memory_limit n (some v) = refl
      parsed_Belongs restarts n (some v) = refl
      parsed_Belongs ready n (some v) = elim (Bool-cases (floats.is_one v)) [
        | inl e ↦ rw e refl
        | inr e ↦ rw e tt
      ]
      parsed_Belongs phase n (some v) = tt
      parsed_Belongs oom_killed n (some v) = tt

      value_Belongs :
          (job : Job) (n : String) (o : Option JsonValue)
          → Belongs job (value_change floats job n o)
      value_Belongs job n none = tt
      value_Belongs job n (some (other t)) = tt
      value_Belongs job n (some (text t)) = parsed_Belongs job n (floats.parse t)

      label_Belongs :
          (n : String) (o : Option String) → Belongs {F = F} phase (label_change floats n o)
      label_Belongs n none = tt
      label_Belongs n (some l) = refl

      pod_Belongs : (job : Job) (n : String) → Belongs job (pod_change floats job n r)
      pod_Belongs phase n = label_Belongs n (lookup "phase" r.metric)
      pod_Belongs oom_killed n = refl
      pod_Belongs cpu_usage n = value_Belongs cpu_usage n (second r.value)
      pod_Belongs cpu_limit n = value_Belongs cpu_limit n (second r.value)
      pod_Belongs memory_usage n = value_Belongs memory_usage n (second r.value)
      pod_Belongs memory_limit n = value_Belongs memory_limit n (second r.value)
      pod_Belongs restarts n = value_Belongs restarts n (second r.value)
      pod_Belongs ready n = value_Belongs ready n (second r.value)

      named_Belongs : (o : Option String) → Belongs job (if_named floats job r o)
      named_Belongs none = tt
      named_Belongs (some n) = pod_Belongs job n

  changes_of-Belongs :
      (job : Job) (a : Result PrometheusQueryResponse) → All (Belongs job) (changes_of floats job a)
  unfolding changes_of
  changes_of-Belongs job (err e) = tt
  changes_of-Belongs job (ok resp) = elim (Bool-cases (str_eq resp.result_type "vector")) [
    | inl e ↦ rw e (each resp.result)
    | inr e ↦ rw e tt
  ]
    where
      each : (rs : List QueryResult) → All (Belongs job) (map (change_of floats job) rs)
      each [] = tt
      each (r ∷ rs) = (change_of-Belongs job r, each rs)

  module _ (answers : Job → Result PrometheusQueryResponse) where
    loop : Job → Map (PodStatus F) → Option (Map (PodStatus F))
    loop j = changes (changes_of floats j (answers j))

    loop_comm :
        (j k : Job)
        → ◌≡◌ {A = Map (PodStatus F) → Option (Map (PodStatus F))}
            (loop j >=> loop k)
            (loop k >=> loop j)
    unfolding loop
    loop_comm j k = elim (Job-cases j k) [
      | inl e ↦ ap (λ (i : Job). loop j >=> loop i) (sym e) ∙ ap (λ (i : Job). loop i >=> loop j) e
      | inr ne ↦
          changes_comm k j _ _ (λ e. ne (sym e)) (changes_of-Belongs k (answers k))
            (changes_of-Belongs j (answers j))
    ]

    -- Two orders of the same loops leave the same pods, or both panic.
    pub run_jobs-perm :
        (order order' : List Job)
        → Permᴰ order order'
        → run_jobs floats answers order ≡ run_jobs floats answers order'
    unfolding run_jobs loop
    run_jobs-perm order order' p = by_perm p
      where
        by_perm :
            {order order' : List Job}
            → Permᴰ order order'
            → run_jobs floats answers order ≡ run_jobs floats answers order'
        by_perm Permᴰ.nil = refl
        by_perm (Permᴰ.cons {a} {b} {l₁} {l₂} e p) =
            ap (λ (i : Job). loop i >=> run_jobs floats answers l₁) e
            ∙ ap (λ k. loop b >=> k) (by_perm p)
        by_perm (Permᴰ.swap {a} {b} {a'} {b'} {l} e f) =
            sym (assoc (loop a) (loop b) (run_jobs floats answers l))
            ∙ ap
                (λ (k : Map (PodStatus F) → Option (Map (PodStatus F))).
                  k >=> run_jobs floats answers l)
                (loop_comm a b)
            ∙ assoc (loop b) (loop a) (run_jobs floats answers l)
            ∙ ap (λ (i : Job). loop i >=> (loop a >=> run_jobs floats answers l)) f
            ∙ ap (λ (i : Job). loop a' >=> (loop i >=> run_jobs floats answers l)) e
        by_perm (Permᴰ.trans p q) = by_perm p ∙ by_perm q

-- Whatever the order in which the goroutines of GetStatusDashboard take the mutex, it ends the
-- same way, with the same dashboard, error or panic.
pub get_status_dashboard-perm :
    {W Q F : Type 0} (http : Http W Q) (floats : Floats F) (c : Client) (ranges : Ranges F)
    (meets : Job → W) (order order' : List Job) (namespace job_name : String) (w : W)
    → Permᴰ order order'
    → get_status_dashboard http floats c ranges meets order namespace job_name w
      ≡ get_status_dashboard http floats c ranges meets order' namespace job_name w
unfolding get_status_dashboard
get_status_dashboard-perm {W = W} {F = F} http floats c ranges meets order order' namespace job_name
      w p =
    by_names (get_pod_names_for_job http floats c ranges namespace job_name w)
  where
    by_names :
        (r : Result (List String) × W)
        → fill_dashboard http floats c ranges meets order namespace job_name r
          ≡ fill_dashboard http floats c ranges meets order' namespace job_name r
    by_names (err e, v) = refl
    by_names (ok [], v) = refl
    by_names (ok (n ∷ ns), v) =
        ap
          (λ (run : Map (PodStatus F) → Option (Map (PodStatus F))).
            made_dashboard http floats c ranges job_name
              (found_alerts namespace job_name (get_active_alerts http c v).0)
              (run (new_pods floats (n ∷ ns))))
          (run_jobs-perm floats (λ job. job_answer http floats c ranges (n ∷ ns) job (meets job))
            order order' p)
