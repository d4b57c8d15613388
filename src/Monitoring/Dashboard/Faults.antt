-- ===== src/Monitoring/Dashboard/Faults.antt =====
-- When a loop of GetStatusDashboard panics, by the entries of the answers.
use chatops.Base.{
  List, ◌≡◌, [], ◌∷◌, true, false, refl, ap, sym, ◌∙◌, ◌||◌, ◌&&◌, any, any-append, map, none, some,
  String, Bool, arith, Option, str_eq, if◌then◌else◌, Bool-cases, inl, inr,
}
use chatops.Go.Maps.{lookup}
use chatops.Monitoring.Dashboard.Queries.{
  keep, write, parsed_change, pod_change, value_change, change_of, label_change, second, if_named,
  if_parsed,
}
use chatops.Monitoring.Dashboard.Settings.{
  Job, cpu_usage, cpu_limit, memory_usage, memory_limit, restarts, ready, phase, oom_killed,
  all_jobs, set_ready,
}
use chatops.Monitoring.Dashboard.Pods.{entries}
use chatops.Monitoring.Dashboard.Writes.{faults_in, all_changes}
use chatops.Monitoring.Types.{Floats, JsonValue, QueryResult, text, other}
use chatops.Monitoring.Dashboard.{has, changes_of, new_pods, PrometheusQueryResponse}
use chatops.Effects.{Result, err, ok}

-- The second value of an entry is missing, or no text.
abbrev pub no_text : List JsonValue → Bool
no_text (_ ∷ text t ∷ _) = false
no_text _ = true

abbrev pub is_one_of : List String → Option String → Bool
is_one_of ns none = false
is_one_of ns (some m) = any (λ n. str_eq n m) ns

-- An entry about one of the pods from which no number can be read.
abbrev pub unreadable : List String → QueryResult → Bool
unreadable ns r = is_one_of ns (lookup "pod" r.metric) && no_text r.value

-- The queries whose entries hold numbers.
abbrev pub number_jobs : List Job
number_jobs = cpu_usage ∷ cpu_limit ∷ memory_usage ∷ memory_limit ∷ restarts ∷ ready ∷ []

and_true : (b : Bool) → (b && true) ≡ b
and_true b = ground arith

and_false : (b : Bool) → (b && false) ≡ false
and_false b = ground arith

module _ {F : Type 0} (floats : Floats F) where
  has-new_pods :
      (m : String) (ns : List String) → has m (new_pods floats ns) ≡ any (λ n. str_eq n m) ns
  unfolding has
  has-new_pods m [] = refl
  has-new_pods m (n ∷ ns) = ap (λ b. str_eq n m || b) (has-new_pods m ns)

  module _ (ns : List String) where
    parsed_fault :
        (job : Job) (m : String) (o : Option F)
        → faults_in (new_pods floats ns) (if_parsed floats job m o) ≡ false
    unfolding parsed_change
    parsed_fault job m none = refl
    parsed_fault cpu_usage m (some v) = refl
    parsed_fault cpu_limit m (some v) = refl
    parsed_fault memory_usage m (some v) = refl
    parsed_fault memory_limit m (some v) = refl
    parsed_fault restarts m (some v) = refl
    parsed_fault ready m (some v) = by_value (floats.is_one v)
      where
        by_value :
            (b : Bool)
            → faults_in (new_pods floats ns) (if b then write m set_ready else keep) ≡ false
        by_value true = refl
        by_value false = refl
    parsed_fault phase m (some v) = refl
    parsed_fault oom_killed m (some v) = refl

    value_fault :
        (job : Job) (m : String) (vs : List JsonValue)
        → faults_in (new_pods floats ns) (value_change floats job m (second vs))
          ≡ (any (λ n. str_eq n m) ns && no_text vs)
    unfolding value_change
    value_fault job m [] = has-new_pods m ns ∙ sym (and_true _)
    value_fault job m (_ ∷ []) = has-new_pods m ns ∙ sym (and_true _)
    value_fault job m (_ ∷ other t ∷ _) = has-new_pods m ns ∙ sym (and_true _)
    value_fault job m (_ ∷ text t ∷ _) = parsed_fault job m (floats.parse t) ∙ sym (and_false _)

    label_fault :
        (m : String) (o : Option String)
        → faults_in (new_pods floats ns) (label_change floats m o) ≡ false
    label_fault m none = refl
    label_fault m (some l) = refl

    -- Whether an entry makes the loop of the query panic.
    abbrev lost_by : Job → Option String → List JsonValue → Bool
    lost_by phase o vs = false
    lost_by oom_killed o vs = false
    lost_by cpu_usage o vs = is_one_of ns o && no_text vs
    lost_by cpu_limit o vs = is_one_of ns o && no_text vs
    lost_by memory_usage o vs = is_one_of ns o && no_text vs
    lost_by memory_limit o vs = is_one_of ns o && no_text vs
    lost_by restarts o vs = is_one_of ns o && no_text vs
    lost_by ready o vs = is_one_of ns o && no_text vs

    entry_fault :
        (job : Job) (r : QueryResult) (o : Option String)
        → faults_in (new_pods floats ns) (if_named floats job r o) ≡ lost_by job o r.value
    unfolding pod_change
    entry_fault phase r none = refl
    entry_fault oom_killed r none = refl
    entry_fault cpu_usage r none = refl
    entry_fault cpu_limit r none = refl
    entry_fault memory_usage r none = refl
    entry_fault memory_limit r none = refl
    entry_fault restarts r none = refl
    entry_fault ready r none = refl
    entry_fault phase r (some m) = label_fault m (lookup "phase" r.metric)
    entry_fault oom_killed r (some m) = refl
    entry_fault cpu_usage r (some m) = value_fault cpu_usage m r.value
    entry_fault cpu_limit r (some m) = value_fault cpu_limit m r.value
    entry_fault memory_usage r (some m) = value_fault memory_usage m r.value
    entry_fault memory_limit r (some m) = value_fault memory_limit m r.value
    entry_fault restarts r (some m) = value_fault restarts m r.value
    entry_fault ready r (some m) = value_fault ready m r.value

    loop_fault :
        (job : Job) (rs : List QueryResult)
        → any (faults_in (new_pods floats ns)) (map (change_of floats job) rs)
          ≡ any (λ r. lost_by job (lookup "pod" r.metric) r.value) rs
    unfolding change_of
    loop_fault job [] = refl
    loop_fault job (r ∷ rs) =
        ap (λ b. b || any (faults_in (new_pods floats ns)) (map (change_of floats job) rs))
          (entry_fault job r (lookup "pod" r.metric))
        ∙ ap (λ b. lost_by job (lookup "pod" r.metric) r.value || b) (loop_fault job rs)

    answer_fault :
        (job : Job) (a : Result PrometheusQueryResponse)
        → any (faults_in (new_pods floats ns)) (changes_of floats job a)
          ≡ any (λ r. lost_by job (lookup "pod" r.metric) r.value) (entries a)
    unfolding changes_of
    answer_fault job (err e) = refl
    answer_fault job (ok resp) = elim (Bool-cases (str_eq resp.result_type "vector")) [
      | inl e ↦ rw e (loop_fault job resp.result)
      | inr e ↦ rw e refl
    ]

    none_lost : (rs : List QueryResult) → any (λ r. false) rs ≡ false
    none_lost [] = refl
    none_lost (r ∷ rs) = none_lost rs

    all_faults :
        (answers : Job → Result PrometheusQueryResponse) (order : List Job)
        → any (faults_in (new_pods floats ns)) (all_changes floats answers order)
          ≡ any
              (λ job.
                any (λ r. lost_by job (lookup "pod" r.metric) r.value) (entries (answers job)))
              order
    all_faults answers [] = refl
    all_faults answers (j ∷ js) =
        any-append (faults_in (new_pods floats ns)) (changes_of floats j (answers j))
          (all_changes floats answers js)
        ∙ ap (λ b. b || any (faults_in (new_pods floats ns)) (all_changes floats answers js))
            (answer_fault j (answers j))
        ∙ ap (λ b. any (λ r. lost_by j (lookup "pod" r.metric) r.value) (entries (answers j)) || b)
            (all_faults answers js)

    abbrev pub panics : (Job → Result PrometheusQueryResponse) → Bool
    panics answers = any (λ job. any (unreadable ns) (entries (answers job))) number_jobs

    pub number_faults :
        (answers : Job → Result PrometheusQueryResponse)
        → any (faults_in (new_pods floats ns)) (all_changes floats answers all_jobs)
          ≡ panics answers
    number_faults answers =
        all_faults answers all_jobs
        ∙ ap (λ b. before (b || (any (λ r. false) (entries (answers oom_killed)) || false)))
            (none_lost (entries (answers phase)))
        ∙ ap (λ b. before (b || false)) (none_lost (entries (answers oom_killed)))
      where
        before : Bool → Bool
        before b =
            any (unreadable ns) (entries (answers cpu_usage))
            || (any (unreadable ns) (entries (answers cpu_limit))
                || (any (unreadable ns) (entries (answers memory_usage))
                    || (any (unreadable ns) (entries (answers memory_limit))
                        || (any (unreadable ns) (entries (answers restarts))
                            || (any (unreadable ns) (entries (answers ready)) || b)))))
