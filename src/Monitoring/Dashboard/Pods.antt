-- ===== src/Monitoring/Dashboard/Pods.antt =====
-- What the answers to the queries of GetStatusDashboard say of each pod, entry by entry.
use chatops.Base.{
  Bool, true, false, ◌||◌, String, Option, none, some, List, [], ◌∷◌, any, ◌≡◌, refl, if◌then◌else◌,
  str_eq, arith, ◌∙◌, ap, ℤ, sym,
}
use chatops.Effects.{Result, ok, err}
use chatops.Go.Maps.{lookup}
use chatops.Monitoring.Types.{
  JsonValue, text, other, QueryResult, PrometheusQueryResponse, PodStatus, Floats,
}
use chatops.Monitoring.Dashboard.Settings.{
  Job, cpu_usage, cpu_limit, memory_usage, memory_limit, restarts, ready, phase, oom_killed, apply,
  set_oom_killed, set_cpu_usage, set_ready, set_phase, set_cpu_limit, set_memory_usage,
  set_memory_limit, set_restarts,
}
use chatops.Monitoring.Dashboard.Queries.{
  Change, change_of, value_change, parsed_change, pod_change, if_named, if_parsed, label_change,
  second, keep, write,
}
use chatops.Monitoring.Dashboard.{Setting}
use chatops.Monitoring.Dashboard.Writes.{settings_for, apply_all}

-- The entries of a vector; an error or another type of result has none.
abbrev pub entries : Result PrometheusQueryResponse → List QueryResult
entries (err e) = []
entries (ok r) = if str_eq r.result_type "vector" then r.result else []

abbrev pub is_pod : String → Option String → Bool
is_pod n none = false
is_pod n (some m) = str_eq n m

-- The entry's label "pod" is the name.
abbrev pub names : String → QueryResult → Bool
names n r = is_pod n (lookup "pod" r.metric)

abbrev pub or_else : {A : Type 0} → Option A → A → A
or_else none d = d
or_else (some a) d = a

-- What the last entry with a value gives.
abbrev pub last_value : {A : Type 0} → (QueryResult → Option A) → A → List QueryResult → A
last_value read d [] = d
last_value read d (r ∷ rs) = last_value read (or_else (read r) d) rs

pub or_true : (b : Bool) → (b || true) ≡ true
or_true b = ground arith

pub or_false : (b : Bool) → (b || false) ≡ b
or_false b = ground arith

module _ {F : Type 0} (floats : Floats F) where
  -- The number of an entry: its second value, where this is a text that ParseFloat reads.
  abbrev pub number_in : List JsonValue → Option F
  number_in (_ ∷ text t ∷ _) = floats.parse t
  number_in _ = none

  abbrev pub is_one : Option F → Bool
  is_one none = false
  is_one (some v) = floats.is_one v

  abbrev pub int64_of : Option F → Option ℤ
  int64_of none = none
  int64_of (some v) = some (floats.to_int64 v)

  -- The status of a pod, each field by the entries about the pod that the query for it has found.
  abbrev pub status_by : (Job → List QueryResult) → PodStatus F → PodStatus F
  status_by about ps = record {
    pod_name = ps.pod_name;
    phase = last_value (λ r. lookup "phase" r.metric) ps.phase (about phase);
    ready = ps.ready || any (λ r. is_one (number_in r.value)) (about ready);
    cpu_usage_cores = last_value (λ r. number_in r.value) ps.cpu_usage_cores (about cpu_usage);
    cpu_limit_cores = last_value (λ r. number_in r.value) ps.cpu_limit_cores (about cpu_limit);
    memory_usage_bytes =
        last_value (λ r. number_in r.value) ps.memory_usage_bytes (about memory_usage);
    memory_limit_bytes =
        last_value (λ r. number_in r.value) ps.memory_limit_bytes (about memory_limit);
    restarts = last_value (λ r. int64_of (number_in r.value)) ps.restarts (about restarts);
    oom_killed = ps.oom_killed || any (λ r. true) (about oom_killed);
  }

  -- What one entry about a pod does to its status.
  abbrev pub filled_in : Job → F → PodStatus F → PodStatus F
  filled_in cpu_usage v ps = record ps { cpu_usage_cores = v }
  filled_in cpu_limit v ps = record ps { cpu_limit_cores = v }
  filled_in memory_usage v ps = record ps { memory_usage_bytes = v }
  filled_in memory_limit v ps = record ps { memory_limit_bytes = v }
  filled_in restarts v ps = record ps { restarts = floats.to_int64 v }
  filled_in ready v ps = record ps { ready = ps.ready || floats.is_one v }
  filled_in phase v ps = ps
  filled_in oom_killed v ps = ps

  abbrev pub numbered : Job → Option F → PodStatus F → PodStatus F
  numbered job none ps = ps
  numbered job (some v) ps = filled_in job v ps

  abbrev pub labelled : Option String → PodStatus F → PodStatus F
  labelled none ps = ps
  labelled (some l) ps = record ps { phase = l }

  abbrev pub entered : Job → QueryResult → PodStatus F → PodStatus F
  entered phase r ps = labelled (lookup "phase" r.metric) ps
  entered oom_killed r ps = record ps { oom_killed = true }
  entered cpu_usage r ps = numbered cpu_usage (number_in r.value) ps
  entered cpu_limit r ps = numbered cpu_limit (number_in r.value) ps
  entered memory_usage r ps = numbered memory_usage (number_in r.value) ps
  entered memory_limit r ps = numbered memory_limit (number_in r.value) ps
  entered restarts r ps = numbered restarts (number_in r.value) ps
  entered ready r ps = numbered ready (number_in r.value) ps

  both_ways : (b : Bool) (ps : PodStatus F) → (if b then ps else ps) ≡ ps
  both_ways true ps = refl
  both_ways false ps = refl

  module _ (n : String) (cs : List (Change F)) (ps : PodStatus F) where
    written :
        (b : Bool) (x : Setting F)
        → apply_all (if b then x ∷ settings_for n cs else settings_for n cs) ps
          ≡ apply_all (settings_for n cs) (if b then apply x ps else ps)
    written true x = refl
    written false x = refl

    ready_entry :
        (m : String) (one : Bool)
        → apply_all (settings_for n ((if one then write m set_ready else keep) ∷ cs)) ps
          ≡ apply_all
              (settings_for n cs)
              (if str_eq n m then record ps { ready = ps.ready || one } else ps)
    unfolding apply
    ready_entry m true =
        written (str_eq n m) set_ready
        ∙ ap
            (λ x.
              apply_all (settings_for n cs) (if str_eq n m then record ps { ready = x } else ps))
            (sym (or_true ps.ready))
    ready_entry m false =
        ap (apply_all (settings_for n cs)) (sym (both_ways (str_eq n m) ps))
        ∙ ap
            (λ x.
              apply_all (settings_for n cs) (if str_eq n m then record ps { ready = x } else ps))
            (sym (or_false ps.ready))

    parsed_entry :
        (job : Job) (m : String) (o : Option F)
        → apply_all (settings_for n (if_parsed floats job m o ∷ cs)) ps
          ≡ apply_all (settings_for n cs) (if str_eq n m then numbered job o ps else ps)
    unfolding parsed_change apply
    parsed_entry job m none = ap (apply_all (settings_for n cs)) (sym (both_ways (str_eq n m) ps))
    parsed_entry cpu_usage m (some v) = written (str_eq n m) (set_cpu_usage v)
    parsed_entry cpu_limit m (some v) = written (str_eq n m) (set_cpu_limit v)
    parsed_entry memory_usage m (some v) = written (str_eq n m) (set_memory_usage v)
    parsed_entry memory_limit m (some v) = written (str_eq n m) (set_memory_limit v)
    parsed_entry restarts m (some v) = written (str_eq n m) (set_restarts (floats.to_int64 v))
    parsed_entry ready m (some v) = ready_entry m (floats.is_one v)
    parsed_entry phase m (some v) =
        ap (apply_all (settings_for n cs)) (sym (both_ways (str_eq n m) ps))
    parsed_entry oom_killed m (some v) =
        ap (apply_all (settings_for n cs)) (sym (both_ways (str_eq n m) ps))

    value_entry :
        (job : Job) (m : String) (vs : List JsonValue)
        → apply_all (settings_for n (value_change floats job m (second vs) ∷ cs)) ps
          ≡ apply_all
              (settings_for n cs)
              (if str_eq n m then numbered job (number_in vs) ps else ps)
    unfolding value_change
    value_entry job m [] = ap (apply_all (settings_for n cs)) (sym (both_ways (str_eq n m) ps))
    value_entry job m (_ ∷ []) =
        ap (apply_all (settings_for n cs)) (sym (both_ways (str_eq n m) ps))
    value_entry job m (_ ∷ other t ∷ _) =
        ap (apply_all (settings_for n cs)) (sym (both_ways (str_eq n m) ps))
    value_entry job m (_ ∷ text t ∷ _) = parsed_entry job m (floats.parse t)

    label_entry :
        (m : String) (o : Option String)
        → apply_all (settings_for n (label_change floats m o ∷ cs)) ps
          ≡ apply_all (settings_for n cs) (if str_eq n m then labelled o ps else ps)
    unfolding apply
    label_entry m none = ap (apply_all (settings_for n cs)) (sym (both_ways (str_eq n m) ps))
    label_entry m (some l) = written (str_eq n m) (set_phase l)

    pod_entry :
        (job : Job) (m : String) (r : QueryResult)
        → apply_all (settings_for n (pod_change floats job m r ∷ cs)) ps
          ≡ apply_all (settings_for n cs) (if str_eq n m then entered job r ps else ps)
    unfolding pod_change apply
    pod_entry phase m r = label_entry m (lookup "phase" r.metric)
    pod_entry oom_killed m r = written (str_eq n m) set_oom_killed
    pod_entry cpu_usage m r = value_entry cpu_usage m r.value
    pod_entry cpu_limit m r = value_entry cpu_limit m r.value
    pod_entry memory_usage m r = value_entry memory_usage m r.value
    pod_entry memory_limit m r = value_entry memory_limit m r.value
    pod_entry restarts m r = value_entry restarts m r.value
    pod_entry ready m r = value_entry ready m r.value

    -- One round of a loop, against one pod.
    pub one_entry :
        (job : Job) (r : QueryResult)
        → apply_all (settings_for n (change_of floats job r ∷ cs)) ps
          ≡ apply_all (settings_for n cs) (if names n r then entered job r ps else ps)
    unfolding change_of
    one_entry job r = by_name (lookup "pod" r.metric)
      where
        by_name :
            (o : Option String)
            → apply_all (settings_for n (if_named floats job r o ∷ cs)) ps
              ≡ apply_all (settings_for n cs) (if is_pod n o then entered job r ps else ps)
        by_name none = refl
        by_name (some m) = pod_entry job m r
