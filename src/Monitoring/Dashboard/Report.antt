-- ===== src/Monitoring/Dashboard/Report.antt =====
-- The status that the loops of GetStatusDashboard leave, by the entries about the pod.
use chatops.Monitoring.Dashboard.Queries.{keep, fault, write}
use chatops.Monitoring.Dashboard.Settings.{
  cpu_usage, cpu_limit, memory_usage, memory_limit, restarts, phase, all_jobs,
}
use chatops.Monitoring.Dashboard.Settings.{apply}
use chatops.Base.{false, [], ◌++◌}
use chatops.Base.{
  List, ◌≡◌, Bool, String, ◌∷◌, true, map, select, ap, if◌then◌else◌, ◌∙◌, Bool-cases, str_eq, inl,
  inr, refl,
}
use chatops.Monitoring.Dashboard.Pods.{entries, names, status_by, entered, one_entry}
use chatops.Monitoring.Types.{Floats, QueryResult}
use chatops.Monitoring.Dashboard.{
  changes_of, PodStatus, Result, Change, PrometheusQueryResponse, err, change_of, ok,
}
use chatops.Monitoring.Dashboard.Settings.{Job, ready, oom_killed}
use chatops.Monitoring.Dashboard.Writes.{apply_all, settings_for, all_changes}
use chatops.Monitoring.Dashboard.Fields.{
  cpu_usage_lem, entered_all, cpu_limit_lem, memory_usage_lem, memory_limit_lem, restarts_lem,
  ready_lem, phase_lem, oom_killed_lem,
}

module _ {F : Type 0} (floats : Floats F) where
  loop_lem :
      (job : Job) (n : String) (rs : List QueryResult) (ps : PodStatus F)
      → apply_all (settings_for n (map (change_of floats job) rs)) ps
        ≡ entered_all floats job (select (names n) rs) ps
  loop_lem job n [] ps = refl
  loop_lem job n (r ∷ rs) ps =
      one_entry floats n (map (change_of floats job) rs) ps job r
      ∙ about (names n r) (loop_lem job n rs)
    where
      about :
          (b : Bool)
          → ((qs : PodStatus F)
              → apply_all (settings_for n (map (change_of floats job) rs)) qs
                ≡ entered_all floats job (select (names n) rs) qs)
          → apply_all
              (settings_for n (map (change_of floats job) rs))
              (if b then entered floats job r ps else ps)
            ≡ entered_all floats job (if b then r ∷ select (names n) rs else select (names n) rs) ps
      about true ih = ih (entered floats job r ps)
      about false ih = ih ps

  answer_lem :
      (job : Job) (n : String) (a : Result PrometheusQueryResponse) (ps : PodStatus F)
      → apply_all (settings_for n (changes_of floats job a)) ps
        ≡ entered_all floats job (select (names n) (entries a)) ps
  unfolding changes_of
  answer_lem job n (err e) ps = refl
  answer_lem job n (ok resp) ps = elim (Bool-cases (str_eq resp.result_type "vector")) [
    | inl e ↦ rw e (loop_lem job n resp.result ps)
    | inr e ↦ rw e refl
  ]

  settings_for-append :
      (n : String) (cs ds : List (Change F)) (ps : PodStatus F)
      → apply_all (settings_for n (cs ++ ds)) ps
        ≡ apply_all (settings_for n ds) (apply_all (settings_for n cs) ps)
  settings_for-append n [] ds ps = refl
  settings_for-append n (keep ∷ cs) ds ps = settings_for-append n cs ds ps
  settings_for-append n (fault m ∷ cs) ds ps = settings_for-append n cs ds ps
  settings_for-append n (write m x ∷ cs) ds ps = about (str_eq n m) (settings_for-append n cs ds)
    where
      about :
          (b : Bool)
          → ((qs : PodStatus F)
              → apply_all (settings_for n (cs ++ ds)) qs
                ≡ apply_all (settings_for n ds) (apply_all (settings_for n cs) qs))
          → apply_all (if b then x ∷ settings_for n (cs ++ ds) else settings_for n (cs ++ ds)) ps
            ≡ apply_all
                (settings_for n ds)
                (apply_all (if b then x ∷ settings_for n cs else settings_for n cs) ps)
      about true ih = ih (apply x ps)
      about false ih = ih ps

  abbrev pub entered_jobs : (Job → List QueryResult) → List Job → PodStatus F → PodStatus F
  entered_jobs about [] ps = ps
  entered_jobs about (j ∷ js) ps = entered_jobs about js (entered_all floats j (about j) ps)

  -- All eight loops, in one order.
  pub entered_jobs-status_by :
      (about : Job → List QueryResult) (ps : PodStatus F)
      → entered_jobs about all_jobs ps ≡ status_by floats about ps
  entered_jobs-status_by about ps =
      ap
        (entered_jobs about
          (cpu_limit ∷ memory_usage ∷ memory_limit ∷ restarts ∷ ready ∷ phase ∷ oom_killed ∷ []))
        (cpu_usage_lem floats (about cpu_usage) ps)
      ∙ ap
          (entered_jobs about
            (memory_usage ∷ memory_limit ∷ restarts ∷ ready ∷ phase ∷ oom_killed ∷ []))
          (cpu_limit_lem floats (about cpu_limit) _)
      ∙ ap (entered_jobs about (memory_limit ∷ restarts ∷ ready ∷ phase ∷ oom_killed ∷ []))
          (memory_usage_lem floats (about memory_usage) _)
      ∙ ap (entered_jobs about (restarts ∷ ready ∷ phase ∷ oom_killed ∷ []))
          (memory_limit_lem floats (about memory_limit) _)
      ∙ ap (entered_jobs about (ready ∷ phase ∷ oom_killed ∷ []))
          (restarts_lem floats (about restarts) _)
      ∙ ap (entered_jobs about (phase ∷ oom_killed ∷ [])) (ready_lem floats (about ready) _)
      ∙ ap (entered_jobs about (oom_killed ∷ [])) (phase_lem floats (about phase) _)
      ∙ oom_killed_lem floats (about oom_killed) _

  pub all_changes-entered :
      (answers : Job → Result PrometheusQueryResponse) (order : List Job) (n : String)
      (ps : PodStatus F)
      → apply_all (settings_for n (all_changes floats answers order)) ps
        ≡ entered_jobs (λ job. select (names n) (entries (answers job))) order ps
  all_changes-entered answers [] n ps = refl
  all_changes-entered answers (j ∷ js) n ps =
      settings_for-append n (changes_of floats j (answers j)) (all_changes floats answers js) ps
      ∙ ap (apply_all (settings_for n (all_changes floats answers js)))
          (answer_lem j n (answers j) ps)
      ∙ all_changes-entered answers js n _
