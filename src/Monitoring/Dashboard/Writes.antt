-- ===== src/Monitoring/Dashboard/Writes.antt =====
-- The writes of the loops of GetStatusDashboard, pod by pod.
use chatops.Base.{
  Bool, false, String, Option, none, some, List, [], ◌∷◌, ◌++◌, ◌≡◌, refl, ap, sym, ◌∙◌, any,
  any_eq, if◌then◌else◌, str_eq, fun_ext, Bool-cases, inl, inr,
}
use chatops.Effects.{Result}
use chatops.Go.Maps.{Map}
use chatops.Monitoring.Types.{PodStatus, Floats, PrometheusQueryResponse}
use chatops.Monitoring.Dashboard.Settings.{Job, Setting, apply}
use chatops.Monitoring.Dashboard.Queries.{Change, keep, fault, write}
use chatops.Monitoring.Dashboard.Commute.{has-adjust}
use chatops.Monitoring.Dashboard.{
  adjust, change, changes, changes_of, has, run_jobs, new_pod, new_pods, unless_panicked, ◌>=>◌,
}

module _ {F : Type 0} where
  -- The writes to a pod, in their order, and what they make of its status.
  abbrev pub settings_for : String → List (Change F) → List (Setting F)
  settings_for m [] = []
  settings_for m (keep ∷ cs) = settings_for m cs
  settings_for m (fault n ∷ cs) = settings_for m cs
  settings_for m (write n s ∷ cs) = if str_eq m n then s ∷ settings_for m cs else settings_for m cs

  abbrev pub apply_all : List (Setting F) → PodStatus F → PodStatus F
  apply_all [] ps = ps
  apply_all (s ∷ ss) ps = apply_all ss (apply s ps)

  -- An entry without a text, about a pod of the dashboard.
  abbrev pub faults_in : Map (PodStatus F) → Change F → Bool
  faults_in pods keep = false
  faults_in pods (fault n) = has n pods
  faults_in pods (write n s) = false

  abbrev pub settled : List (Change F) → Map (PodStatus F) → Map (PodStatus F)
  settled cs [] = []
  settled cs ((m, ps) ∷ pods) = (m, apply_all (settings_for m cs) ps) ∷ settled cs pods

  settled_eq :
      (cs ds : List (Change F)) (pods : Map (PodStatus F))
      → ((m : String) → settings_for m cs ≡ settings_for m ds)
      → settled cs pods ≡ settled ds pods
  settled_eq cs ds [] same = refl
  settled_eq cs ds ((m, ps) ∷ pods) same = rw (same m, settled_eq cs ds pods same) refl

  settled_nothing : (pods : Map (PodStatus F)) → settled [] pods ≡ pods
  settled_nothing [] = refl
  settled_nothing ((m, ps) ∷ pods) = ap (λ rest. (m, ps) ∷ rest) (settled_nothing pods)

  settled-write :
      (n : String) (s : Setting F) (cs : List (Change F)) (pods : Map (PodStatus F))
      → settled cs (adjust n s pods) ≡ settled (write n s ∷ cs) pods
  unfolding adjust
  settled-write n s cs [] = refl
  settled-write n s cs ((m, ps) ∷ pods) = elim (Bool-cases (str_eq m n)) [
    | inl same ↦ rw (same, settled-write n s cs pods) refl
    | inr other ↦ rw (other, settled-write n s cs pods) refl
  ]

  faults_in-adjust :
      (n : String) (s : Setting F) (pods : Map (PodStatus F)) (c : Change F)
      → faults_in (adjust n s pods) c ≡ faults_in pods c
  faults_in-adjust n s pods keep = refl
  faults_in-adjust n s pods (fault m) = has-adjust m n s pods
  faults_in-adjust n s pods (write m t) = refl

  -- The changes, one after the other, against each pod on its own.
  pub changes_lem :
      (cs : List (Change F)) (pods : Map (PodStatus F))
      → changes cs pods ≡ (if any (faults_in pods) cs then none else some (settled cs pods))
  unfolding changes change
  changes_lem [] pods = ap some (sym (settled_nothing pods))
  changes_lem (keep ∷ cs) pods =
      changes_lem cs pods
      ∙ ap (λ ps. if any (faults_in pods) cs then none else some ps)
          (settled_eq cs (keep ∷ cs) pods (λ m. refl))
  changes_lem (fault n ∷ cs) pods = elim (Bool-cases (has n pods)) [
    | inl there ↦ rw there refl
    | inr absent ↦ rw absent (
        changes_lem cs pods
        ∙ ap (λ ps. if any (faults_in pods) cs then none else some ps)
            (settled_eq cs (fault n ∷ cs) pods (λ m. refl)))
  ]
  changes_lem (write n s ∷ cs) pods =
      changes_lem cs (adjust n s pods)
      ∙ ap (λ b. if b then none else some (settled cs (adjust n s pods)))
          (any_eq (faults_in (adjust n s pods)) (faults_in pods) (faults_in-adjust n s pods) cs)
      ∙ ap (λ ps. if any (faults_in pods) cs then none else some ps) (settled-write n s cs pods)

  changes-append :
      (cs ds : List (Change F)) (pods : Map (PodStatus F))
      → changes (cs ++ ds) pods ≡ (changes cs >=> changes ds) pods
  unfolding changes
  changes-append [] ds pods = refl
  changes-append (c ∷ cs) ds pods = step_lem (change c pods) (changes-append cs ds)
    where
      step_lem :
          (o : Option (Map (PodStatus F)))
          → ((ps : Map (PodStatus F)) → changes (cs ++ ds) ps ≡ (changes cs >=> changes ds) ps)
          → unless_panicked o (changes (cs ++ ds))
            ≡ unless_panicked (unless_panicked o (changes cs)) (changes ds)
      step_lem none ih = refl
      step_lem (some ps) ih = ih ps

module _ {F : Type 0} (floats : Floats F) where
  -- The pods of the dashboard, each with what the entries about it have written.
  abbrev pub filled : List String → List (Change F) → Map (PodStatus F)
  filled [] cs = []
  filled (n ∷ ns) cs = (n, apply_all (settings_for n cs) (new_pod floats n)) ∷ filled ns cs

  settled-new_pods :
      (cs : List (Change F)) (ns : List String) → settled cs (new_pods floats ns) ≡ filled ns cs
  settled-new_pods cs [] = refl
  settled-new_pods cs (n ∷ ns) =
      ap (λ rest. (n, apply_all (settings_for n cs) (new_pod floats n)) ∷ rest)
        (settled-new_pods cs ns)

module _ {F : Type 0} (floats : Floats F) (answers : Job → Result PrometheusQueryResponse) where
  -- What all the queries change, in the order of their loops.
  abbrev pub all_changes : List Job → List (Change F)
  all_changes [] = []
  all_changes (j ∷ js) = changes_of floats j (answers j) ++ all_changes js

  run_jobs-changes :
      (order : List Job) (pods : Map (PodStatus F))
      → run_jobs floats answers order pods ≡ changes (all_changes order) pods
  unfolding run_jobs changes
  run_jobs-changes [] pods = refl
  run_jobs-changes (j ∷ js) pods =
      ap
        (λ (f : Map (PodStatus F) → Option (Map (PodStatus F))).
          unless_panicked (changes (changes_of floats j (answers j)) pods) f)
        (fun_ext (run_jobs-changes js))
      ∙ sym (changes-append (changes_of floats j (answers j)) (all_changes js) pods)

  pub run_jobs-filled :
      (order : List Job) (names : List String)
      → run_jobs floats answers order (new_pods floats names) ≡ (
          if any (faults_in (new_pods floats names)) (all_changes order)
          then none
          else some (filled floats names (all_changes order)))
  run_jobs-filled order names =
      run_jobs-changes order (new_pods floats names)
      ∙ changes_lem (all_changes order) (new_pods floats names)
      ∙ ap
          (λ ps.
            if any (faults_in (new_pods floats names)) (all_changes order) then none else some ps)
          (settled-new_pods floats (all_changes order) names)
