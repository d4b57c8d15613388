-- ===== src/Monitoring/Dashboard/Fields.antt =====
-- What one loop of GetStatusDashboard makes of its field, by the entries about a pod.
use chatops.Monitoring.Dashboard.Settings.{
  cpu_usage, cpu_limit, memory_usage, memory_limit, restarts, phase,
}
use chatops.Monitoring.Dashboard.Pods.{int64_of, labelled}
use chatops.Go.Maps.{lookup}
use chatops.Base.{none, []}
use chatops.Base.{
  List, ◌≡◌, Bool, String, ◌||◌, arith, Option, ◌∷◌, any, true, ap, sym, ◌∙◌, some, refl,
}
use chatops.Monitoring.Dashboard.Pods.{
  entered, or_else, is_one, last_value, number_in, or_false, or_true, numbered,
}
use chatops.Monitoring.Types.{Floats, QueryResult}
use chatops.Monitoring.Dashboard.{PodStatus}
use chatops.Monitoring.Dashboard.Settings.{Job, ready, oom_killed}

or_assoc : (a b c : Bool) → ((a || b) || c) ≡ (a || (b || c))
or_assoc a b c = ground arith

module _ {F : Type 0} (floats : Floats F) where
  abbrev pub entered_all : Job → List QueryResult → PodStatus F → PodStatus F
  entered_all job [] ps = ps
  entered_all job (r ∷ rs) ps = entered_all job rs (entered floats job r ps)

  -- A field that holds the value of the last entry that has one.
  last_lem :
      {A : Type 0} (job : Job) (put : A → PodStatus F → PodStatus F) (get : PodStatus F → A)
      (read : QueryResult → Option A)
      → ((r : QueryResult) (ps : PodStatus F)
          → entered floats job r ps ≡ put (or_else (read r) (get ps)) ps)
      → ((a : A) (ps : PodStatus F) → get (put a ps) ≡ a)
      → ((a b : A) (ps : PodStatus F) → put b (put a ps) ≡ put b ps)
      → ((ps : PodStatus F) → put (get ps) ps ≡ ps)
      → (rs : List QueryResult) (ps : PodStatus F)
      → entered_all job rs ps ≡ put (last_value read (get ps) rs) ps
  last_lem job put get read step got over same [] ps = sym (same ps)
  last_lem job put get read step got over same (r ∷ rs) ps =
      let v = or_else (read r) (get ps) in
      ap (entered_all job rs) (step r ps)
      ∙ last_lem job put get read step got over same rs (put v ps)
      ∙ over v _ ps
      ∙ ap (λ a. put (last_value read a rs) ps) (got v ps)

  pub ready_lem :
      (rs : List QueryResult) (ps : PodStatus F)
      → entered_all ready rs ps
        ≡ record ps { ready = ps.ready || any (λ r. is_one floats (number_in floats r.value)) rs }
  ready_lem [] ps = ap (λ b. record ps { ready = b }) (sym (or_false ps.ready))
  ready_lem (r ∷ rs) ps = by_number (number_in floats r.value) (ready_lem rs)
    where
      by_number :
          (o : Option F)
          → ((qs : PodStatus F)
              → entered_all ready rs qs ≡ record qs {
                ready = qs.ready || any (λ r. is_one floats (number_in floats r.value)) rs;
              })
          → entered_all ready rs (numbered floats ready o ps) ≡ record ps {
            ready =
                ps.ready
                || (is_one floats o || any (λ r. is_one floats (number_in floats r.value)) rs);
          }
      by_number none ih = ih ps
      by_number (some v) ih =
          ih _ ∙ ap (λ b. record ps { ready = b }) (or_assoc ps.ready (floats.is_one v) _)

  pub oom_killed_lem :
      (rs : List QueryResult) (ps : PodStatus F)
      → entered_all oom_killed rs ps
        ≡ record ps { oom_killed = ps.oom_killed || any (λ r. true) rs }
  oom_killed_lem [] ps = ap (λ b. record ps { oom_killed = b }) (sym (or_false ps.oom_killed))
  oom_killed_lem (r ∷ rs) ps =
      oom_killed_lem rs _ ∙ ap (λ b. record ps { oom_killed = b }) (sym (or_true ps.oom_killed))

  number_put :
      (job : Job) (put : F → PodStatus F → PodStatus F) (get : PodStatus F → F)
      → ((v : F) (ps : PodStatus F) → numbered floats job (some v) ps ≡ put v ps)
      → ((ps : PodStatus F) → put (get ps) ps ≡ ps)
      → (o : Option F) (ps : PodStatus F) → numbered floats job o ps ≡ put (or_else o (get ps)) ps
  number_put job put get new same none ps = sym (same ps)
  number_put job put get new same (some v) ps = new v ps

  restarts_put :
      (o : Option F) (ps : PodStatus F)
      → numbered floats restarts o ps
        ≡ record ps { restarts = or_else (int64_of floats o) ps.restarts }
  restarts_put none ps = refl
  restarts_put (some v) ps = refl

  phase_put :
      (o : Option String) (ps : PodStatus F)
      → labelled floats o ps ≡ record ps { phase = or_else o ps.phase }
  phase_put none ps = refl
  phase_put (some l) ps = refl

  pub cpu_usage_lem :
      (rs : List QueryResult) (ps : PodStatus F)
      → entered_all cpu_usage rs ps ≡ record ps {
        cpu_usage_cores = last_value (λ r. number_in floats r.value) ps.cpu_usage_cores rs;
      }
  cpu_usage_lem =
      last_lem cpu_usage (λ v ps. record ps { cpu_usage_cores = v }) (λ ps. ps.cpu_usage_cores)
        (λ r. number_in floats r.value)
        (λ r.
          number_put cpu_usage (λ v ps. record ps { cpu_usage_cores = v })
            (λ ps. ps.cpu_usage_cores) (λ v ps. refl) (λ ps. refl) (number_in floats r.value))
        (λ a ps. refl) (λ a b ps. refl) (λ ps. refl)

  pub cpu_limit_lem :
      (rs : List QueryResult) (ps : PodStatus F)
      → entered_all cpu_limit rs ps ≡ record ps {
        cpu_limit_cores = last_value (λ r. number_in floats r.value) ps.cpu_limit_cores rs;
      }
  cpu_limit_lem =
      last_lem cpu_limit (λ v ps. record ps { cpu_limit_cores = v }) (λ ps. ps.cpu_limit_cores)
        (λ r. number_in floats r.value)
        (λ r.
          number_put cpu_limit (λ v ps. record ps { cpu_limit_cores = v })
            (λ ps. ps.cpu_limit_cores) (λ v ps. refl) (λ ps. refl) (number_in floats r.value))
        (λ a ps. refl) (λ a b ps. refl) (λ ps. refl)

  pub memory_usage_lem :
      (rs : List QueryResult) (ps : PodStatus F)
      → entered_all memory_usage rs ps ≡ record ps {
        memory_usage_bytes = last_value (λ r. number_in floats r.value) ps.memory_usage_bytes rs;
      }
  memory_usage_lem =
      last_lem memory_usage (λ v ps. record ps { memory_usage_bytes = v })
        (λ ps. ps.memory_usage_bytes) (λ r. number_in floats r.value)
        (λ r.
          number_put memory_usage (λ v ps. record ps { memory_usage_bytes = v })
            (λ ps. ps.memory_usage_bytes) (λ v ps. refl) (λ ps. refl) (number_in floats r.value))
        (λ a ps. refl) (λ a b ps. refl) (λ ps. refl)

  pub memory_limit_lem :
      (rs : List QueryResult) (ps : PodStatus F)
      → entered_all memory_limit rs ps ≡ record ps {
        memory_limit_bytes = last_value (λ r. number_in floats r.value) ps.memory_limit_bytes rs;
      }
  memory_limit_lem =
      last_lem memory_limit (λ v ps. record ps { memory_limit_bytes = v })
        (λ ps. ps.memory_limit_bytes) (λ r. number_in floats r.value)
        (λ r.
          number_put memory_limit (λ v ps. record ps { memory_limit_bytes = v })
            (λ ps. ps.memory_limit_bytes) (λ v ps. refl) (λ ps. refl) (number_in floats r.value))
        (λ a ps. refl) (λ a b ps. refl) (λ ps. refl)

  pub restarts_lem :
      (rs : List QueryResult) (ps : PodStatus F)
      → entered_all restarts rs ps ≡ record ps {
        restarts = last_value (λ r. int64_of floats (number_in floats r.value)) ps.restarts rs;
      }
  restarts_lem =
      last_lem restarts (λ v ps. record ps { restarts = v }) (λ ps. ps.restarts)
        (λ r. int64_of floats (number_in floats r.value))
        (λ r. restarts_put (number_in floats r.value)) (λ a ps. refl) (λ a b ps. refl) (λ ps. refl)

  pub phase_lem :
      (rs : List QueryResult) (ps : PodStatus F)
      → entered_all phase rs ps
        ≡ record ps { phase = last_value (λ r. lookup "phase" r.metric) ps.phase rs }
  phase_lem =
      last_lem phase (λ v ps. record ps { phase = v }) (λ ps. ps.phase)
        (λ r. lookup "phase" r.metric) (λ r. phase_put (lookup "phase" r.metric)) (λ a ps. refl)
        (λ a b ps. refl) (λ ps. refl)
