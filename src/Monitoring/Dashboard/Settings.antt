-- ===== src/Monitoring/Dashboard/Settings.antt =====
-- The fields of a PodStatus that the queries of GetStatusDashboard fill in.
use chatops.Base.{ℤ, true, String, ◌≡◌, ◌≢◌, refl, List, ◌∷◌, []}
use chatops.Monitoring.Types.{PodStatus}

-- The eight queries, each in a goroutine of its own.
pub data Job : Type 0 where
  cpu_usage cpu_limit memory_usage memory_limit restarts ready phase oom_killed : Job

-- One write into a PodStatus.
pub data Setting (F : Type 0) : Type 0 where
  set_cpu_usage set_cpu_limit set_memory_usage set_memory_limit : F → Setting F
  set_restarts : ℤ → Setting F
  set_ready : Setting F
  set_phase : String → Setting F
  set_oom_killed : Setting F

-- The query that makes the write.
abbrev pub job_of : {F : Type 0} → Setting F → Job
job_of (set_cpu_usage v) = cpu_usage
job_of (set_cpu_limit v) = cpu_limit
job_of (set_memory_usage v) = memory_usage
job_of (set_memory_limit v) = memory_limit
job_of (set_restarts n) = restarts
job_of set_ready = ready
job_of (set_phase p) = phase
job_of set_oom_killed = oom_killed

unfoldable pub apply : {F : Type 0} → Setting F → PodStatus F → PodStatus F
apply (set_cpu_usage v) ps = record ps { cpu_usage_cores = v }
apply (set_cpu_limit v) ps = record ps { cpu_limit_cores = v }
apply (set_memory_usage v) ps = record ps { memory_usage_bytes = v }
apply (set_memory_limit v) ps = record ps { memory_limit_bytes = v }
apply (set_restarts n) ps = record ps { restarts = n }
apply set_ready ps = record ps { ready = true }
apply (set_phase p) ps = record ps { phase = p }
apply set_oom_killed ps = record ps { oom_killed = true }

-- Writes of different queries touch different fields.
pub apply_comm :
    {F : Type 0} (s t : Setting F) (ps : PodStatus F)
    → job_of s ≢ job_of t
    → apply s (apply t ps) ≡ apply t (apply s ps)
unfolding apply
apply_comm (set_cpu_usage v) (set_cpu_usage w) ps h = absurd (h refl)
apply_comm (set_cpu_limit v) (set_cpu_limit w) ps h = absurd (h refl)
apply_comm (set_memory_usage v) (set_memory_usage w) ps h = absurd (h refl)
apply_comm (set_memory_limit v) (set_memory_limit w) ps h = absurd (h refl)
apply_comm (set_restarts v) (set_restarts w) ps h = absurd (h refl)
apply_comm (set_phase v) (set_phase w) ps h = absurd (h refl)
apply_comm set_ready set_ready ps h = refl
apply_comm set_oom_killed set_oom_killed ps h = refl
apply_comm _ _ ps h = refl

abbrev pub all_jobs : List Job
all_jobs =
    cpu_usage ∷ cpu_limit ∷ memory_usage ∷ memory_limit ∷ restarts ∷ ready ∷ phase ∷ oom_killed ∷ []
