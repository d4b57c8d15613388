-- ===== src/Kube/Restart.antt =====
-- RestartDeploymentWithLogs of internal/kube/client.go.
pub mod Laws
pub mod Endings
use Prim.Native.String.{◌++◌}
use chatops.Base.{
  ℤ, Bool, true, false, ◌&&◌, String, Option, none, some, [], eqb_ℤ, leb_ℤ, pos, if◌then◌else◌,
}
use chatops.Go.Numbers.{format_int}
use chatops.Go.Maps.{Map, put}
use chatops.Effects.{Error, Outcome, done, fail, Eff, pure, raise, crash, on_error, ◌>>=◌, ◌>>◌}
use chatops.Kube.Types.{PodTemplate, Deployment, DeploymentStatus}
use chatops.Kube.Api.{Run, Api, call}
use chatops.Kube.Log.{LogChan, K8sClient, nil_clientset, clientset, log, with_close}
use chatops.Kube.Scale.{get_failed, update_failed}

abbrev pub restarted_at : String
restarted_at = "kubectl.kubernetes.io/restartedAt"

abbrev pub rolled_out_message : String
rolled_out_message = "✅ Rollout завершён успешно."

-- *p of a pointer: dereferencing nil panics.
abbrev pub deref : {S A : Type 0} → Option A → Eff S A
deref none = crash
deref (some a) = pure a

-- The annotations of the template, with an empty map for the nil one.
abbrev pub made : Option (Map String) → Map String
made none = []
made (some m) = m

-- The deployment with the time put into its template's annotations.
unfoldable pub with_restart : String → Deployment → Deployment
with_restart now dep = record dep {
  template = record dep.template {
    annotations = some (put restarted_at now (made dep.template.annotations));
  };
}

-- The four comparisons of the rollout's readiness.
unfoldable pub rolled_out : Deployment → ℤ → Bool
rolled_out dep wanted =
    leb_ℤ dep.generation dep.status.observed_generation
    && eqb_ℤ dep.status.updated_replicas wanted
    && eqb_ℤ dep.status.available_replicas wanted
    && eqb_ℤ dep.status.unavailable_replicas (pos 0)

unfoldable pub restart_progress : DeploymentStatus → ℤ → String
restart_progress status wanted =
    "🌀 Прогресс: обновлено "
    ++ format_int status.updated_replicas
    ++ "/"
    ++ format_int wanted
    ++ ", готово "
    ++ format_int status.available_replicas

abbrev pub restart_launched : String
restart_launched = "🚀 Rollout restart запущен..."

module _ {W : Type 0} (api : Api W) (namespace name : String) (ch : LogChan) where
  unfoldable pub restart_ready : Eff (Run W) Bool
  unfolding log
  restart_ready = do
    updated ←
        on_error (call (api.get_deployment namespace name))
          λ e. do log ch ("Ошибка чтения Deployment: " ++ e); raise e
    wanted ← deref updated.spec_replicas
    log ch (restart_progress updated.status wanted)
    if rolled_out updated wanted then (do log ch rolled_out_message; pure true) else pure false

  -- time.Now().Format(time.RFC3339Nano)
  abbrev pub time_now : Eff (Run W) String
  time_now s = let (t, w) = api.now s.world in (done t, record s { world = w })

  unfoldable pub restart_body : Eff (Run W) (Unit {0})
  unfolding log restart_ready
  restart_body = do
    dep ←
        on_error (call (api.get_deployment namespace name))
          λ e. do log ch (get_failed e namespace name); raise e
    now ← time_now
    on_error (call (api.update_deployment namespace (with_restart now dep)))
        λ e. do log ch (update_failed e); raise e
    log ch restart_launched
    api.poll restart_ready

abbrev restart_client :
    {W : Type 0} → K8sClient W → String → String → LogChan → Eff (Run W) (Unit {0})
restart_client nil_clientset namespace name ch = raise "client not initialized"
restart_client (clientset api) namespace name ch = restart_body api namespace name ch

unfoldable pub restart_deployment_with_logs :
    {W : Type 0} → K8sClient W → String → String → LogChan → Eff (Run W) (Unit {0})
unfolding with_close restart_body
restart_deployment_with_logs c namespace name ch =
    with_close ch (restart_client c namespace name ch)
