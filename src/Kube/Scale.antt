-- ===== src/Kube/Scale.antt =====
-- ScaleDeploymentWithLogs of internal/kube/client.go.
pub mod Laws
use Prim.Native.String.{◌++◌}
use chatops.Base.{ℤ, Bool, true, false, String, Option, some, eqb_ℤ, if◌then◌else◌}
use chatops.Go.Numbers.{format_int}
use chatops.Effects.{Error, Outcome, done, fail, Eff, pure, raise, on_error, ◌>>=◌, ◌>>◌, outcome}
use chatops.Kube.Types.{Deployment}
use chatops.Kube.Api.{Run, Api, call}
use chatops.Kube.Log.{LogChan, K8sClient, nil_clientset, clientset, log, with_close}

abbrev pub get_failed : Error → String → String → String
get_failed e namespace name =
    "Ошибка получения Deployment: " ++ e ++ "; namespace = " ++ namespace ++ "; name = " ++ name

abbrev pub scaled_message : String
scaled_message = "✅ Масштабирование завершено успешно."

unfoldable pub scale_begins : String → String → ℤ → String
scale_begins namespace name replicas =
    "🔧 Масштабируем Deployment "
    ++ name
    ++ " в namespace "
    ++ namespace
    ++ " до "
    ++ format_int replicas
    ++ " реплик..."

abbrev pub scale_launched : String
scale_launched = "🚀 Масштабирование запущено..."

abbrev pub update_failed : Error → String
update_failed e = "Ошибка обновления Deployment: " ++ e

unfoldable pub scale_status : ℤ → ℤ → String
scale_status available replicas =
    "🌀 Статус: доступно " ++ format_int available ++ "/" ++ format_int replicas ++ " реплик"

-- dep.Spec.Replicas = &replicas
abbrev pub with_replicas : ℤ → Deployment → Deployment
with_replicas replicas dep = record dep { spec_replicas = some replicas }

module _ {W : Type 0} (api : Api W) (namespace name : String) (replicas : ℤ) (ch : LogChan) where
  -- One round of the wait: has the deployment as many available replicas as were asked for?
  unfoldable pub scale_ready : Eff (Run W) Bool
  unfolding log
  scale_ready = do
    updated ←
        on_error (call (api.get_deployment namespace name))
          λ e. do log ch ("Ошибка чтения Deployment: " ++ e); raise e
    log ch (scale_status updated.status.available_replicas replicas)
    if eqb_ℤ updated.status.available_replicas replicas
        then (do log ch scaled_message; pure true)
        else pure false

  unfoldable pub scale_body : Eff (Run W) (Unit {0})
  unfolding log scale_ready
  scale_body = do
    dep ←
        on_error (call (api.get_deployment namespace name))
          λ e. do log ch (get_failed e namespace name); raise e
    log ch (scale_begins namespace name replicas)
    on_error (call (api.update_deployment namespace (with_replicas replicas dep)))
        λ e. do log ch (update_failed e); raise e
    log ch scale_launched
    api.poll scale_ready

abbrev scale_client :
    {W : Type 0} → K8sClient W → String → String → ℤ → LogChan → Eff (Run W) (Unit {0})
scale_client nil_clientset namespace name replicas ch = raise "client not initialized"
scale_client (clientset api) namespace name replicas ch = scale_body api namespace name replicas ch

unfoldable pub scale_deployment_with_logs :
    {W : Type 0} → K8sClient W → String → String → ℤ → LogChan → Eff (Run W) (Unit {0})
unfolding with_close scale_body
scale_deployment_with_logs c namespace name replicas ch =
    with_close ch (scale_client c namespace name replicas ch)
