-- ===== src/Kube/Rollback.antt =====
-- RollbackDeploymentWithLogs of internal/kube/client.go.
pub mod Target
pub mod Update
pub mod Choice
pub mod Picked
pub mod Laws
pub mod Checks
pub mod Conflicts
pub mod Endings
use Prim.Native.String.{◌++◌}
use chatops.Base.{
  ℕ, ℤ, Bool, true, false, ◌&&◌, String, Option, none, some, List, [], ◌∷◌, eqb_ℤ, ltb, ltb_ℤ, pos,
  if◌then◌else◌, length, suc, zero,
}
use chatops.Go.Numbers.{format_int, parse_int, parsed, bad_syntax, out_of_range}
use chatops.Go.Maps.{lookup, get}
use chatops.Go.Sort.{sort}
use chatops.Effects.{
  Error, Outcome, done, fail, Eff, pure, raise, crash, on_error, ◌>>=◌, ◌>>◌, outcome,
}
use chatops.Kube.Types.{Deployment, ReplicaSet, DeploymentStatus}
use chatops.Kube.Api.{Run, Api, call}
use chatops.Kube.Log.{LogChan, K8sClient, nil_clientset, clientset, log, with_close}
use chatops.Kube.Scale.{get_failed}
use chatops.Kube.Restart.{deref}
use Target.{revision_key, newer, sought, choose}
use Update.{update_template}

abbrev pub applying_message : String
applying_message = "[rollback] Обновляем deployment с шаблоном пода из выбранного ReplicaSet..."

abbrev pub waiting_message : String
waiting_message = "[rollback] Ожидание завершения отката..."

abbrev pub rolled_back_message : String
rolled_back_message = "[rollback] Откат deployment успешно завершен"

-- The four comparisons of the rollback's readiness.
unfoldable pub settled : Deployment → ℤ → Bool
settled dep wanted =
    eqb_ℤ dep.status.available_replicas wanted
    && eqb_ℤ dep.status.updated_replicas wanted
    && eqb_ℤ dep.status.replicas wanted
    && eqb_ℤ dep.status.unavailable_replicas (pos 0)

unfoldable pub rollback_status : DeploymentStatus → ℤ → String
rollback_status status wanted =
    "[rollback] Статус: доступно "
    ++ format_int status.available_replicas
    ++ "/"
    ++ format_int wanted
    ++ ", обновлено: "
    ++ format_int status.updated_replicas
    ++ ", всего: "
    ++ format_int status.replicas
    ++ ", недоступно: "
    ++ format_int status.unavailable_replicas

module _ {W : Type 0} (api : Api W) (namespace name : String) (revision : ℤ) (ch : LogChan) where
  unfoldable pub rollback_ready : Eff (Run W) Bool
  unfolding log
  rollback_ready = do
    dep ←
        on_error (call (api.get_deployment namespace name))
          λ e. do log ch ("[rollback] Ошибка чтения deployment: " ++ e); raise e
    wanted ← deref dep.spec_replicas
    log ch (rollback_status dep.status wanted)
    pure (settled dep wanted)

  -- The loop that logs each ReplicaSet with its index.
  unfoldable pub log_sets : ℕ → List ReplicaSet → Eff (Run W) (Unit {0})
  unfolding log
  log_sets i [] = pure tt
  log_sets i (rs ∷ sets) = do
    log ch (
        "[rollback] RS["
        ++ format_int (pos i)
        ++ "]: "
        ++ rs.name
        ++ ", ревизия: "
        ++ get revision_key rs.annotations
        ++ ", replicas: "
        ++ format_int rs.replicas
        ++ ", ready: "
        ++ format_int rs.ready_replicas
        ++ ", created: "
        ++ api.format_time rs.created)
    log_sets (suc i) sets

  -- The number of the deployment's own revision.
  unfoldable pub current_revision : Deployment → Eff (Run W) ℤ
  unfolding log
  current_revision dep = elim (lookup revision_key dep.annotations) [
    | none ↦ do
      log ch "[rollback] Не удалось определить текущую ревизию deployment"
      raise "не удалось определить текущую ревизию deployment"
    | some text ↦ elim (parse_int text) [
      | parsed n ↦ pure n
      | _ ↦ do
        log ch "[rollback] Не удалось преобразовать ревизию deployment"
        raise "не удалось преобразовать ревизию deployment"
    ]
  ]

  -- Everything up to the choice of the ReplicaSet to go back to.
  unfoldable pub find_sets : Eff (Run W) (Deployment × List ReplicaSet)
  unfolding log log_sets
  find_sets = do
    log ch "[rollback] Получаем deployment..."
    dep ←
        on_error (call (api.get_deployment namespace name))
          λ e. do log ch (get_failed e namespace name); raise ("ошибка получения deployment: " ++ e)
    log ch "[rollback] Получаем селектор из deployment..."
    selector ←
        on_error (λ s. (outcome (api.label_selector dep.selector), s))
          λ e. do
            log ch ("[rollback] Ошибка создания селектора: " ++ e)
            raise ("ошибка создания селектора: " ++ e)
    log ch ("[rollback] Селектор: " ++ selector)
    log ch "[rollback] Получаем список ReplicaSets..."
    items ← on_error (call (api.list_replica_sets namespace selector)) λ e. do
      log ch ("[rollback] Ошибка получения списка ReplicaSets: " ++ e)
      raise ("ошибка получения списка ReplicaSets: " ++ e)
    log ch ("[rollback] Найдено ReplicaSets: " ++ format_int (pos (length items)))
    log_sets 0 items
    pure (dep, sort newer items)

  -- What the two loops over the ReplicaSets report.
  unfoldable pub found_target : ℤ → Option ReplicaSet → Eff (Run W) ReplicaSet
  unfolding log
  found_target wanted none =
      if ltb_ℤ (pos 0) revision
      then (do
        log ch ("[rollback] Ревизия " ++ format_int wanted ++ " не найдена")
        raise ("ревизия " ++ format_int wanted ++ " не найдена"))
      else (do
        log ch ("[rollback] Не найдена предыдущая ревизия " ++ format_int wanted)
        raise ("не найдена предыдущая ревизия " ++ format_int wanted))
  found_target wanted (some rs) = do
    log ch (
        (if ltb_ℤ (pos 0) revision
          then "[rollback] Найдена целевая ревизия: "
          else "[rollback] Используем предыдущую ревизию: ")
        ++ rs.name
        ++ " (реплики: "
        ++ format_int rs.replicas
        ++ ")")
    pure rs

  unfoldable pub choose_target : Deployment → List ReplicaSet → Eff (Run W) ReplicaSet
  unfolding log
  choose_target dep items =
      if ltb (length items) 2
      then (do
        log ch "[rollback] Недостаточно ревизий для отката (нужно минимум 2)"
        raise "недостаточно ревизий для отката (нужно минимум 2)")
      else (do
        current ← current_revision dep
        found_target (sought revision current) (choose revision current items))

  unfoldable pub wait_settled : Eff (Run W) (Unit {0})
  unfolding log
  wait_settled = on_error (api.poll rollback_ready) λ e. do
    log ch ("[rollback] ОШИБКА ожидания завершения отката: " ++ e)
    raise ("ошибка ожидания завершения отката: " ++ e)

  -- From the chosen ReplicaSet to the end.
  unfoldable pub apply_target : ReplicaSet → Eff (Run W) (Unit {0})
  unfolding log
  apply_target target = do
    log ch applying_message
    update_template api namespace name target.template ch 5
    log ch waiting_message
    wait_settled
    log ch rolled_back_message

  unfoldable pub rollback_body : Eff (Run W) (Unit {0})
  rollback_body = do (dep, items) ← find_sets; target ← choose_target dep items; apply_target target

-- With the nil clientset the first call panics, just behind the first message.
abbrev rollback_client :
    {W : Type 0} → K8sClient W → String → String → ℤ → LogChan → Eff (Run W) (Unit {0})
rollback_client nil_clientset namespace name revision ch = do
  log ch "[rollback] Получаем deployment..."
  crash
rollback_client (clientset api) namespace name revision ch =
    rollback_body api namespace name revision ch

unfoldable pub rollback_deployment_with_logs :
    {W : Type 0} → K8sClient W → String → String → ℤ → LogChan → Eff (Run W) (Unit {0})
unfolding log
rollback_deployment_with_logs c namespace name revision ch =
    with_close ch (rollback_client c namespace name revision ch)
