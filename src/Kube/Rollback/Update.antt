-- ===== src/Kube/Rollback/Update.antt =====
-- The loop of RollbackDeploymentWithLogs that puts the old template into the deployment, and tries
-- again when somebody else has changed the deployment in between.
use Prim.Native.String.{◌++◌}
pub mod Laws
pub mod Rounds
use chatops.Base.{ℕ, zero, suc, Bool, true, false, String, if◌then◌else◌}
use chatops.Go.Strings.{contains}
use chatops.Effects.{done, Eff, pure, raise, on_error, ◌>>=◌, ◌>>◌}
use chatops.Kube.Types.{Deployment, PodTemplate}
use chatops.Kube.Api.{Run, Api, call}
use chatops.Kube.Log.{LogChan, log}

abbrev pub conflict_text : String
conflict_text = "the object has been modified"

abbrev pub conflict_message : String
conflict_message = "[rollback] Конфликт версий deployment, пробуем ещё раз..."

abbrev pub with_template : PodTemplate → Deployment → Deployment
with_template template dep = record dep { template = template }

module _ {W : Type 0} (api : Api W) (namespace name : String) (template : PodTemplate)
    (ch : LogChan) where
  abbrev pause : Eff (Run W) (Unit {0})
  pause s = (done tt, record s { world = api.sleep s.world })

  -- One attempt: read the deployment, and write it back with the old template. The answer says
  -- whether the write was accepted; `false` is a conflict.
  unfoldable pub attempt_update : Eff (Run W) Bool
  unfolding log
  attempt_update = do
    dep ← on_error (call (api.get_deployment namespace name)) λ e. do
      log ch ("[rollback] Ошибка получения deployment перед Update: " ++ e)
      raise ("ошибка получения deployment перед Update: " ++ e)
    on_error (do call (api.update_deployment namespace (with_template template dep)); pure true)
        λ e.
          if contains e conflict_text then (do log ch conflict_message; pause; pure false) else (do
            log ch ("[rollback] Ошибка обновления deployment: " ++ e)
            raise ("ошибка обновления deployment: " ++ e))

  -- The loop with so many attempts left. When none is left it just ends.
  unfoldable pub update_template : ℕ → Eff (Run W) (Unit {0})
  update_template zero = pure tt
  update_template (suc attempts) = do
    accepted ← attempt_update
    let again = update_template attempts
    if accepted then pure tt else again
