-- ===== src/Bot/Handlers/Kube.antt =====
-- kube_handlers.go of internal/bot/handlers: the commands on deployments and pods.
pub mod Laws
pub mod Scaled
use chatops.Kube.Types.{RevisionInfo}
use chatops.Kube.Log.{K8sClient, start, open_chan}
use chatops.Base.{String, List, ◌∷◌, [], ℕ, Bool, Char, true, not, str_eq, ℤ, map}
use Prim.Native.String.{◌++◌}
use chatops.Bot.Handlers.Chat.{Chat, relay, Talk, with_logs, say}
use chatops.Go.Strings.{split_n}
use chatops.Go.Numbers.{format_int, Parsed, parse_int, to_int32, parsed}
use chatops.Effects.{Outcome, Eff, done, fail, panic}
use chatops.Kube.Api.{Run}
use chatops.Kube.Listing.{list_available_revisions, list_pods}
use chatops.Kube.Scale.{scale_deployment_with_logs}
use chatops.Kube.Restart.{restart_deployment_with_logs}
use chatops.Kube.Rollback.{rollback_deployment_with_logs}

abbrev pub every : String → Bool
every m = true

abbrev pub nonempty : String → Bool
nonempty m = not (str_eq m "")

unfoldable pub revision_text : RevisionInfo → String
revision_text r =
    "Revision: " ++ format_int r.revision ++ ", RSName: " ++ r.rs_name ++ ", Image: " ++ r.image

unfoldable pub pods_text : List String → String
pods_text [] = ""
pods_text (pod ∷ pods) = pod ++ "\n" ++ pods_text pods

-- `client` is GlobalKubeClient, and `with_timeout` puts the deadline of context.WithTimeout, in
-- seconds, into the surroundings.
module _ {W S : Type 0} (client : K8sClient W) (with_timeout : ℕ → W → W) (chat : Chat S) where
  abbrev pub scaling : String → String → ℤ → Eff (Talk W S) (Unit {0})
  scaling namespace name num =
      with_logs chat nonempty (with_timeout 20)
        (scale_deployment_with_logs client namespace name (to_int32 num) open_chan)

  abbrev pub scale_number : String → String → Parsed → Eff (Talk W S) (Unit {0})
  scale_number namespace name (parsed num) = scaling namespace name num
  scale_number namespace name _ = say chat "Ошибки при чтении числа реплик"

  abbrev pub scale_data : String → List String → Eff (Talk W S) (Unit {0})
  scale_data count (namespace ∷ name ∷ _) = scale_number namespace name (parse_int count)
  scale_data count _ = say chat "Ошибка в парсинге namespace/name"

  abbrev pub scale_parts : List String → Eff (Talk W S) (Unit {0})
  scale_parts (_ ∷ target ∷ count ∷ _) = scale_data count (split_n 2 "/" target)
  scale_parts _ = say chat "Неправильное кол-во параметров"

  -- ScaleHandler, by the text of the message.
  unfoldable pub scale_handler : String → Eff (Talk W S) (Unit {0})
  unfolding split_n parse_int to_int32
  scale_handler text = scale_parts (split_n 3 " " text)

  abbrev pub restart_data : List String → Eff (Talk W S) (Unit {0})
  restart_data (namespace ∷ name ∷ _) =
      with_logs chat every (with_timeout 10)
        (restart_deployment_with_logs client namespace name open_chan)
  restart_data _ = say chat "Ошибка в парсинге namespace/name "

  abbrev pub restart_parts : List String → Eff (Talk W S) (Unit {0})
  restart_parts (_ ∷ target ∷ _) = restart_data (split_n 2 "/" target)
  restart_parts _ = say chat "Неправильное кол-во параметров "

  unfoldable pub restart_handler : String → Eff (Talk W S) (Unit {0})
  unfolding split_n
  restart_handler text = restart_parts (split_n 2 " " text)

  abbrev pub rolling_back : String → String → ℤ → Eff (Talk W S) (Unit {0})
  rolling_back namespace name num =
      with_logs chat every (with_timeout 30)
        (rollback_deployment_with_logs client namespace name num open_chan)

  abbrev pub rollback_number : String → String → Parsed → Eff (Talk W S) (Unit {0})
  rollback_number namespace name (parsed num) = rolling_back namespace name num
  rollback_number namespace name _ = say chat "Ошибки при чтении числа реплик "

  abbrev pub rollback_data : String → List String → Eff (Talk W S) (Unit {0})
  rollback_data count (namespace ∷ name ∷ _) = rollback_number namespace name (parse_int count)
  rollback_data count _ = say chat "Ошибка в парсинге namespace/name "

  abbrev pub rollback_parts : List String → Eff (Talk W S) (Unit {0})
  rollback_parts (_ ∷ target ∷ count ∷ _) = rollback_data count (split_n 2 "/" target)
  rollback_parts _ = say chat "Неправильное кол-во параметров "

  unfoldable pub rollback_handler : String → Eff (Talk W S) (Unit {0})
  unfolding split_n parse_int
  rollback_handler text = rollback_parts (split_n 3 " " text)

  -- The answer to a list of revisions: one message each, or the error.
  abbrev told_revisions : Outcome (List RevisionInfo) × Run W → S → Outcome (Unit {0}) × Talk W S
  told_revisions (done infos, u) s =
      (done tt, record { world = u.world; chat = relay chat every (map revision_text infos) s })
  told_revisions (fail e, u) s = (fail e, record { world = u.world; chat = s })
  told_revisions (panic, u) s = (panic, record { world = u.world; chat = s })

  abbrev pub revisions_data : List String → Eff (Talk W S) (Unit {0})
  revisions_data (namespace ∷ name ∷ _) t =
      told_revisions
        (list_available_revisions client namespace name (start (with_timeout 10 t.world))) t.chat
  revisions_data _ t = say chat "Ошибка в парсинге namespace/name " t

  abbrev pub revisions_parts : List String → Eff (Talk W S) (Unit {0})
  revisions_parts (_ ∷ target ∷ _) = revisions_data (split_n 2 "/" target)
  revisions_parts _ = say chat "Неправильное кол-во параметров "

  unfoldable pub revisions_handler : String → Eff (Talk W S) (Unit {0})
  unfolding split_n relay revision_text
  revisions_handler text = revisions_parts (split_n 2 " " text)

  abbrev told_pods : Outcome (List String) × Run W → S → Outcome (Unit {0}) × Talk W S
  told_pods (done pods, u) s = say chat (pods_text pods) (record { world = u.world; chat = s })
  told_pods (fail e, u) s = (fail e, record { world = u.world; chat = s })
  told_pods (panic, u) s = (panic, record { world = u.world; chat = s })

  abbrev pub list_pods_parts : List String → Eff (Talk W S) (Unit {0})
  list_pods_parts (_ ∷ namespace ∷ _) t =
      told_pods (list_pods client namespace (start (with_timeout 10 t.world))) t.chat
  list_pods_parts _ t = say chat "Неправильное кол-во параметров " t

  unfoldable pub list_pods_handler : String → Eff (Talk W S) (Unit {0})
  unfolding split_n pods_text
  list_pods_handler text = list_pods_parts (split_n 2 " " text)
