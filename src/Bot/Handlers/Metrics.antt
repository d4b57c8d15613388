-- ===== src/Bot/Handlers/Metrics.antt =====
-- metrics_handlers.go and alert_handlers.go of internal/bot/handlers.
pub mod Format
pub mod Laws
use Prim.Native.String.{◌++◌}
use chatops.Base.{String, List, [], ◌∷◌, if◌then◌else◌, ℕ, Bool, Char}
use chatops.Monitoring.Types.{
  text, other, JsonValue, Floats, QueryResult, ServiceStatusDashboard, PrometheusQueryResponse,
  Alert,
}
use chatops.Bot.Handlers.Metrics.Format.{alerts_message, format_dashboard}
use chatops.Go.Strings.{contains, split_n, split, join, trim_space}
use chatops.Monitoring.Client.{Http, Client, get_active_alerts, query, list_metrics}
use chatops.Go.Maps.{get}
use chatops.Bot.Handlers.Chat.{Chat, Talk, say, say_markdown}
use chatops.Effects.{Outcome, Error, Eff, Result, done, err, ok, fail, panic}
use chatops.Monitoring.Dashboard.Settings.{Job}
use chatops.Bot.Handlers.Markdown.{escape_markdown}
use chatops.Monitoring.Dashboard.{get_status_dashboard, Ranges}

abbrev pub timeout_text : String
timeout_text = "Превышено время ожидания запроса (timeout)"

abbrev pub or_default : List String → String
or_default [] = "default"
or_default (namespace ∷ _) = namespace

abbrev pub printed : JsonValue → String
printed (text t) = t
printed (other t) = t

unfoldable pub values_text : List JsonValue → String
values_text [] = ""
values_text (v ∷ vs) = printed v ++ " " ++ values_text vs

unfoldable pub results_text : List QueryResult → String
unfolding values_text get
results_text [] = ""
results_text (r ∷ rs) = get "pod" r.metric ++ ": " ++ values_text r.value ++ results_text rs

abbrev pub metric_request : String → String → String → String
metric_request service metric namespace =
    metric ++ "{job=~\"^" ++ service ++ ".*\", namespace=\"" ++ namespace ++ "\"}"

-- The metrics whose name contains the text of the command.
unfoldable pub matched_metrics : String → List String → List String
unfolding contains
matched_metrics metric [] = []
matched_metrics metric (m ∷ ms) =
    if contains m metric then m ∷ matched_metrics metric ms else matched_metrics metric ms

-- `c` is GlobalMonitorClient; `timed_out` is ctx.Err() == context.DeadlineExceeded.
module _ {W Q F S : Type 0} (http : Http W Q) (floats : Floats F) (c : Client)
    (with_timeout : ℕ → W → W) (timed_out : W → Bool) (chat : Chat S) where
  abbrev pub say_failure : Error → Eff (Talk W S) (Unit {0})
  say_failure e t =
      if timed_out t.world then say chat timeout_text t else say chat ("Произошла ошибка: " ++ e) t

  abbrev pub told_metric : Result PrometheusQueryResponse × W → S → Outcome (Unit {0}) × Talk W S
  told_metric (err e, w) s = say_failure e (record { world = w; chat = s })
  told_metric (ok r, w) s =
      say chat ("Status: " ++ r.status ++ "\n" ++ trim_space (results_text r.result))
        (record { world = w; chat = s })

  abbrev pub metric_parts : List String → Eff (Talk W S) (Unit {0})
  metric_parts (_ ∷ service ∷ metric ∷ rest) t =
      told_metric
        (query http c (metric_request service metric (or_default rest)) (with_timeout 10 t.world))
        t.chat
  metric_parts _ t = say chat "Использование: /metric <сервис> <метрика> [namespace]" t

  unfoldable pub metric_handler : String → Eff (Talk W S) (Unit {0})
  unfolding split query trim_space results_text
  metric_handler message = metric_parts (split " " message)

  abbrev pub told_metrics : String → Result (List String) × W → S → Outcome (Unit {0}) × Talk W S
  told_metrics metric (err e, w) s = say_failure e (record { world = w; chat = s })
  told_metrics metric (ok names, w) s =
      say chat (join "\n" (matched_metrics metric names)) (record { world = w; chat = s })

  abbrev pub list_metrics_parts : List String → Eff (Talk W S) (Unit {0})
  list_metrics_parts (_ ∷ service ∷ metric ∷ _) t =
      told_metrics metric (list_metrics http c service (with_timeout 10 t.world)) t.chat
  list_metrics_parts _ t = say chat "Неправильное кол-во параметров " t

  unfoldable pub list_metrics_handler : String → Eff (Talk W S) (Unit {0})
  unfolding split_n list_metrics join matched_metrics
  list_metrics_handler message = list_metrics_parts (split_n 3 " " message)

  abbrev pub error_text : Error → String
  error_text e = "❌ *Произошла ошибка:*\n`" ++ escape_markdown e ++ "`"

  abbrev pub say_failure_markdown : Error → Eff (Talk W S) (Unit {0})
  say_failure_markdown e t =
      if timed_out t.world then say chat timeout_text t else say_markdown chat (error_text e) t

  abbrev pub told_status :
      W → Outcome (ServiceStatusDashboard F) → S → Outcome (Unit {0}) × Talk W S
  told_status w (done dashboard) s =
      say_markdown chat (format_dashboard floats dashboard) (record { world = w; chat = s })
  told_status w (fail e) s = say_failure_markdown e (record { world = w; chat = s })
  told_status w panic s = (panic, record { world = w; chat = s })

  -- `ranges`, `meets` and `order` are those of GetStatusDashboard, and `finished` is what the surroundings are
  -- when it returns.
  abbrev pub status_parts :
      Ranges F → (Job → W) → List Job → W → List String → Eff (Talk W S) (Unit {0})
  status_parts ranges meets order finished (_ ∷ job ∷ rest) t =
      told_status finished
        (get_status_dashboard http floats c ranges meets order (or_default rest) job
          (with_timeout 20 t.world))
        t.chat
  status_parts ranges meets order finished _ t = say chat "Usage: /status <job_name> [namespace]" t

  unfoldable pub status_handler :
      Ranges F → (Job → W) → List Job → W → String → Eff (Talk W S) (Unit {0})
  unfolding split get_status_dashboard
  status_handler ranges meets order finished message =
      status_parts ranges meets order finished (split " " message)

  abbrev pub told_alerts : Result (List Alert) × W → S → Outcome (Unit {0}) × Talk W S
  told_alerts (err e, w) s =
      say_failure_markdown ("ошибка получения активных алертов: " ++ e)
        (record { world = w; chat = s })
  told_alerts (ok alerts, w) s =
      say_markdown chat (alerts_message alerts) (record { world = w; chat = s })

  -- AlertsHandler with GenerateAlertsMessage
  unfoldable pub alerts_handler : Eff (Talk W S) (Unit {0})
  unfolding get_active_alerts
  alerts_handler t = told_alerts (get_active_alerts http c (with_timeout 20 t.world)) t.chat
