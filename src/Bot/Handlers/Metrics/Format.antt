-- ===== src/Bot/Handlers/Metrics/Format.antt =====
-- The texts of metrics_handlers.go and alert_handlers.go: FormatDashboardForTelegram, and the message of
-- GenerateAlertsMessage.
use Prim.Native.String.{◌++◌}
use chatops.Base.{String, List, [], ◌∷◌, if◌then◌else◌, Option, some, str_eq, none}
use chatops.Monitoring.Types.{Floats, Alert, PodStatus, ServiceStatusDashboard}
use chatops.Go.Maps.{lookup, get}
use chatops.Bot.Handlers.Markdown.{escape_markdown}
use chatops.Go.Numbers.{format_int}

abbrev or_no_summary : String → String
or_no_summary summary = if str_eq summary "" then "Нет описания." else summary

unfoldable pub alert_lines : List Alert → String
unfolding get escape_markdown
alert_lines [] = ""
alert_lines (a ∷ alerts) =
    "> *"
    ++ escape_markdown (get "alertname" a.labels)
    ++ ":* "
    ++ escape_markdown (or_no_summary (get "summary" a.annotations))
    ++ "\n"
    ++ alert_lines alerts

-- These texts hold a backslash and an n, as in the source.
unfoldable pub alerts_text : List Alert → String
unfolding alert_lines
alerts_text [] = "✅ *Нет активных алертов*\\n\\n "
alerts_text (a ∷ alerts) = "🔥 *Активные алерты:*\\n " ++ alert_lines (a ∷ alerts) ++ "\n"

module _ {F : Type 0} (floats : Floats F) where
  -- The icon and the words of a pod's state.
  unfoldable pub pod_state : PodStatus F → String × String
  pod_state pod =
      if pod.ready
      then ("✅", "Ready")
      else if str_eq pod.phase "Running"
      then ("⏳", "Not Ready")
      else if str_eq pod.phase "Pending"
      then ("⌛\u{fe0f}", "Pending")
      else if str_eq pod.phase "Succeeded"
      then ("🏁", "Succeeded")
      else ("❌", pod.phase)

  unfoldable pub pod_text : PodStatus F → String
  unfolding pod_state escape_markdown
  pod_text pod =
      "```--------------------------------```\n"
      ++ "*Под:* `"
      ++ escape_markdown pod.pod_name
      ++ "`\n*Статус:* "
      ++ (pod_state pod).0
      ++ " "
      ++ escape_markdown (pod_state pod).1
      ++ "\n*CPU:* `"
      ++ floats.format_2 pod.cpu_usage_cores
      ++ " / "
      ++ floats.format_2 pod.cpu_limit_cores
      ++ "` cores\n*Память:* `"
      ++ floats.format_0 (floats.over_1024 (floats.over_1024 pod.memory_usage_bytes))
      ++ " / "
      ++ floats.format_0 (floats.over_1024 (floats.over_1024 pod.memory_limit_bytes))
      ++ "` MiB\n*Перезапуски:* `"
      ++ format_int pod.restarts
      ++ "`\n"
      ++ (if pod.oom_killed then "*OOMKilled:* 💀 `true`\n" else "")

  unfoldable pub pod_lines : List (PodStatus F) → String
  unfolding pod_text
  pod_lines [] = ""
  pod_lines (pod ∷ pods) = pod_text pod ++ pod_lines pods

  unfoldable pub pods_part : List (PodStatus F) → String
  unfolding pod_lines
  pods_part [] = "🤷\u{200d}♂\u{fe0f} *Подов по запросу не найдено\\.*\n"
  pods_part (pod ∷ pods) = "💻 *Поды:*\\n " ++ pod_lines (pod ∷ pods)

  unfoldable pub format_dashboard : ServiceStatusDashboard F → String
  unfolding pods_part alerts_text escape_markdown
  format_dashboard d =
      "*Статус сервиса: `"
      ++ escape_markdown d.service_name
      ++ "`*\n\n"
      ++ alerts_text d.alerts
      ++ pods_part d.pods

abbrev described : Option String → String
described none = ""
described (some text) = "  _" ++ escape_markdown text ++ "_\n"

abbrev severe : Option String → String
severe none = ""
severe (some text) = "  Severity: `" ++ escape_markdown text ++ "`\n"

unfoldable pub active_lines : List Alert → String
unfolding lookup get escape_markdown
active_lines [] = ""
active_lines (a ∷ alerts) =
    "> *"
    ++ escape_markdown (get "alertname" a.labels)
    ++ "*\n"
    ++ described (lookup "description" a.annotations)
    ++ severe (lookup "severity" a.labels)
    ++ "\n"
    ++ active_lines alerts

unfoldable pub alerts_part : List Alert → String
unfolding active_lines
alerts_part [] = "✅ *Нет активных алертов*\n"
alerts_part (a ∷ alerts) = "🔥 *Активные алерты:*\n" ++ active_lines (a ∷ alerts)

-- The message of GenerateAlertsMessage.
unfoldable pub alerts_message : List Alert → String
unfolding alerts_part
alerts_message alerts = "🔍 *Проверка алертов:*\n\n" ++ alerts_part alerts
