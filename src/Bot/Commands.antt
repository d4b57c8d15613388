-- ===== src/Bot/Commands.antt =====
-- commandHandlers of cmd/bot/main.go: the table of the commands that need authorization.
use Prim.Native.String.{◌++◌}
use chatops.Base.{String, Option, List, [], ◌∷◌}
use chatops.Go.Strings.{split_n}
use chatops.Go.Maps.{lookup, Map}

-- The functions of internal/bot/handlers that the table names.
pub data Handler : Type 0 where
  status_handler metric_handler list_metrics_handler scale_handler restart_handler : Handler
  rollback_handler history_handler operations_handler list_pods_handler : Handler
  revisions_handler ai_help_handler alerts_handler : Handler

unfoldable pub command_handlers : Map Handler
command_handlers =
    ("/status", status_handler)
    ∷ ("/metric", metric_handler)
    ∷ ("/list_metric", list_metrics_handler)
    ∷ ("/scale", scale_handler)
    ∷ ("/restart", restart_handler)
    ∷ ("/rollback", rollback_handler)
    ∷ ("/history", history_handler)
    ∷ ("/operations", operations_handler)
    ∷ ("/list_pods", list_pods_handler)
    ∷ ("/revisions", revisions_handler)
    ∷ ("/ai_help", ai_help_handler)
    ∷ ("/alerts", alerts_handler)
    ∷ []

abbrev pub first : List String → String
first [] = ""
first (w ∷ _) = w

-- parts := strings.SplitN(text, " ", 2); parts[0]
unfoldable pub command_word : String → String
unfolding split_n
command_word text = first (split_n 2 " " text)

unfoldable pub find_handler : String → Option Handler
unfolding command_handlers command_word lookup
find_handler text = lookup (command_word text) command_handlers

-- helpMsg
abbrev pub help_message : String
help_message =
    "Доступные функции:\n" ++ "\n" ++ "\t/start - чтобы авторизоваться\n"
    ++ "\t/status [name или id] - проверка статуса сервиса\n"
    ++ "\t/metric [сервис] [строка] - вывод метрики сервиса\n"
    ++ "\t/list_metric [сервис] [строка] - поиск метрики, содержащую данную строку в названии\n"
    ++ "\t/scale [namespace]/[name] [количество реплик] - масштабирование сервиса\n"
    ++ "\t/restart [namespace]/[name] - перезапуск сервиса\n"
    ++ "\t/rollback [namespace]/[name] [номер ревизии] - откат сервиса к указанной ревизии\n"
    ++ "\t/history - вывод истории операций\n" ++ "\t/operations - вывод списка операций\n"
    ++ "\t/revisions [namespace/name] - вывод списка ревизий\n"
    ++ "\t/list_pods [namespace]/[name] - вывод списка pod'ов\n"
    ++ "  /ai_help [строка] - команда для общения с ИИ и преобразования текста в команды\n"
    ++ "\t/alerts - Проверка алертов\n" ++ "\t/help - выводит все доступные команды"
