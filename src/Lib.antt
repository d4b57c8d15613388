-- ===== src/Lib.antt =====
-- A model of chatops, a Telegram bot that operates Kubernetes deployments and reads Prometheus.
--
-- The program's parts. cmd/bot/main.go registers the bot's handlers: the login, the table of
-- commands, and the confirmation in front of every command. A confirmed command is handled by a
-- function of internal/bot/handlers, which calls internal/kube/client.go (scale, restart, roll back,
-- list) or internal/monitoring (metrics, alerts, the status dashboard) and sends the answer.
--
-- The files.
--   Base, with Base/Tests, Base/Lists and Base/Int: shared names; Boolean tests, lists and signed
--     integers over the native numbers.
--   Go: what the program uses of Go's own library. Go/Strings is package strings, Go/Numbers is
--     strconv.ParseInt and Atoi, the conversion int32(n), the verb %d and fmt.Sscanf("%d"), Go/Maps
--     is map[string]T, Go/Sort is sort.Slice.
--   Effects: functions with a state that end with a value, an error or a panic.
--   Kube: internal/kube/client.go. Kube/Types are its types, Kube/Api is the interface of what it
--     calls outside the program, Kube/Log the channel of messages, Kube/Polls the law of a wait.
--     Kube/Scale is ScaleDeploymentWithLogs, Kube/Restart RestartDeploymentWithLogs, and
--     Kube/Rollback RollbackDeploymentWithLogs, with the choice of the ReplicaSet in
--     Kube/Rollback/Target and the loop of writes in Kube/Rollback/Update. Kube/Listing holds
--     ListAvailableRevisions, GetPodStatus, GetPodLogs and ListPods, and Kube/Connect makes the client.
--   Bot: cmd/bot/main.go. Bot/Users is userState, Bot/Commands commandHandlers, Bot/Dialogue the
--     handlers of /start, /help, of texts and of the two buttons, and withConfirmation. Bot/System
--     puts the dialogue together with the handlers that it runs and the table of users that it asks,
--     and Bot/Startup is main up to bot.Start, with startPoller.
--   Bot/Handlers: internal/bot/handlers. Bot/Handlers/Kube is kube_handlers.go, Bot/Handlers/Markdown
--     is escapeMarkdown, and Bot/Handlers/Metrics the rest of metrics_handlers.go and
--     alert_handlers.go, with its texts in Bot/Handlers/Metrics/Format. Bot/Handlers/Others is
--     db_handlers.go and ai_handler.go, and Bot/YandexGpt is internal/bot/yandexgpt/client.go.
--   App: internal/app. App/Alerter is alerter.go, App/DbAdapter is db_adapter.go, and App/Poller is
--     poller_alert.go.
--   Db: internal/db. Db/Types are the models, Db/Repository the four files of repository, with the
--     loop of GetDutyUsersWithLabels in Db/Repository/Grouping, and Db/Config is config/db.go,
--     migrations/auto.go and main.go. Db/Memory is a database in memory for the tests.
--   Monitoring: internal/monitoring. Monitoring/Client is client.go, Monitoring/Dashboard is
--     dashboard.go, and Monitoring/Dashboard/Pods says what the answers hold of each pod.
-- A function is named as in the source, in lower case: on_text is the handler of telebot.OnText.
--
-- What stands outside is a parameter. Kube/Api has the calls of client-go, each of which may change
-- the state W of the cluster and of the context and may fail in any way; PollsAsDocumented says of
-- wait.PollUntilContextCancel what its documentation says. Monitoring/Client has the record Http for
-- net/url, net/http and encoding/json, Monitoring/Types the record Floats for float64, and
-- Bot/Handlers/Chat the record Chat for the sends of telebot. App/Alerter takes its two interfaces,
-- Bot/YandexGpt the record Gpt, and Bot/Handlers/Others the record Tables. Db/Gorm has the chains of
-- gorm that the repositories use, and Db/Sql what SQL and gorm document of them: which rows a
-- condition selects, that a column the table lacks is refused, and what is created and updated.
-- Db/Config, Kube/Connect and Bot/Startup have the calls by which the program starts.
--
-- Choices of the model. An event of Telegram is handled whole before the next, although telebot
-- runs each in a goroutine. The queries of the dashboard may each meet another state of the
-- network, and their loops, each under the mutex, run in any order; the two loops of the
-- dashboard over a map visit it in an order that is given from outside. The question "Вы
-- уверены?" is not put into the chat: whether it was sent is part of the update, as is what a
-- press is responded with, whose error is left out. Prints on the console are left out. Numbers
-- keep their widths: what is parsed is an int64, what is scaled to is an int32. The rollback
-- writes in five attempts, as in the source; the waits have no bound of rounds.
--
-- The model of the whole bot gives every update of Telegram the state that the one before has left;
-- the goroutine of the poller, which only reads, stands beside it. The tables are specified for a
-- connection that stands: where it breaks, any call of a repository may fail.
--
-- Not modelled: internal/storage/postgres and App of internal/app, which are empty and which nothing
-- calls; the loading of .env by the YandexGPT client; and test-app-go, which is another program.

pub mod App
pub mod Base
pub mod Bot
pub mod Db
pub mod Effects
pub mod Go
pub mod Kube
pub mod Monitoring
