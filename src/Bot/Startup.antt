-- ===== src/Bot/Startup.antt =====
-- How main of cmd/bot/main.go makes its clients and starts the bot, and its startPoller.
pub mod Laws
mod Tests
use Prim.Native.String.{◌++◌}
use mathlib.Core.List as List
use chatops.Base.{String, Bool, true, false, Option, none, some, List, [], ◌∷◌}
use chatops.Effects.{Error, Result, ok, err, Call}
use chatops.Kube.Log.{K8sClient}
use chatops.Kube.Connect.{ClientGo, init_client_from_kubeconfig}
use chatops.Monitoring.Client.{Http, Client, new_client, get_active_alerts}
use chatops.Db.Gorm.{Gorm}
use chatops.Db.Config.{Postgres, auto_migrate}
use chatops.App.Poller.{Signal, start_poller}

-- What main calls outside the program: godotenv.Load, os.UserHomeDir, filepath.Join, and of telebot
-- NewBot with a token and SetCommands with the commands and their descriptions.
pub record Machine (W Q C : Type 0) : Type 0 where
  pub load_env : Option Error
  pub user_home_dir : Result String
  pub join_path : List String → String
  pub new_bot : String → Option Error
  pub set_commands : List (String × String) → Option Error
  pub postgres : Postgres W
  pub http : Http W Q
  pub client_go : ClientGo W C

-- The global variables with which the bot runs.
pub record Globals (W : Type 0) : Type 0 where
  pub database : Option (Gorm W)
  pub kube : K8sClient W
  pub monitor : Client
  pub token : String

-- log.Fatal, or bot.Start.
pub data Startup (W : Type 0) : Type 0 where
  fatal : Error → Startup W
  running : Globals W → Startup W

unfoldable pub commands : List (String × String)
commands =
    ("start", "Авторизация в системе")
    ∷ ("status", "Проверка статуса [name|id]")
    ∷ ("metric", "Получение метрик сервиса")
    ∷ ("list_metric", "Полуение списка доступных ")
    ∷ ("scale", "Масштабирование")
    ∷ ("restart", "Перезапуск")
    ∷ ("rollback", "Откат изменений")
    ∷ ("history", "История операций")
    ∷ ("operations", "Список операций")
    ∷ ("revisions", "Список ревизий")
    ∷ ("list_pods", "Список pod'ов")
    ∷ ("help", "Список доступных команд")
    ∷ ("ai_help", "преобразования текста в команды с помошью ИИ")
    ∷ ("alerts", "Проверка алертов")
    ∷ []

abbrev env_message : String
env_message = "Не удалось загрузить .env файл, используются переменные окружения системы"

abbrev pub line_if : Option Error → (Error → String) → List String
line_if none words = []
line_if (some e) words = words e ∷ []

module _ {W Q C : Type 0} (m : Machine W Q C) where
  abbrev pub env : String → String
  env = m.postgres.get_env

  abbrev with_bot : Option (Gorm W) → Client → K8sClient W → Option Error → Startup W
  with_bot db monitor kube (some e) = fatal e
  with_bot db monitor kube none =
      running
        (record { database = db; kube = kube; monitor = monitor; token = env "TELEGRAM_BOT_TOKEN" })

  abbrev with_kube : Option (Gorm W) → Client → Result (K8sClient W) → Startup W
  with_kube db monitor (err e) = fatal e
  with_kube db monitor (ok kube) = with_bot db monitor kube (m.new_bot (env "TELEGRAM_BOT_TOKEN"))

  abbrev with_home : Option (Gorm W) → Client → Result String → Startup W
  with_home db monitor (err e) = fatal ("Не удалось определить домашнюю директорию:" ++ e)
  with_home db monitor (ok home) =
      with_kube db monitor
        (init_client_from_kubeconfig m.client_go (m.join_path (home ∷ ".kube" ∷ "config" ∷ [])))

  abbrev with_monitor : Option (Gorm W) → Result Client → Startup W
  with_monitor db (err e) = fatal e
  with_monitor db (ok monitor) = with_home db monitor m.user_home_dir

  -- The clients, after the migration, whose error main drops.
  unfoldable pub initialize : W → Startup W × W
  unfolding auto_migrate new_client init_client_from_kubeconfig
  initialize w =
      let (dropped, (db, v)) = auto_migrate m.postgres none w in
      (with_monitor db (new_client m.http (env "PROMETHEUS_URL") (env "ALERTMANAGER_URL")), v)

  abbrev pub announced : Startup W → List String
  announced (fatal e) = e ∷ []
  announced (running globals) =
      line_if (m.set_commands commands) (λ e. "Ошибка при установке команд: " ++ e)

  -- What main writes to the log on its way to bot.Start, or as it dies.
  unfoldable pub startup_log : W → List String
  unfolding initialize commands
  startup_log w = List.◌++◌ (line_if m.load_env (λ e. env_message)) (announced (initialize w).0)

  abbrev polled : Result Client → List Signal → W → List String × (List String × W)
  polled (err e) signals w = (("Failed to create monitoring client: " ++ e) ∷ [], ([], w))
  polled (ok c) signals w = (
    "Alert poller started" ∷ "Received shutdown signal" ∷ "Alert poller stopped" ∷ [],
    start_poller (get_active_alerts m.http c) signals w,
  )

  -- startPoller, in its goroutine, until a signal ends it: its lines, and those of the poller, which
  -- runs beside it.
  unfoldable pub run_poller : List Signal → W → List String × (List String × W)
  unfolding new_client start_poller get_active_alerts
  run_poller signals w =
      polled (new_client m.http (env "PROMETHEUS_URL") (env "ALERTMANAGER_URL")) signals w
