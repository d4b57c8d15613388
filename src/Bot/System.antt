-- ===== src/Bot/System.antt =====
-- The bot as a whole: the dialogue of cmd/bot/main.go together with what its answers do. A command
-- that is confirmed runs the function of internal/bot/handlers that commandHandlers names, and a
-- password is looked up in the table of users.
pub mod Laws
pub mod Commands
pub mod Login
mod Tests
use chatops.Base.{
  ℤ, ℕ, String, Bool, true, false, not, ◌&&◌, Option, List, [], ◌∷◌, if◌then◌else◌, str_eq, none,
}
use chatops.Effects.{Error, Outcome, Eff, done, fail}
use chatops.Go.Maps.{or_empty}
use chatops.Go.Strings.{has_prefix}
use chatops.Kube.Log.{K8sClient}
use chatops.Monitoring.Types.{Floats}
use chatops.Monitoring.Client.{Http, Client}
use chatops.Monitoring.Dashboard.Settings.{Job}
use chatops.Db.Gorm.{Gorm, always}
use chatops.Bot.YandexGpt.{Gpt}
use chatops.Bot.Users.{state_of}
use chatops.Bot.Commands.{Handler}
use chatops.Bot.Dialogue.{
  Pending, Dialogue, Reply, Event, say, ask_confirmation, failed, respond, run, silent, start, help,
  text, yes_pressed, no_pressed, step,
}
use chatops.Bot.Handlers.Chat.{Chat, Talk}
use chatops.Bot.Handlers.Chat as Chat
use chatops.Bot.Handlers.Kube as Kube
use chatops.Bot.Handlers.Metrics as Metrics
use chatops.Bot.Handlers.Others as Others
use chatops.Bot.Handlers.Others.{Tables, proof_login_pasword_handler}
use chatops.Monitoring.Dashboard.{Ranges}

-- An update of Telegram; a text comes with what the send of the question would give.
pub data Update : Type 0 where
  start_sent help_sent : ℤ → Update
  text_sent : Option Error → ℤ → String → Update
  yes_sent no_sent : ℤ → Update

pub record Bot (W S : Type 0) : Type 0 where
  pub dialogue : Dialogue
  pub talk : Talk W S

-- The text is a password.
abbrev pub is_password : ℤ → String → Dialogue → Bool
is_password id t d =
    not (has_prefix t "/") && str_eq (or_empty (state_of id d.user_state)) "password"

-- What the handlers use: the global clients, the database, the assistant, the chat, and what the
-- scheduler and the clock do.
pub record Services (W Q F S : Type 0) : Type 0 where
  pub client : K8sClient W
  pub with_timeout : ℕ → W → W
  pub timed_out : W → Bool
  pub http : Http W Q
  pub floats : Floats F
  pub monitor : Client
  pub ranges : Ranges F
  pub meets : Job → W
  pub order : List Job
  pub finished : W
  pub database : Gorm W
  pub format_time : ℕ → String
  pub gpt : Gpt W
  pub chat : Chat S

module _ {W Q F S : Type 0} (s : Services W Q F S) where
  -- config.DB.Find(&incidents) and config.DB.Find(&operations)
  abbrev pub tables : Tables W
  tables = record {
    find_incidents = s.database.incidents.find always none;
    find_operations = s.database.operations.find always none;
    format_time = s.format_time;
  }

  -- The functions of commandHandlers, on the text of the message.
  unfoldable pub run_handler : Handler → String → Eff (Talk W S) (Unit {0})
  unfolding Kube.scale_handler Kube.restart_handler Kube.rollback_handler Kube.list_pods_handler
      Kube.revisions_handler Metrics.status_handler Metrics.metric_handler
      Metrics.list_metrics_handler Metrics.alerts_handler Others.history_handler
      Others.operations_handler Others.ai_help_handler
  run_handler Handler.status_handler t =
      Metrics.status_handler s.http s.floats s.monitor s.with_timeout s.timed_out s.chat s.ranges
        s.meets s.order s.finished t
  run_handler Handler.metric_handler t =
      Metrics.metric_handler s.http s.floats s.monitor s.with_timeout s.timed_out s.chat t
  run_handler Handler.list_metrics_handler t =
      Metrics.list_metrics_handler s.http s.floats s.monitor s.with_timeout s.timed_out s.chat t
  run_handler Handler.scale_handler t = Kube.scale_handler s.client s.with_timeout s.chat t
  run_handler Handler.restart_handler t = Kube.restart_handler s.client s.with_timeout s.chat t
  run_handler Handler.rollback_handler t = Kube.rollback_handler s.client s.with_timeout s.chat t
  run_handler Handler.history_handler t = Others.history_handler tables s.gpt s.chat
  run_handler Handler.operations_handler t = Others.operations_handler tables s.gpt s.chat
  run_handler Handler.list_pods_handler t = Kube.list_pods_handler s.client s.with_timeout s.chat t
  run_handler Handler.revisions_handler t = Kube.revisions_handler s.client s.with_timeout s.chat t
  run_handler Handler.ai_help_handler t = Others.ai_help_handler tables s.gpt s.chat t
  run_handler Handler.alerts_handler t =
      Metrics.alerts_handler s.http s.floats s.monitor s.with_timeout s.timed_out s.chat

  -- What the bot does once a handler of main has decided on its answer. The question was sent
  -- before, and the response to a button is no message.
  unfoldable pub answer : Reply → Eff (Talk W S) (Unit {0})
  unfolding run_handler
  answer (say words) t = Chat.say s.chat words t
  answer ask_confirmation t = (done tt, t)
  answer (failed e) t = (fail e, t)
  answer (respond words) t = (done tt, t)
  answer (run p) t = run_handler p.handler p.text t
  answer silent t = (done tt, t)

  -- The update as an event of the dialogue, with what the database says of a password now.
  abbrev pub event_of : Update → W → Event
  event_of (start_sent id) w = start id
  event_of (help_sent id) w = help id
  event_of (text_sent sent id t) w =
      text sent (λ login password. (proof_login_pasword_handler s.database login password w).0) id t
  event_of (yes_sent id) w = yes_pressed id
  event_of (no_sent id) w = no_pressed id

  -- The state that is left once a password has been looked up.
  abbrev pub looked_up : Update → Dialogue → W → W
  looked_up (text_sent sent id t) d w =
      if is_password id t d then (proof_login_pasword_handler s.database d.user_login t w).1 else w
  looked_up _ d w = w

  abbrev answered : Dialogue × Reply → Talk W S → Outcome (Unit {0}) × Bot W S
  answered (d, reply) t = let (r, u) = answer reply t in (r, record { dialogue = d; talk = u })

  -- One update, from the handler of main to the last message of a command.
  unfoldable pub perform : Update → Bot W S → Outcome (Unit {0}) × Bot W S
  unfolding step answer proof_login_pasword_handler
  perform u b =
      answered (step (event_of u b.talk.world) b.dialogue)
        (record b.talk { world = looked_up u b.dialogue b.talk.world })

  -- The bot after a list of updates, the latest first, and the events that these were.
  unfoldable pub runs : Bot W S → List Update → Bot W S
  unfolding perform
  runs b [] = b
  runs b (u ∷ us) = (perform u (runs b us)).1

  unfoldable pub events : Bot W S → List Update → List Event
  unfolding runs
  events b [] = []
  events b (u ∷ us) = event_of u (runs b us).talk.world ∷ events b us
