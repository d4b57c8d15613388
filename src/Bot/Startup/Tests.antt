-- ===== src/Bot/Startup/Tests.antt =====
-- A machine on which everything but the database is there.
use chatops.Base.{◌≡◌, refl, String, none, some, if◌then◌else◌, str_eq}
use chatops.Effects.{ok, err}
use chatops.Kube.Types.{Deployment}
use chatops.Kube.Log.{clientset}
use chatops.Kube.Tests.{calm, web}
use chatops.Monitoring.Tests.{server_in}
use chatops.Monitoring.Client.{made, new_client}
use chatops.Kube.Connect.{init_client_from_kubeconfig}
use chatops.Db.Config.{Postgres}
use chatops.Bot.Startup.{Machine, Globals, running, initialize}
use chatops.Bot.Startup.Laws.{Ready, initialize-without_database}

abbrev no_database : Postgres Deployment
no_database = record {
  get_env = λ name. if str_eq name "TELEGRAM_BOT_TOKEN" then "12:ab" else "";
  open_gorm = λ dsn. err "connection refused";
  migrate = λ g w. (ok tt, w);
}

abbrev machine : Machine Deployment String String
machine = record {
  load_env = some "no .env";
  user_home_dir = ok "/root";
  join_path = λ parts. "/root/.kube/config";
  new_bot = λ token. none;
  set_commands = λ commands. none;
  postgres = no_database;
  http = server_in;
  client_go = record {
    build_config = λ path. ok path;
    in_cluster_config = err "not in a cluster";
    new_for_config = λ config. ok calm;
  };
}

abbrev globals : Globals Deployment
globals = record {
  database = none;
  kube = clientset calm;
  monitor = made (server_in {W = Deployment}) "" "";
  token = "12:ab";
}

ready : Ready machine globals
unfolding new_client init_client_from_kubeconfig
ready = (refl, ("/root", refl, refl), refl, refl)

initialize-without_database_example :
    (initialize machine web).0 ≡ running (record globals { database = none })
initialize-without_database_example =
    initialize-without_database machine globals "connection refused" web refl ready
