-- ===== src/Bot/System/Tests.antt =====
-- A login and a restart, on a database in memory and a cluster that counts the writes.
use chatops.Base.{
  ℕ, suc, String, true, false, ◌≡◌, refl, pos, none, List, [], ◌∷◌, ◌≢◌, arith, some, ap,
}
use chatops.Effects.{ok, err, done}
use chatops.Kube.Api.{Api}
use chatops.Kube.Log.{clientset, open_chan}
use chatops.Kube.Tests.{web}
use chatops.Monitoring.Tests.{server_in, numbers, client}
use chatops.Db.Memory.{Store, memory, table-Answers}
use chatops.Db.Tests.{store}
use chatops.Db.Sql.{Answers, user_schema}
use chatops.Bot.Dialogue.{initial, Pending, with_confirmation}
use chatops.Bot.System.{
  Services, Bot, Update, start_sent, text_sent, yes_sent, perform, runs, looked_up, run_handler,
  events,
}
use chatops.Bot.Commands.{find_handler, Handler}
use chatops.Bot.Dialogue.Trace.{Asked}
use chatops.Bot.Users.{enter, state_of}
use chatops.Bot.Handlers.Chat.{with_logs}
use chatops.Bot.System.Laws.{perform-confirmed, Registered, world-Registered}
use chatops.Kube.Restart.{restart_deployment_with_logs}
use chatops.Bot.System.Login.{after_login, after_login_lem}
use chatops.Bot.Handlers.Kube.Laws.{command}
use chatops.Go.Strings.Split.{Lacks}
use chatops.Go.Numbers.{format_int, to_int32}
use chatops.Bot.Handlers.Kube.{nonempty, every}
use chatops.Kube.Rollback.{rollback_deployment_with_logs}
use chatops.Kube.Scale.{scale_deployment_with_logs}
use chatops.Bot.System.Commands.{rollback-confirmed, scale-confirmed}

pub record World : Type 0 where
  pub store : Store
  pub writes : ℕ

abbrev pub cluster : Api World
cluster = record {
  get_deployment = λ namespace name w. (ok web, w);
  update_deployment = λ namespace dep w. (ok tt, record w { writes = suc w.writes });
  list_replica_sets = λ namespace selector w. (ok [], w);
  get_pod_phase = λ namespace name w. (ok "Running", w);
  list_pod_names = λ namespace w. (ok [], w);
  get_pod_logs = λ namespace name options w. (ok "", w);
  label_selector = λ selector. ok selector;
  format_time = λ t. "";
  now = λ w. ("2025-06-02T00:00:00Z", w);
  sleep = λ w. w;
  poll = λ cond s. (done tt, s);
}

abbrev pub world : World
world = record { store = store; writes = 0 }

abbrev services : Services World String ℕ (List String)
services = record {
  client = clientset cluster;
  with_timeout = λ n w. w;
  timed_out = λ w. false;
  http = server_in;
  floats = numbers;
  monitor = client;
  ranges = record { visit_names = λ names. names; visit_pods = λ pods. pods };
  meets = λ job. world;
  order = [];
  finished = world;
  database = memory (λ w. w.store) (λ s w. record w { store = s }) 0;
  format_time = λ t. "";
  gpt = record {
    read_prompt = λ w. (err "no file", w);
    get_env = λ name. "";
    get_completion = λ key catalog prompt question w. (ok [], w);
  };
  chat = record { send = λ m s. (ok tt, m ∷ s); send_markdown = λ m s. (ok tt, m ∷ s) };
}

users-Answers : Answers services.database.users user_schema (λ w. w.store.users)
users-Answers =
    table-Answers user_schema (λ w. w.store.users)
      (λ xs w. record w { store = record w.store { users = xs } }) (λ xs w. refl)

abbrev bot : Bot World (List String)
bot = record { dialogue = initial; talk = record { world = world; chat = [] } }

-- The latest update stands first.
abbrev logged_in : List Update
logged_in =
    text_sent none (pos 11) "secret" ∷ text_sent none (pos 11) "anna" ∷ start_sent (pos 11) ∷ []

abbrev updates : List Update
updates = text_sent none (pos 11) "/restart shop/web" ∷ logged_in

restarted :
    (perform services (yes_sent (pos 11)) (runs services bot updates)).1.talk.world.writes ≡ 1
unfolding perform runs state_of enter find_handler with_logs restart_deployment_with_logs
restarted = refl

quiet :
    (looked_up services
      (yes_sent (pos 11))
      (runs services bot updates).dialogue
      (runs services bot updates).talk.world).writes
    ≡ 0
unfolding runs state_of enter find_handler
quiet = refl

moved :
    (perform services (yes_sent (pos 11)) (runs services bot updates)).1.talk.world
    ≢ looked_up services
        (yes_sent (pos 11))
        (runs services bot updates).dialogue
        (runs services bot updates).talk.world
moved e = absurd (ground (arith, restarted, quiet, ap (λ w. w.writes) e))

world-Registered_example :
    (p : Pending) × (yes_sent (pos 11) ≡ yes_sent p.sender)
    × Asked p (events services bot updates)
    × Registered services (λ w. w.store.users) users-Answers bot updates
world-Registered_example =
    world-Registered services (λ w. w.store.users) users-Answers bot updates (yes_sent (pos 11))
      refl moved

free : state_of (pos 11) (runs services bot logged_in).dialogue.user_state ≡ none
unfolding runs state_of enter
free = refl

authorized : (runs services bot logged_in).dialogue.authorized ≡ true
unfolding runs state_of enter
authorized = refl

known : find_handler "/restart shop/web" ≡ some Handler.restart_handler
unfolding find_handler
known = refl

perform-confirmed_example :
    perform services
      (yes_sent (pos 11))
      (perform services
        (text_sent none (pos 11) "/restart shop/web")
        (runs services bot logged_in)).1
    ≡ (
      (run_handler services Handler.restart_handler "/restart shop/web"
          (runs services bot logged_in).talk).0,
      record {
        dialogue =
            (with_confirmation none
              (record {
                handler = Handler.restart_handler;
                sender = pos 11;
                text = "/restart shop/web";
              })
              (runs services bot logged_in).dialogue).0;
        talk =
            (run_handler services Handler.restart_handler "/restart shop/web"
              (runs services bot logged_in).talk).1;
      },
    )
perform-confirmed_example =
    perform-confirmed services (runs services bot logged_in) (pos 11) "/restart shop/web"
      Handler.restart_handler refl free authorized known

after_login_lem_example :
    ((after_login services
        (λ w. w.store.users)
        users-Answers
        (pos 11)
        "anna"
        "secret"
        bot).dialogue.authorized
      ≡ true)
    × (state_of
          (pos 11)
          (after_login services
            (λ w. w.store.users)
            users-Answers
            (pos 11)
            "anna"
            "secret"
            bot).dialogue.user_state
        ≡ none)
    × ((after_login services
          (λ w. w.store.users)
          users-Answers
          (pos 11)
          "anna"
          "secret"
          bot).talk.world.store.users
        ≡ store.users)
after_login_lem_example =
    after_login_lem services (λ w. w.store.users) users-Answers (pos 11) "anna" "secret" bot refl
      refl

shop_Lacks : Lacks " " "shop"
shop_Lacks = ground arith

slash_Lacks : Lacks "/" "shop"
slash_Lacks = ground arith

web_Lacks : Lacks " " "web"
web_Lacks = ground arith

scale-confirmed_example :
    (perform services
      (yes_sent (pos 11))
      (perform services
        (text_sent none (pos 11) (command "/scale" "shop" "web" (format_int (pos 3))))
        (runs services bot logged_in)).1).1.talk
    ≡ (with_logs services.chat nonempty
        (services.with_timeout 20)
        (scale_deployment_with_logs services.client "shop" "web" (to_int32 (pos 3)) open_chan)
        (runs services bot logged_in).talk).1
scale-confirmed_example =
    scale-confirmed services (runs services bot logged_in) (pos 11) "shop" "web" shop_Lacks
      slash_Lacks web_Lacks (pos 3) (ground arith) free authorized

rollback-confirmed_example :
    (perform services
      (yes_sent (pos 11))
      (perform services
        (text_sent none (pos 11) (command "/rollback" "shop" "web" (format_int (pos 1))))
        (runs services bot logged_in)).1).1.talk
    ≡ (with_logs services.chat every
        (services.with_timeout 30)
        (rollback_deployment_with_logs services.client "shop" "web" (pos 1) open_chan)
        (runs services bot logged_in).talk).1
rollback-confirmed_example =
    rollback-confirmed services (runs services bot logged_in) (pos 11) "shop" "web" shop_Lacks
      slash_Lacks web_Lacks (pos 1) (ground arith) free authorized
