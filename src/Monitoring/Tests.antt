-- ===== src/Monitoring/Tests.antt =====
-- A server that answers every query with one pod, and runs of internal/monitoring against it.
use chatops.Monitoring.Dashboard.Settings.{
  phase, ready, Job, restarts, restarts, restarts, restarts, restarts, restarts, restarts, restarts,
  restarts, restarts, restarts, restarts, restarts, restarts,
}
use mathlib.Core.List.{Permᴰ}
use chatops.Base.{
  [], ◌∷◌, ◌≡◌, ℕ, String, if◌then◌else◌, refl, some, str_eq, none, pos, ◌==◌, ◌/◌, List, true,
}
use chatops.Monitoring.Client.{Http, query, Client, Response}
use chatops.Monitoring.Types.{Floats, PrometheusQueryResponse, other, text}
use Prim.Native.String.{◌++◌}
use chatops.Monitoring.Dashboard.{
  get_status_dashboard, get_pod_names_for_job, new_pod, job_answer, Ranges,
}
use chatops.Go.Maps.{lookup, put}
use chatops.Effects.{ok}
use chatops.Monitoring.Dashboard.Order.{get_status_dashboard-perm}
use chatops.Monitoring.Dashboard.Reported.{Reported, status_of, get_status_dashboard-Reported}
use mathlib.Core.List.Perm
use chatops.Monitoring.Dashboard.Settings.{
  cpu_usage, cpu_limit, memory_usage, memory_limit, restarts, oom_killed,
}

abbrev one_pod : PrometheusQueryResponse
one_pod = record {
  status = "success";
  result_type = "vector";
  result =
      record {
        metric = ("pod", "web-1") ∷ ("phase", "Running") ∷ [];
        value = other "1700000000" ∷ text "1" ∷ [];
      }
      ∷ [];
}

abbrev answer : Response
answer = record { status_code = 200; status = "200 OK"; body = "{}" }

abbrev pub server_in : {W : Type 0} → Http W String
server_in = record {
  parse_user = λ url. ok (some (record { username = "bot"; password = some "secret" }));
  parse_request_uri = λ url. if str_eq url "nowhere" then some "invalid URI" else none;
  new_request = λ endpoint. ok endpoint;
  set_basic_auth = λ user pass q. user ++ ":" ++ pass ++ "@" ++ q;
  add_query = λ key value q. q;
  send = λ q w. (ok answer, w);
  decode_alerts = λ body. ok [];
  decode_labels = λ body. ok (record { status = "success"; values = [] });
  decode_query = λ body. ok one_pod;
}

abbrev pub server : Http (Unit {0}) String
server = server_in

abbrev pub numbers : Floats ℕ
numbers = record {
  zero_value = 0;
  parse = λ t. if str_eq t "1" then some 1 else none;
  to_int64 = λ n. pos n;
  is_one = λ n. n == 1;
  over_1024 = λ n. n / 1024;
  format_2 = λ n. "0.00";
  format_0 = λ n. "0";
}

abbrev pub client : Client
client = record {
  prometheus_url = "http://prometheus";
  alertmanager_url = "";
  user = "bot";
  pass = "secret";
}

abbrev in_order : Ranges ℕ
in_order = record { visit_names = λ names. names; visit_pods = λ pods. pods }

abbrev nowhere : String
nowhere = "nowhere"

abbrev no_url : String
no_url = ""

get_status_dashboard-perm_example :
    get_status_dashboard server numbers client in_order
      (λ job. tt)
      (phase ∷ ready ∷ [])
      "shop"
      "web"
      tt
    ≡ get_status_dashboard server numbers client in_order
        (λ job. tt)
        (ready ∷ phase ∷ [])
        "shop"
        "web"
        tt
get_status_dashboard-perm_example =
    get_status_dashboard-perm server numbers client in_order (λ job. tt) (phase ∷ ready ∷ [])
      (ready ∷ phase ∷ []) "shop" "web" tt (Permᴰ.swap refl refl)

web_named :
    get_pod_names_for_job server numbers client in_order "shop" "web" tt ≡ (ok ("web-1" ∷ []), tt)
unfolding get_pod_names_for_job lookup put
web_named = refl

-- The eight loops, the second of them first.
abbrev second_first : List Job
second_first =
    cpu_limit ∷ cpu_usage ∷ memory_usage ∷ memory_limit ∷ restarts ∷ ready ∷ phase ∷ oom_killed ∷ []

get_status_dashboard-Reported_example :
    Reported server numbers client in_order
      (λ job. tt)
      second_first
      "shop"
      "web"
      ("web-1" ∷ [])
      tt
      (get_status_dashboard server numbers client in_order (λ job. tt) second_first "shop" "web" tt)
get_status_dashboard-Reported_example =
    get_status_dashboard-Reported server numbers client in_order (λ job. tt) second_first "shop"
      "web" "web-1" [] tt tt web_named (Permᴰ.swap refl refl) (λ pods. Perm.refl pods)

-- The pod of the server is ready and running.
web_ready :
    status_of numbers
      (λ job. job_answer server numbers client in_order ("web-1" ∷ []) job tt)
      "web-1"
    ≡ record (new_pod numbers "web-1") {
      phase = "Running";
      ready = true;
      cpu_usage_cores = 1;
      cpu_limit_cores = 1;
      memory_usage_bytes = 1;
      memory_limit_bytes = 1;
      restarts = pos 1;
      oom_killed = true;
    }
unfolding lookup query
web_ready = refl
