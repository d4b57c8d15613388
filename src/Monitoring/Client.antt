-- ===== src/Monitoring/Client.antt =====
-- internal/monitoring/client.go.
pub mod Laws
pub mod Requests
use Prim.Native.String.{◌++◌}
use chatops.Base.{
  ℕ, Bool, true, false, ◌&&◌, not, String, Option, none, some, List, ◌==◌, if◌then◌else◌, str_eq,
}
use chatops.Effects.{Error, Result, ok, err, Call}
use chatops.Go.Maps.{or_empty}
use chatops.Monitoring.Types.{Alert, PrometheusLabelResponse, PrometheusQueryResponse}

-- What net/url, net/http and encoding/json give the client. `U` is a parsed URL, `Q` a request, and
-- `W` the state of the network and of the request's context.
pub record UserInfo : Type 0 where
  pub username : String
  pub password : Option String

pub record Response : Type 0 where
  pub status_code : ℕ
  pub status : String
  pub body : String

pub record Http (W Q : Type 0) : Type 0 where
  -- url.Parse, reduced to the user that the URL names
  pub parse_user : String → Result (Option UserInfo)
  -- the error of url.ParseRequestURI
  pub parse_request_uri : String → Option Error
  pub new_request : String → Result Q
  pub set_basic_auth : String → String → Q → Q
  -- q := req.URL.Query(); q.Add(key, value); req.URL.RawQuery = q.Encode()
  pub add_query : String → String → Q → Q
  pub send : Q → Call W Response
  pub decode_alerts : String → Result (List Alert)
  pub decode_labels : String → Result PrometheusLabelResponse
  pub decode_query : String → Result PrometheusQueryResponse

pub record Client : Type 0 where
  pub prometheus_url : String
  pub alertmanager_url : String
  pub user : String
  pub pass : String

abbrev pub user_of : Result (Option UserInfo) → String × String
user_of (ok (some u)) = (u.username, or_empty u.password)
user_of _ = ("", "")

-- fmt.Errorf with words and %w
abbrev pub wrap : String → Option Error → Option Error
wrap words none = none
wrap words (some e) = some (words ++ e)

-- The words that an error gets in front, by the place where it arises.
pub record Words : Type 0 where
  pub unsent : String
  pub not_ok : String
  pub undecodable : String

abbrev pub alertmanager_words : Words
alertmanager_words = record {
  unsent = "failed to execute request to alertmanager: ";
  not_ok = "alertmanager returned non-OK status: ";
  undecodable = "failed to decode alertmanager response: ";
}

abbrev pub prometheus_words : Words
prometheus_words = record {
  unsent = "failed to execute request: ";
  not_ok = "prometheus returned non-OK status: ";
  undecodable = "failed to decode prometheus response: ";
}

-- promResp.Status != "success"
abbrev pub checked : String → Result (Unit {0})
checked status =
    if str_eq status "success"
    then ok tt
    else err ("prometheus returned non-success status: " ++ status)

abbrev pub decoded : {A : Type 0} → Words → Result A → Result A
decoded ws (ok a) = ok a
decoded ws (err e) = err (ws.undecodable ++ e)

-- What comes of the answer to a request: the status 200 is asked for, and the body is decoded.
unfoldable pub received :
    {A W : Type 0} → Words → (String → Result A) → Result Response × W → Result A × W
received ws decode (err e, w) = (err (ws.unsent ++ e), w)
received ws decode (ok resp, w) =
    if resp.status_code == 200
    then (decoded ws (decode resp.body), w)
    else (err (ws.not_ok ++ resp.status), w)

abbrev pub labels_of : {W : Type 0} → Result PrometheusLabelResponse × W → Result (List String) × W
labels_of (ok r, w) = (elim (checked r.status) [ ok _ ↦ ok r.values | err e ↦ err e ], w)
labels_of (err e, w) = (err e, w)

abbrev pub successful :
    {W : Type 0} → Result PrometheusQueryResponse × W → Result PrometheusQueryResponse × W
successful (ok r, w) = (elim (checked r.status) [ ok _ ↦ ok r | err e ↦ err e ], w)
successful (err e, w) = (err e, w)

module _ {W Q : Type 0} (http : Http W Q) where
  -- The check of one of NewClient's URLs; the empty text is not checked.
  abbrev pub url_error : String → String → Option Error
  url_error words url = if str_eq url "" then none else wrap words (http.parse_request_uri url)

  abbrev pub made : String → String → Client
  made prometheus alertmanager = record {
    prometheus_url = prometheus;
    alertmanager_url = alertmanager;
    user = (user_of (http.parse_user prometheus)).0;
    pass = (user_of (http.parse_user prometheus)).1;
  }

  -- NewClient
  unfoldable pub new_client : String → String → Result Client
  new_client prometheus alertmanager = elim (url_error "invalid prometheus URL: " prometheus) [
    | some e ↦ err e
    | none ↦ elim (url_error "invalid alertmanager URL: " alertmanager) [
      | some e ↦ err e
      | none ↦ ok (made prometheus alertmanager)
    ]
  ]

  -- The basic authentication, where the client has a user and a password.
  unfoldable pub authenticated : Client → Q → Q
  authenticated c q =
      if not (str_eq c.user "") && not (str_eq c.pass "")
      then http.set_basic_auth c.user c.pass q
      else q

  -- The course that the three requests share.
  unfoldable pub exchange :
      {A : Type 0} → Words → (Q → Q) → (String → Result A) → Client → String → Call W A
  unfolding received authenticated
  exchange ws prepare decode c endpoint w = elim (http.new_request endpoint) [
    | err e ↦ (err ("failed to create request: " ++ e), w)
    | ok q ↦ received ws decode (http.send (prepare (authenticated c q)) w)
  ]

  unfoldable pub get_active_alerts : Client → Call W (List Alert)
  unfolding exchange
  get_active_alerts c =
      exchange alertmanager_words (λ q. q) http.decode_alerts c
        (c.alertmanager_url ++ "/api/v2/alerts")

  unfoldable pub list_metrics : Client → String → Call W (List String)
  unfolding exchange
  list_metrics c job_name w = labels_of (
      exchange prometheus_words (http.add_query "match[]" ("{job=~\"^" ++ job_name ++ ".*\"}"))
        http.decode_labels c (c.prometheus_url ++ "/api/v1/label/__name__/values") w)

  unfoldable pub query : Client → String → Call W PrometheusQueryResponse
  unfolding exchange
  query c text w = successful (
      exchange prometheus_words (http.add_query "query" text) http.decode_query c
        (c.prometheus_url ++ "/api/v1/query") w)
