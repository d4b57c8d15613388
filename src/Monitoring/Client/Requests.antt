-- ===== src/Monitoring/Client/Requests.antt =====
-- Every way in which the three requests of internal/monitoring/client.go can end.
use Prim.Native.String.{◌++◌, String}
use chatops.Base.{◌≡◌, ◌≢◌, ◌⊎◌, List}
use chatops.Effects.{Result, Error, ok, err}
use chatops.Monitoring.Client.{Http, Client, Response, PrometheusQueryResponse, Alert}

module _ {W Q : Type 0} (http : Http W Q) (c : Client) where
  -- The request that is sent: with the user and the password of the client as its basic
  -- authentication, exactly if the client has both.
  pub data Signed (q : Q) : Q → Type 0 where
    named : c.user ≢ "" → c.pass ≢ "" → Signed q (http.set_basic_auth c.user c.pass q)
    anonymous : (c.user ≡ "") ⊎ (c.pass ≡ "") → Signed q q

  -- The ways in which one exchange with a server ends, by the step at which it does.
  pub data Exchanged {A : Type 0} (unsent not_ok undecodable : String) (prepare : Q → Q)
      (decode : String → Result A) (endpoint : String) (w : W) : Result A → W → Type 0 where
    no_request :
        {e : Error}
        → http.new_request endpoint ≡ err e
        → Exchanged unsent not_ok undecodable prepare decode endpoint w
            (err ("failed to create request: " ++ e))
            w
    no_response :
        {q p : Q} {e : Error} {v : W}
        → http.new_request endpoint ≡ ok q
        → Signed q p
        → http.send (prepare p) w ≡ (err e, v)
        → Exchanged unsent not_ok undecodable prepare decode endpoint w (err (unsent ++ e)) v
    bad_status :
        {q p : Q} {r : Response} {v : W}
        → http.new_request endpoint ≡ ok q
        → Signed q p
        → http.send (prepare p) w ≡ (ok r, v)
        → r.status_code ≢ 200
        → Exchanged unsent not_ok undecodable prepare decode endpoint w (err (not_ok ++ r.status)) v
    bad_body :
        {q p : Q} {r : Response} {e : Error} {v : W}
        → http.new_request endpoint ≡ ok q
        → Signed q p
        → http.send (prepare p) w ≡ (ok r, v)
        → r.status_code ≡ 200
        → decode r.body ≡ err e
        → Exchanged unsent not_ok undecodable prepare decode endpoint w (err (undecodable ++ e)) v
    answered :
        {q p : Q} {r : Response} {a : A} {v : W}
        → http.new_request endpoint ≡ ok q
        → Signed q p
        → http.send (prepare p) w ≡ (ok r, v)
        → r.status_code ≡ 200
        → decode r.body ≡ ok a
        → Exchanged unsent not_ok undecodable prepare decode endpoint w (ok a) v

  -- What the requests to Prometheus make of a decoded answer: its status must be "success".
  pub data Checked {A B : Type 0} (Fetched : Result A → W → Type 0) (status : A → String)
      (value : A → B) : Result B → W → Type 0 where
    failed : {e : Error} {v : W} → Fetched (err e) v → Checked Fetched status value (err e) v
    unsuccessful :
        {a : A} {v : W}
        → Fetched (ok a) v
        → status a ≢ "success"
        → Checked Fetched status value
            (err ("prometheus returned non-success status: " ++ status a))
            v
    accepted :
        {a : A} {v : W}
        → Fetched (ok a) v
        → status a ≡ "success"
        → Checked Fetched status value (ok (value a)) v

  abbrev pub AlertsEnding : W → Result (List Alert) → W → Type 0
  AlertsEnding w =
      Exchanged "failed to execute request to alertmanager: "
        "alertmanager returned non-OK status: " "failed to decode alertmanager response: " (λ q. q)
        http.decode_alerts (c.alertmanager_url ++ "/api/v2/alerts") w

  -- One exchange with Prometheus, by one parameter of the query and the path.
  abbrev pub Prometheus :
      {A : Type 0} → String → String → (String → Result A) → String → W → Result A → W → Type 0
  Prometheus key value decode path w =
      Exchanged "failed to execute request: " "prometheus returned non-OK status: "
        "failed to decode prometheus response: " (http.add_query key value) decode
        (c.prometheus_url ++ path) w

  abbrev pub MetricsEnding : String → W → Result (List String) → W → Type 0
  MetricsEnding job_name w =
      Checked
        (Prometheus "match[]" ("{job=~\"^" ++ job_name ++ ".*\"}") http.decode_labels
          "/api/v1/label/__name__/values" w)
        (λ r. r.status) (λ r. r.values)

  abbrev pub QueryEnding : String → W → Result PrometheusQueryResponse → W → Type 0
  QueryEnding text w =
      Checked (Prometheus "query" text http.decode_query "/api/v1/query" w) (λ r. r.status) (λ r. r)
