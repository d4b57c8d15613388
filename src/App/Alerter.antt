-- ===== src/App/Alerter.antt =====
-- alerter.go of internal/app. A loop over a map of labels visits it in the order of the list.
pub mod Laws
pub mod Notices
use Prim.Native.String.{◌++◌}
use chatops.Base.{String, List, [], ◌∷◌, All, Option, none, some}
use chatops.Effects.{Result, Call, err, ok, Error}
use chatops.Monitoring.Types.{Alert}
use chatops.Go.Strings.{join}
use chatops.Go.Maps.{get}
use chatops.Db.Types.{User}

-- The two results of GetDutyUsersByLabel, which may give users together with an error.
pub record DutyUsers : Type 0 where
  pub users : List User
  pub error : Option Error

-- The interfaces MonitoringClient and DutyFinder; `W` is the state of what is behind them.
pub record Alerter (W : Type 0) : Type 0 where
  pub get_active_alerts : Call W (List Alert)
  pub get_duty_users_by_label : String → W → DutyUsers × W

abbrev pub label_text : String × String → String
label_text (key, value) = key ++ "=" ++ value

unfoldable pub label_details : List (String × String) → List String
label_details [] = []
label_details ((key, value) ∷ labels) = ("- " ++ key ++ ": " ++ value) ∷ label_details labels

unfoldable pub format_notification : String → Alert → String
unfolding label_details join get
format_notification username alert =
    "УВЕДОМЛЕНИЕ ДЛЯ: @"
    ++ username
    ++ "\n==================================\n🚨 Сработал алерт: "
    ++ get "alertname" alert.labels
    ++ "\n\n📋 Описание: "
    ++ get "summary" alert.annotations
    ++ "\n📝 Дополнительно: "
    ++ get "description" alert.annotations
    ++ "\n\n🏷 Метки:\n"
    ++ join "\n" (label_details alert.labels)
    ++ "\n=================================="

-- The notifications of an alert, in front of what is logged later.
abbrev pub notices : Alert → List User → List String → List String
notices alert [] later = later
notices alert (user ∷ users) later =
    format_notification user.login alert ∷ notices alert users later

-- The two results of a finder that gives users or an error.
abbrev pub answer_of : Result (List User) → DutyUsers
answer_of (ok users) = record { users = users; error = none }
answer_of (err e) = record { users = []; error = some e }

-- One round of the loop over the labels, and what it does unless somebody is found: what dutyUsers
-- holds is kept for later, also if an error came with it.
abbrev pub decided :
    {W : Type 0} → Option Error → List User → W → (List User → W → List User × W) → List User × W
decided (some e) users w later = later users w
decided none [] w later = later [] w
decided none (user ∷ users) w later = (user ∷ users, w)

abbrev pub found : {W : Type 0} → DutyUsers × W → (List User → W → List User × W) → List User × W
found (answer, w) later = decided answer.error answer.users w later

module _ {W : Type 0} (a : Alerter W) where
  -- The loop over the labels, from what dutyUsers holds: it ends at the first label that has users,
  -- and passes over errors.
  unfoldable pub search_duty : List User → List (String × String) → W → List User × W
  search_duty kept [] w = (kept, w)
  search_duty kept (label ∷ labels) w =
      let later = λ (users : List User). search_duty users labels in
      found (a.get_duty_users_by_label (label_text label) w) later

  abbrev pub find_duty : List (String × String) → W → List User × W
  find_duty labels = search_duty [] labels

  -- The loop over the alerts, with the notifications that it logs.
  unfoldable pub notify : List Alert → W → List String × W
  unfolding search_duty format_notification
  notify [] w = ([], w)
  notify (alert ∷ alerts) w =
      let (users, v) = find_duty alert.labels w in
      let (later, u) = notify alerts v in (notices alert users later, u)

  unfoldable pub check_and_notify : W → Result (List String) × W
  unfolding notify
  check_and_notify w =
      let (r, v) = a.get_active_alerts w in
      elim r [
        | err e ↦ (err ("failed to get active alerts: " ++ e), v)
        | ok alerts ↦ let (said, u) = notify alerts v in (ok said, u)
      ]
