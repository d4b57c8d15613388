-- ===== src/App/Tests.antt =====
-- The alerter and the poller at concrete arguments.
use chatops.Base.{[], ◌∷◌, String, length, List, if◌then◌else◌, refl, str_eq, ◌≡◌, true, any}
use chatops.App.Alerter.{Alerter, find_duty, check_and_notify, format_notification, answer_of}
use chatops.Effects.{Call, Result, ok, err}
use chatops.App.Alerter.Laws.{Answers}
use chatops.App.Poller.{start_poller, tick, cancelled}
use chatops.Monitoring.Types.{Alert}
use chatops.App.Poller.Laws.{start_poller_lem}
use chatops.Db.Tests.{database, store}
use chatops.Db.Memory.{Store, memory-Joins}
use chatops.App.DbAdapter.{with_database}
use chatops.App.DbAdapter.Laws.{notified, find_duty-notified}
use chatops.Db.Types.{User}
use chatops.App.Alerter.Notices.{messages, check_and_notify_lem}

abbrev duty : String → Result (List User)
duty label =
    if str_eq label "team=shop"
    then ok (
        record { id = 1; login = "anna"; password = "secret"; is_duty = true; job_status = "sre" }
        ∷ [])
    else if str_eq label "env=broken"
    then err "no such label"
    else ok []

abbrev alerter : Alerter (Unit {0})
alerter = record {
  get_active_alerts = λ w. (ok [], w);
  get_duty_users_by_label = λ label w. (answer_of (duty label), w);
}

duty-Answers : Answers alerter duty
duty-Answers label w = refl

abbrev labels : List (String × String)
labels = ("env", "broken") ∷ ("team", "shop") ∷ []

abbrev swapped : List (String × String)
swapped = ("team", "shop") ∷ ("env", "broken") ∷ []

abbrev broken : Call (Unit {0}) (List Alert)
broken w = (err "connection refused", w)

start_poller_lem_example :
    (length (start_poller broken (tick ∷ tick ∷ cancelled ∷ []) tt).0 ≡ 4)
    × (start_poller broken (tick ∷ cancelled ∷ tick ∷ []) tt
        ≡ start_poller broken (tick ∷ cancelled ∷ []) tt)
start_poller_lem_example =
    start_poller_lem broken (tick ∷ tick ∷ cancelled ∷ []) (tick ∷ []) (tick ∷ []) tt

abbrev broken_store : Call Store (List Alert)
broken_store w = (err "connection refused", w)

find_duty-notified_example :
    any
      (λ u. str_eq u.login "anna")
      (find_duty (with_database database broken_store) labels store).0
    ≡ notified (λ u. str_eq u.login "anna") labels store.users store.labels
find_duty-notified_example =
    find_duty-notified database (λ w. w.users) (λ w. w.labels)
      (memory-Joins (λ w. w) (λ w _. w) 1000000000000000) broken_store (λ u. str_eq u.login "anna")
      labels store

abbrev alert : Alert
alert = record {
  labels = labels;
  annotations = ("summary", "the shop is down") ∷ [];
  state = "active";
  active_at = 0;
  value = "1";
}

abbrev alerting : Alerter (Unit {0})
alerting = record alerter { get_active_alerts = λ w. (ok (alert ∷ []), w) }

check_and_notify_lem_example : check_and_notify alerting tt ≡ (ok (messages duty (alert ∷ [])), tt)
check_and_notify_lem_example =
    check_and_notify_lem alerting duty duty-Answers tt tt (ok (alert ∷ [])) refl

-- Anna is told of the alert, through its second label.
told : messages duty (alert ∷ []) ≡ format_notification "anna" alert ∷ []
told = refl
