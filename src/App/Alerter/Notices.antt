-- ===== src/App/Alerter/Notices.antt =====
-- Which notifications CheckAndNotify of internal/app/alerter.go writes.
use chatops.Base.{String, Bool, true, false, List, [], ◌∷◌, ◌++◌, ◌≡◌, refl, ap, ◌∙◌, map, select}
use chatops.Effects.{Error, Result, ok, err}
use chatops.Monitoring.Types.{Alert}
use chatops.Db.Types.{User}
use chatops.App.Alerter.{
  Alerter, label_text, found, find_duty, notices, notify, check_and_notify, format_notification,
  answer_of, search_duty,
}
use chatops.App.Alerter.Laws.{Answers, find_duty_lem}

abbrev pub users_of : Result (List User) → List User
users_of (ok users) = users
users_of (err e) = []

abbrev pub someone : List User → Bool
someone [] = false
someone (u ∷ us) = true

abbrev pub first_list : List (List User) → List User
first_list [] = []
first_list (us ∷ rest) = us

-- The first answer that is not empty, of those for all the labels.
abbrev pub first_on_duty : (String → Result (List User)) → List (String × String) → List User
first_on_duty table labels =
    first_list (select someone (map (λ label. users_of (table (label_text label))) labels))

-- One message for each of these users, alert by alert.
abbrev pub messages : (String → Result (List User)) → List Alert → List String
messages table [] = []
messages table (alert ∷ alerts) =
    map (λ u. format_notification u.login alert) (first_on_duty table alert.labels)
    ++ messages table alerts

-- The error that CheckAndNotify returns.
abbrev pub not_checked : Error → Error
not_checked e = Prim.Native.String.◌++◌ "failed to get active alerts: " e

notices_lem :
    (alert : Alert) (users : List User) (later : List String)
    → notices alert users later ≡ map (λ u. format_notification u.login alert) users ++ later
notices_lem alert [] later = refl
notices_lem alert (u ∷ users) later =
    ap (λ rest. format_notification u.login alert ∷ rest) (notices_lem alert users later)

module _ {W : Type 0} (a : Alerter W) (table : String → Result (List User))
    (answers : Answers a table) where
  found-first :
      (label : String × String) (labels : List (String × String)) (w : W) (r : Result (List User))
      → table (label_text label) ≡ r
      → find_duty a labels w ≡ (first_on_duty table labels, w)
      → found (answer_of r, w) (λ us. search_duty a us labels)
        ≡ (first_on_duty table (label ∷ labels), w)
  found-first label labels w (err e) q ih = rw q ih
  found-first label labels w (ok []) q ih = rw q ih
  found-first label labels w (ok (u ∷ us)) q ih = rw q refl

  find_duty-first :
      (labels : List (String × String)) (w : W)
      → find_duty a labels w ≡ (first_on_duty table labels, w)
  find_duty-first [] w = unfold search_duty in refl
  find_duty-first (label ∷ labels) w =
      find_duty_lem a table answers label labels w
      ∙ found-first label labels w (table (label_text label)) refl (find_duty-first labels w)

  notify-messages : (alerts : List Alert) (w : W) → notify a alerts w ≡ (messages table alerts, w)
  unfolding notify
  notify-messages [] w = refl
  notify-messages (alert ∷ alerts) w =
      rw (find_duty-first alert.labels w, notify-messages alerts w)
        (ap (λ m. (m, w))
          (notices_lem alert (first_on_duty table alert.labels) (messages table alerts)))

  -- For a duty table that answers by the label alone, and gives no users with an error,
  -- CheckAndNotify fails exactly as GetActiveAlerts does, and otherwise writes, alert by alert,
  -- one notification for each user of the first answer that is not empty among those for the
  -- labels of the alert, where an error counts as an empty answer.
  pub check_and_notify_lem :
      (w v : W) (r : Result (List Alert))
      → a.get_active_alerts w ≡ (r, v)
      → check_and_notify a w
        ≡ (elim r [ ok alerts ↦ ok (messages table alerts) | err e ↦ err (not_checked e) ], v)
  unfolding check_and_notify
  check_and_notify_lem w v (ok alerts) h =
      rw (check_and_notify, h, notify-messages alerts (a.get_active_alerts w).1)
        (ap (λ (p : Result (List Alert) × W). (ok (messages table alerts), p.1)) h)
  check_and_notify_lem w v (err e) h =
      rw (check_and_notify, h) (ap (λ (p : Result (List Alert) × W). (err (not_checked e), p.1)) h)
