-- ===== src/App/DbAdapter/Laws.antt =====
-- Whom the alerter notifies, by the tables of users and labels.
use chatops.Base.{
  Bool, true, false, ◌&&◌, ◌≡◌, refl, sym, ap, ◌∙◌, String, List, [], ◌∷◌, any, if◌then◌else◌,
}
use chatops.Effects.{ok, Call, Result}
use chatops.Monitoring.Types.{Alert}
use chatops.Db.Types.{User, UserLabel}
use chatops.Db.Gorm.{Gorm}
use chatops.Db.Sql.{Joins}
use chatops.Db.Laws.Labels.{has_label, get_duty_users_by_label_lem}
use chatops.App.Alerter.{label_text, found, find_duty, answer_of, search_duty}
use chatops.App.DbAdapter.{with_database, get_duty_users_by_label}

-- The user is on duty and has the label of an alert.
abbrev pub on_duty : String × String → List UserLabel → User → Bool
on_duty label labels u = u.is_duty && has_label (label_text label) labels u

-- What the notified users satisfy: those of the first label of the alert that has somebody on duty.
abbrev pub notified : (User → Bool) → List (String × String) → List User → List UserLabel → Bool
notified p [] users labels = false
notified p (label ∷ rest) users labels =
    if any (on_duty label labels) users
    then any (λ u. p u && on_duty label labels u) users
    else notified p rest users labels

module _ {W : Type 0} (g : Gorm W) (users : W → List User) (labels : W → List UserLabel)
    (joins : Joins g users labels) (get_active_alerts : Call W (List Alert)) where
  found-notified :
      (label : String × String) (rest : List (String × String)) (p : User → Bool) (us : List User)
      (v w : W)
      → ((q : User → Bool) → any q us ≡ any (λ u. q u && on_duty label (labels w) u) (users w))
      → any p (find_duty (with_database g get_active_alerts) rest v).0
        ≡ notified p rest (users w) (labels w)
      → any p
          (found
            (answer_of (ok us), v)
            (λ kept. search_duty (with_database g get_active_alerts) kept rest)).0
        ≡ notified p (label ∷ rest) (users w) (labels w)
  found-notified label rest p [] v w same later = rw (sym (same (λ u. true))) later
  found-notified label rest p (u ∷ us) v w same later = rw (sym (same (λ u. true))) (same p)

  -- With the database behind it, and a join that answers as SQL promises, the alerter finds for an
  -- alert exactly the users who are on duty and have the first of its labels that anybody on duty
  -- has, and nobody if there is no such label.
  pub find_duty-notified :
      (p : User → Bool) (rest : List (String × String)) (w : W)
      → any p (find_duty (with_database g get_active_alerts) rest w).0
        ≡ notified p rest (users w) (labels w)
  unfolding search_duty get_duty_users_by_label
  find_duty-notified p [] w = refl
  find_duty-notified p (label ∷ rest) w =
      let (us, v, e, same, same_users, same_labels) =
        get_duty_users_by_label_lem g users labels joins (label_text label) w in
      ap
        (λ (r : Result (List User) × W).
          any p
            (found (answer_of r.0, r.1)
              (λ kept. search_duty (with_database g get_active_alerts) kept rest)).0)
        e
      ∙ found-notified label rest p us v w same
          (find_duty-notified p rest v ∙ rw (same_users, same_labels) refl)
