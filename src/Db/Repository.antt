-- ===== src/Db/Repository.antt =====
-- internal/db/repository. Where an error comes with a pointer to an empty row, the callers look at
-- the error alone.
pub mod Grouping
use chatops.Base.{ℕ, Bool, true, false, String, none, some, List, ◌-◌, ◌*◌}
use chatops.Effects.{Result, ok, err, Call}
use chatops.Db.Types.{User, UserLabel, IncidentHistory, Operation}
use chatops.Db.Gorm.{Gorm, number, words, flag, always, equals, above, both}
use chatops.Db.Repository.Grouping.{Groups, group}

abbrev pub minute : ℕ
minute = 60 * 1000000000

abbrev is_ok : {A W : Type 0} → Result A × W → Bool × W
is_ok (ok a, w) = (true, w)
is_ok (err e, w) = (false, w)

-- Create(…).Error
abbrev error_of : {A W : Type 0} → Result A × W → Result (Unit {0}) × W
error_of (ok a, w) = (ok tt, w)
error_of (err e, w) = (err e, w)

abbrev pub grouped : {W : Type 0} → Result (List (User × String)) × W → Result Groups × W
grouped (err e, w) = (err e, w)
grouped (ok rows, w) = (ok (group rows), w)

module _ {W : Type 0} (g : Gorm W) where
  -- user_repo.go
  unfoldable pub create_user : String → String → String → Call W User
  create_user login password job_status = g.users.create (record {
    id = 0;
    login = login;
    password = password;
    is_duty = false;
    job_status = job_status;
  })

  unfoldable pub get_user_by_id : ℕ → Call W User
  get_user_by_id id = g.users.first (equals "id" (number id))

  unfoldable pub update_user_duty_status : ℕ → Bool → Call W (Unit {0})
  update_user_duty_status user_id is_duty =
      g.users.update (equals "id" (number user_id)) "is_duty" (flag is_duty)

  unfoldable pub get_all_users : Call W (List User)
  get_all_users = g.users.find always none

  unfoldable pub get_duty_users : Call W (List User)
  get_duty_users = g.users.find (equals "is_duty" (flag true)) none

  unfoldable pub authenticate_user : String → String → W → Bool × W
  authenticate_user login password w =
      is_ok
        (g.users.first (both (equals "login" (words login)) (equals "password" (words password))) w)

  -- user_label_repo.go
  unfoldable pub create_user_label : ℕ → String → Call W UserLabel
  create_user_label user_id label = g.labels.create (record {
    id = 0;
    user_id = 0;
    user = record { id = user_id; login = ""; password = ""; is_duty = false; job_status = "" };
    label = label;
  })

  unfoldable pub get_user_labels : ℕ → Call W (List UserLabel)
  get_user_labels user_id = g.find_labels_with_user (equals "user_id" (number user_id))

  unfoldable pub delete_user_label : ℕ → Call W (Unit {0})
  delete_user_label label_id = g.labels.delete label_id

  unfoldable pub update_user_label : ℕ → String → Call W (Unit {0})
  update_user_label label_id new_label =
      g.labels.update (equals "id" (number label_id)) "label" (words new_label)

  unfoldable pub get_label_by_name : String → Call W UserLabel
  get_label_by_name label = g.labels.first (equals "label" (words label))

  unfoldable pub get_duty_users_by_label : String → Call W (List User)
  get_duty_users_by_label label =
      g.find_users_joined
        (both (equals "user_labels.label" (words label)) (equals "users.is_duty" (flag true)))

  unfoldable pub get_duty_users_with_labels : Call W Groups
  unfolding group
  get_duty_users_with_labels w =
      grouped (g.scan_users_joined (equals "users.is_duty" (flag true)) w)

  -- incident_history_repo.go
  unfoldable pub create_incident : String → Call W IncidentHistory
  create_incident status w =
      let (t, v) = g.now w in g.incidents.create (record { time = t; id = 0; status = status }) v

  unfoldable pub get_user_incidents : ℕ → Call W (List IncidentHistory)
  get_user_incidents user_id =
      g.incidents.find (equals "user_id" (number user_id)) (some "created_at")

  unfoldable pub get_recent_incidents : Call W (List IncidentHistory)
  get_recent_incidents w =
      let (t, v) = g.now w in
      g.incidents.find (above "time" (number (t - 24 * 60 * minute))) (some "time") v

  unfoldable pub update_incident_status : ℕ → String → Call W (Unit {0})
  update_incident_status incident_id new_status =
      g.incidents.update (equals "id" (number incident_id)) "status" (words new_status)

  unfoldable pub get_incidents_by_status : String → Call W (List IncidentHistory)
  get_incidents_by_status status = g.incidents.find (equals "status" (words status)) (some "time")

  -- operation_repo.go
  unfoldable pub create_operation : String → Call W (Unit {0})
  create_operation text w =
      let (t, v) = g.now w in
      error_of (g.operations.create (record { time = t; id = 0; text = text }) v)

  unfoldable pub get_recent_operations : Call W (List Operation)
  get_recent_operations w =
      let (t, v) = g.now w in
      g.operations.find (above "time" (number (t - 5 * minute))) (some "time") v

  unfoldable pub get_user_operations : ℕ → Call W (List Operation)
  get_user_operations user_id =
      g.operations.find (equals "user_id" (number user_id)) (some "created_at")

  unfoldable pub get_operation_by_id : ℕ → Call W Operation
  get_operation_by_id id = g.operations.first (equals "id" (number id))
