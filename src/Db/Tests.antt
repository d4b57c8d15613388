-- ===== src/Db/Tests.antt =====
-- The repositories on a database in memory.
use chatops.Db.Memory.{Store, memory, memory-Joins, table-Answers}
use chatops.Db.Types.{User, UserLabel}
use chatops.Db.Sql.{Answers, user_schema, incident_schema, operation_schema}
use chatops.Effects.{Error, ok, err}
use chatops.Db.Gorm.{Gorm}
use chatops.Base.{
  false, ◌∷◌, List, true, [], ◌≡◌, refl, String, ◌++◌, Bool, any, str_eq, ◌==◌, ◌&&◌, not,
}
use Prim.Native.Nat.{ℕ}
use chatops.Db.Repository.Grouping.{Groups, same_user}
use chatops.Db.Repository.{
  update_user_duty_status, create_user, get_user_incidents, authenticate_user,
  get_duty_users_by_label, get_duty_users_with_labels, get_user_operations, get_duty_users,
}
use chatops.Db.Laws.Users.{authenticate_user_lem, create_user_lem, get_duty_users-update}
use chatops.Db.Laws.Grouping.{Apart, labels_under}
use chatops.Db.Laws.Columns.{get_user_incidents-fails}
use chatops.Db.Laws.Labels.{has_label, get_duty_users_by_label_lem, get_duty_users_with_labels_lem}
use chatops.Db.Config.{Postgres}

abbrev pub anna : User
anna = record { id = 1; login = "anna"; password = "secret"; is_duty = true; job_status = "sre" }

abbrev boris : User
boris = record { id = 2; login = "boris"; password = "12345"; is_duty = false; job_status = "dev" }

abbrev label : ℕ → User → String → UserLabel
label id u text = record { id = id; user_id = u.id; user = u; label = text }

abbrev pub store : Store
store = record {
  users = anna ∷ boris ∷ [];
  labels = label 1 anna "team=shop" ∷ label 2 boris "team=shop" ∷ label 3 anna "env=prod" ∷ [];
  incidents = [];
  operations = [];
}

abbrev pub database : Gorm Store
database = memory (λ w. w) (λ w _. w) 1000000000000000

users-Answers : Answers database.users user_schema (λ w. w.users)
users-Answers =
    table-Answers user_schema (λ w. w.users) (λ xs w. record w { users = xs }) (λ xs w. refl)

incidents-Answers : Answers database.incidents incident_schema (λ w. w.incidents)
incidents-Answers =
    table-Answers incident_schema (λ w. w.incidents) (λ xs w. record w { incidents = xs })
      (λ xs w. refl)

operations-Answers : Answers database.operations operation_schema (λ w. w.operations)
operations-Answers =
    table-Answers operation_schema (λ w. w.operations) (λ xs w. record w { operations = xs })
      (λ xs w. refl)

authenticate_user_lem_example :
    ((authenticate_user database "anna" "secret" store).0 ≡ true)
    × ((authenticate_user database "anna" "secret" store).1.users ≡ store.users)
authenticate_user_lem_example =
    authenticate_user_lem database (λ w. w.users) users-Answers "anna" "secret" store

get_duty_users-update_example :
    (v : Store) × (update_user_duty_status database 2 true store ≡ (ok tt, v))
    × (found : List User) × (u : Store) × (get_duty_users database v ≡ (ok found, u))
    × (any (λ x. x.id == 2) found ≡ true)
    × ((p : User → Bool)
        → any (λ x. p x && not (x.id == 2)) found
          ≡ any (λ x. (p x && not (x.id == 2)) && x.is_duty) store.users)
get_duty_users-update_example =
    get_duty_users-update database (λ w. w.users) users-Answers 2 true store

create_user_lem_example :
    (u : User) × (v : Store) × (create_user database "clara" "qwerty" "dev" store ≡ (ok u, v))
    × (v.users ≡ store.users ++ u ∷ [])
    × (u.is_duty ≡ false)
    × ((authenticate_user database "clara" "qwerty" v).0 ≡ true)
create_user_lem_example =
    create_user_lem database (λ w. w.users) users-Answers "clara" "qwerty" "dev" store

get_user_incidents-fails_example :
    ((e : Error) × (v : Store) × (get_user_incidents database 1 store ≡ (err e, v)))
    × ((e : Error) × (v : Store) × (get_user_operations database 1 store ≡ (err e, v)))
get_user_incidents-fails_example =
    get_user_incidents-fails database (λ w. w.incidents) (λ w. w.operations) incidents-Answers
      operations-Answers 1 store

get_duty_users_by_label_lem_example :
    (found : List User) × (v : Store) × (get_duty_users_by_label database "team=shop" store
      ≡ (ok found, v))
    × ((p : User → Bool)
        → any p found
          ≡ any (λ u. p u && (u.is_duty && has_label "team=shop" store.labels u)) store.users)
    × (v.users ≡ store.users)
    × (v.labels ≡ store.labels)
get_duty_users_by_label_lem_example =
    get_duty_users_by_label_lem database (λ w. w.users) (λ w. w.labels)
      (memory-Joins (λ w. w) (λ w _. w) 1000000000000000) "team=shop" store

get_duty_users_with_labels_lem_example :
    (groups : Groups) × (v : Store) × (get_duty_users_with_labels database store ≡ (ok groups, v))
    × Apart groups
    × ((u : User) (text : String)
        → any (λ l. str_eq l text) (labels_under u groups)
          ≡ ((u.is_duty && has_label text store.labels u) && any (λ x. same_user x u) store.users))
get_duty_users_with_labels_lem_example =
    get_duty_users_with_labels_lem database (λ w. w.users) (λ w. w.labels)
      (memory-Joins (λ w. w) (λ w _. w) 1000000000000000) store

abbrev postgres : Postgres Store
postgres = record {
  get_env = λ name. "";
  open_gorm = λ dsn. ok database;
  migrate = λ g w. (ok tt, record w { users = [] });
}
