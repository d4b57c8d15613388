-- ===== src/Db/Laws/Columns.antt =====
-- The columns that incident_history_repo.go and operation_repo.go of internal/db/repository name.
use mathlib.Core.List.{Perm}
use chatops.Base.{ℕ, ◌≡◌, ◌-◌, ◌*◌, refl, List, some, select, ltb, subst}
use chatops.Effects.{Error, ok, err}
use chatops.Go.Maps.{lookup}
use chatops.Db.Types.{IncidentHistory, Operation}
use chatops.Db.Gorm.{Gorm, number, equals, above}
use chatops.Db.Repository.{
  get_user_incidents, get_user_operations, get_recent_incidents, get_recent_operations, minute,
}
use chatops.Db.Sql.{Answers, incident_schema, operation_schema}

module _ {W : Type 0} (g : Gorm W) (incidents : W → List IncidentHistory)
    (operations : W → List Operation) (of_incidents : Answers g.incidents incident_schema incidents)
    (of_operations : Answers g.operations operation_schema operations) where
  -- On tables of incidents and of operations that answer as SQL promises, GetUserIncidents and
  -- GetUserOperations end with an error for every user, since the tables lack the columns that
  -- they name.
  pub get_user_incidents-fails :
      (user_id : ℕ) (w : W)
      → ((e : Error) × (v : W) × (get_user_incidents g user_id w ≡ (err e, v)))
        × ((e : Error) × (v : W) × (get_user_operations g user_id w ≡ (err e, v)))
  unfolding get_user_incidents get_user_operations
  get_user_incidents-fails user_id w =
      let (e, v, q, _) =
        of_incidents.find_unknown (equals "user_id" (number user_id)) (some "created_at") w refl in
      let (e', v', q', _) =
        of_operations.find_unknown (equals "user_id" (number user_id)) (some "created_at") w refl in
      ((e, v, q), (e', v', q'))

  -- x
  pub get_recent_lem :
      (w : W)
      → (incidents (g.now w).1 ≡ incidents w)
      → (operations (g.now w).1 ≡ operations w)
      → ((found : List IncidentHistory) × (v : W) × (get_recent_incidents g w ≡ (ok found, v))
          × Perm found (select (λ i. ltb ((g.now w).0 - 24 * 60 * minute) i.time) (incidents w)))
        × ((found : List Operation) × (v : W) × (get_recent_operations g w ≡ (ok found, v))
            × Perm found (select (λ o. ltb ((g.now w).0 - 5 * minute) o.time) (operations w)))
  unfolding get_recent_incidents get_recent_operations lookup
  get_recent_lem w same_i same_o =
      let (found, v, q, perm, _) =
        of_incidents.find_known (above "time" (number ((g.now w).0 - 24 * 60 * minute)))
          (some "time") (g.now w).1 refl in
      let (found', v', q', perm', _) =
        of_operations.find_known (above "time" (number ((g.now w).0 - 5 * minute))) (some "time")
          (g.now w).1 refl in
      (
        (
          found,
          v,
          q,
          subst
              (λ rows. Perm found (select (λ i. ltb ((g.now w).0 - 24 * 60 * minute) i.time) rows))
              same_i perm,
        ),
        (
          found',
          v',
          q',
          subst (λ rows. Perm found' (select (λ o. ltb ((g.now w).0 - 5 * minute) o.time) rows))
              same_o perm',
        ),
      )
