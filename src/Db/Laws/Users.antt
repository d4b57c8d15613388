-- ===== src/Db/Laws/Users.antt =====
-- user_repo.go of internal/db/repository on a table of users that answers as SQL promises.
use chatops.Base.{
  ℕ, Bool, true, false, not, ◌&&◌, ◌==◌, ◌≡◌, refl, ap, ◌∙◌, String, none, List, [], ◌∷◌, ◌++◌, map,
  any, select, any-Perm, any-select, any-map, arith, str_eq, if◌then◌else◌, Bool-cases, inl, inr,
  any_and, str_eq_refl, any_eq, any-last,
}
use chatops.Effects.{ok}
use chatops.Go.Maps.{lookup}
use chatops.Db.Types.{User}
use chatops.Db.Gorm.{Gorm, number, words, flag, equals, both}
use chatops.Db.Repository.{authenticate_user, update_user_duty_status, get_duty_users, create_user}
use chatops.Db.Sql.{Answers, user_schema}
use chatops.Db.Repository.Grouping.{same_flag}

-- What an update of the duty does to a row.
abbrev with_duty : ℕ → Bool → User → User
with_duty id duty x = if x.id == id then record x { is_duty = duty } else x

chosen :
    (id : ℕ) (duty : Bool) (x : User)
    → (((with_duty id duty x).id == id) && same_flag (with_duty id duty x).is_duty true)
      ≡ (duty && x.id == id)
chosen id duty x = elim (Bool-cases (x.id == id)) [
  | inl e ↦ rw e (ground arith)
  | inr e ↦ rw e (ground arith)
]

other :
    (id : ℕ) (duty : Bool) (p : User → Bool) (x : User)
    → ((p (with_duty id duty x) && not ((with_duty id duty x).id == id))
        && same_flag (with_duty id duty x).is_duty true)
      ≡ ((p x && not (x.id == id)) && x.is_duty)
other id duty p x = elim (Bool-cases (x.id == id)) [
  | inl e ↦ rw e (ground arith)
  | inr e ↦ rw e (ground arith)
]

-- A test of the users on duty after such an update.
any-duty :
    (id : ℕ) (duty : Bool) (p q : User → Bool) (xs : List User)
    → ((x : User) → (p (with_duty id duty x) && same_flag (with_duty id duty x).is_duty true) ≡ q x)
    → any p (select (λ x. same_flag x.is_duty true) (map (with_duty id duty) xs)) ≡ any q xs
any-duty id duty p q xs same =
    any-select p (λ x. same_flag x.is_duty true) (map (with_duty id duty) xs)
    ∙ any-map (λ x. p x && same_flag x.is_duty true) (with_duty id duty) xs
    ∙ any_eq (λ x. p (with_duty id duty x) && same_flag (with_duty id duty x).is_duty true) q same
        xs

module _ {W : Type 0} (g : Gorm W) (rows : W → List User)
    (answers : Answers g.users user_schema rows) where
  -- On a table of users that answers as SQL promises, AuthenticateUser says whether the table has
  -- a user with that login and that password, and leaves the table as it is.
  pub authenticate_user_lem :
      (login password : String) (w : W)
      → ((authenticate_user g login password w).0
          ≡ any (λ u. str_eq u.login login && str_eq u.password password) (rows w))
        × (rows (authenticate_user g login password w).1 ≡ rows w)
  unfolding authenticate_user lookup
  authenticate_user_lem login password w =
      let c = both (equals "login" (words login)) (equals "password" (words password)) in
      elim (Bool-cases (any (λ u. str_eq u.login login && str_eq u.password password) (rows w))) [
        | inl some_row ↦
            let (found, v, e, here, same) = answers.first_some c w refl some_row in
            rw (e, some_row) (refl, same)
        | inr no_row ↦
            let (e, v, eq, same) = answers.first_none c w refl no_row in
            rw (eq, no_row) (refl, same)
      ]

  -- On a table of users that answers as SQL promises, after UpdateUserDutyStatus, GetDutyUsers
  -- gives a user with that number exactly if the status was set to true and the table has one, and
  -- of the other users those that it would have given before.
  pub get_duty_users-update :
      (id : ℕ) (duty : Bool) (w : W)
      → (v : W) × (update_user_duty_status g id duty w ≡ (ok tt, v))
        × (found : List User) × (u : W) × (get_duty_users g v ≡ (ok found, u))
        × (any (λ x. x.id == id) found ≡ (duty && any (λ x. x.id == id) (rows w)))
        × ((p : User → Bool)
            → any (λ x. p x && not (x.id == id)) found
              ≡ any (λ x. (p x && not (x.id == id)) && x.is_duty) (rows w))
  unfolding update_user_duty_status get_duty_users lookup
  get_duty_users-update id duty w =
      let (v, e, after) =
        answers.update_known (equals "id" (number id)) "is_duty" (flag duty) w refl in
      let (found, u, f, perm, same) =
        answers.find_known (equals "is_duty" (flag true)) none v refl in
      let held : (p : User → Bool)
          → any p found
            ≡ any p (select (λ x. same_flag x.is_duty true) (map (with_duty id duty) (rows w))) =
        λ p.
          any-Perm p found _ perm
          ∙ ap (λ xs. any p (select (λ x. same_flag x.is_duty true) xs)) after in
      (
        v,
        e,
        found,
        u,
        f,
        held (λ x. x.id == id)
            ∙ any-duty id duty (λ x. x.id == id) (λ x. duty && x.id == id) (rows w) (chosen id duty)
            ∙ any_and (λ x. x.id == id) duty (rows w),
        λ p.
            held (λ x. p x && not (x.id == id))
            ∙ any-duty id duty (λ x. p x && not (x.id == id)) _ (rows w) (other id duty p),
      )

  -- On a table of users that answers as SQL promises, a user whom CreateUser adds stands in the
  -- table behind the others, is not on duty, and is accepted by AuthenticateUser with the login
  -- and the password given.
  pub create_user_lem :
      (login password job_status : String) (w : W)
      → (u : User) × (v : W) × (create_user g login password job_status w ≡ (ok u, v))
        × (rows v ≡ rows w ++ u ∷ [])
        × (u.is_duty ≡ false)
        × ((authenticate_user g login password v).0 ≡ true)
  unfolding create_user
  create_user_lem login password job_status w =
      let (id, v, e, added) = answers.create_lem _ w in
      let found : any (λ u. str_eq u.login login && str_eq u.password password) (rows v) ≡ true =
        rw added (
          any-last (λ (u : User). str_eq u.login login && str_eq u.password password) (rows w) _
            (ground (arith, str_eq_refl login, str_eq_refl password))) in
      (_, v, e, added, refl, (authenticate_user_lem login password v).0 ∙ found)
