-- ===== src/Db/Repository/Grouping.antt =====
-- The loop of GetDutyUsersWithLabels in internal/db/repository/user_label_repo.go, over a map whose
-- keys are whole users.
use chatops.Base.{Bool, true, false, ◌&&◌, ◌==◌, String, List, [], ◌∷◌, ◌++◌, if◌then◌else◌, str_eq}
use chatops.Db.Types.{User}

abbrev pub Groups : Type 0
Groups = List (User × List String)

abbrev pub same_flag : Bool → Bool → Bool
same_flag true b = b
same_flag false true = false
same_flag false false = true

-- The equality of two structs: of all their fields.
unfoldable pub same_user : User → User → Bool
same_user u v =
    u.id == v.id
    && str_eq u.login v.login
    && str_eq u.password v.password
    && same_flag u.is_duty v.is_duty
    && str_eq u.job_status v.job_status

-- result[user] = append(result[user], label)
unfoldable pub add_label : User → String → Groups → Groups
unfolding same_user
add_label u label [] = (u, label ∷ []) ∷ []
add_label u label ((v, labels) ∷ groups) =
    if same_user v u
    then (v, labels ++ label ∷ []) ∷ groups
    else (v, labels) ∷ add_label u label groups

abbrev pub group_from : Groups → List (User × String) → Groups
group_from groups [] = groups
group_from groups ((u, label) ∷ rows) = group_from (add_label u label groups) rows

unfoldable pub group : List (User × String) → Groups
unfolding add_label
group rows = group_from [] rows
