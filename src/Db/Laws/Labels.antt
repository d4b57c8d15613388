-- ===== src/Db/Laws/Labels.antt =====
-- user_label_repo.go of internal/db/repository: whom the join of the users with their labels gives.
use chatops.Base.{
  Bool, true, ◌&&◌, ◌||◌, ◌==◌, ◌≡◌, refl, ap, ◌∙◌, String, List, [], ◌∷◌, any, any-Perm,
  any-select, any-map, arith, str_eq, any-append, Bool-cases, any_eq, inl, inr, subst, sym, any_and,
}
use chatops.Effects.{ok}
use chatops.Go.Maps.{lookup}
use chatops.Db.Types.{User, UserLabel}
use chatops.Db.Gorm.{Gorm, words, flag, equals, both}
use chatops.Db.Repository.{get_duty_users_by_label, get_duty_users_with_labels, grouped}
use chatops.Db.Repository.Grouping.{same_flag, same_user, Groups, group}
use chatops.Db.Sql.{Joins, joined, labels_of, matches, joined_row, holds}
use chatops.Db.Laws.Grouping.{labels_in, Apart, labels_under, same_user_iff, group_lem}

any-labels_of :
    (p : User × UserLabel → Bool) (u : User) (labels : List UserLabel)
    → any p (labels_of u labels) ≡ any (λ l. l.user_id == u.id && p (u, l)) labels
any-labels_of p u [] = refl
any-labels_of p u (l ∷ labels) = elim (Bool-cases (l.user_id == u.id)) [
  | inl same ↦ rw same (ap (λ b. p (u, l) || b) (any-labels_of p u labels))
  | inr other ↦ rw other (any-labels_of p u labels)
]

any-joined :
    (p : User × UserLabel → Bool) (users : List User) (labels : List UserLabel)
    → any p (joined users labels) ≡ any (λ u. any (λ l. l.user_id == u.id && p (u, l)) labels) users
any-joined p [] labels = refl
any-joined p (u ∷ users) labels =
    any-append p (labels_of u labels) (joined users labels)
    ∙ ap (λ b. b || any p (joined users labels)) (any-labels_of p u labels)
    ∙ ap (λ b. any (λ l. l.user_id == u.id && p (u, l)) labels || b) (any-joined p users labels)

-- A user with such a label.
abbrev pub has_label : String → List UserLabel → User → Bool
has_label label labels u = any (λ l. l.user_id == u.id && str_eq l.label label) labels

pull :
    (p : Bool) (d : Bool) (label : String) (u : User) (labels : List UserLabel)
    → any (λ l. l.user_id == u.id && (p && (str_eq l.label label && same_flag d true))) labels
      ≡ (p && (d && has_label label labels u))
pull p d label u [] = ground arith
pull p d label u (l ∷ labels) = ground (arith, pull p d label u labels)

pull_key :
    (k d : Bool) (label : String) (x : User) (labels : List UserLabel)
    → any (λ l. l.user_id == x.id && ((k && str_eq l.label label) && same_flag d true)) labels
      ≡ (k && d && has_label label labels x)
pull_key k d label x [] = ground arith
pull_key k d label x (l ∷ labels) = ground (arith, pull_key k d label x labels)

any-labels_in :
    (q : String → Bool) (u : User) (rows : List (User × String))
    → any q (labels_in u rows) ≡ any (λ r. same_user r.0 u && q r.1) rows
any-labels_in q u [] = refl
any-labels_in q u ((v, label) ∷ rows) = elim (Bool-cases (same_user v u)) [
  | inl same ↦ rw same (ap (λ b. q label || b) (any-labels_in q u rows))
  | inr other ↦ rw other (any-labels_in q u rows)
]

-- The row of a user may be replaced by the user that it equals.
same_row :
    (x u : User) (label : String) (labels : List UserLabel)
    → (same_user x u && x.is_duty && has_label label labels x)
      ≡ ((u.is_duty && has_label label labels u) && same_user x u)
same_row x u label labels = elim (Bool-cases (same_user x u)) [
  | inl same ↦ rw same (
      subst
        (λ y.
          (true && y.is_duty && has_label label labels y)
          ≡ ((u.is_duty && has_label label labels u) && true))
        (sym ((same_user_iff x u).0 same)) (ground arith))
  | inr other ↦ rw other (ground arith)
]

module _ {W : Type 0} (g : Gorm W) (users : W → List User) (labels : W → List UserLabel)
    (joins : Joins g users labels) where
  -- Where the join of users with their labels answers as SQL promises, GetDutyUsersByLabel
  -- succeeds, a user satisfying any test is among its users exactly if the table has such a user
  -- who is on duty and has the label, and the tables stay as they are.
  pub get_duty_users_by_label_lem :
      (label : String) (w : W)
      → (found : List User) × (v : W) × (get_duty_users_by_label g label w ≡ (ok found, v))
        × ((p : User → Bool)
            → any p found ≡ any (λ u. p u && (u.is_duty && has_label label (labels w) u)) (users w))
        × (users v ≡ users w)
        × (labels v ≡ labels w)
  unfolding get_duty_users_by_label lookup
  get_duty_users_by_label_lem label w =
      let c =
        both (equals "user_labels.label" (words label)) (equals "users.is_duty" (flag true)) in
      let (found, v, e, perm, same_users, same_labels) = joins.find_joined c w refl in
      (
        found,
        v,
        e,
        λ p.
            any-Perm p found _ perm
            ∙ any-map p (λ r. r.0) (matches c (users w) (labels w))
            ∙ any-select (λ r. p r.0) (λ r. holds c (joined_row r)) (joined (users w) (labels w))
            ∙ any-joined _ (users w) (labels w)
            ∙ any_eq _ _ (λ u. pull (p u) u.is_duty label u (labels w)) (users w),
        same_users,
        same_labels,
      )

  -- Where the join of users with their labels answers as SQL promises, GetDutyUsersWithLabels
  -- succeeds, no two keys of its map are the same user, and a label stands under a user exactly if
  -- the table has that very user, who is on duty and has the label.
  pub get_duty_users_with_labels_lem :
      (w : W)
      → (groups : Groups) × (v : W) × (get_duty_users_with_labels g w ≡ (ok groups, v))
        × Apart groups
        × ((u : User) (label : String)
            → any (λ l. str_eq l label) (labels_under u groups)
              ≡ ((u.is_duty && has_label label (labels w) u) && any (λ x. same_user x u) (users w)))
  unfolding get_duty_users_with_labels lookup
  get_duty_users_with_labels_lem w =
      let c = equals "users.is_duty" (flag true) in
      let (rows, v, e, perm, _, _) = joins.scan_joined c w refl in
      let (grouping, distinct) = group_lem rows in
      (
        group rows,
        v,
        ap (λ r. grouped r) e,
        distinct,
        λ u label.
            ap (λ ls. any (λ l. str_eq l label) ls) (grouping u)
            ∙ any-labels_in (λ l. str_eq l label) u rows
            ∙ any-Perm (λ r. same_user r.0 u && str_eq r.1 label) rows _ perm
            ∙ any-map (λ r. same_user r.0 u && str_eq r.1 label) (λ r. (r.0, r.1.label))
                (matches c (users w) (labels w))
            ∙ any-select (λ r. same_user r.0 u && str_eq r.1.label label)
                (λ r. holds c (joined_row r)) (joined (users w) (labels w))
            ∙ any-joined _ (users w) (labels w)
            ∙ any_eq _ _
                (λ x.
                  pull_key (same_user x u) x.is_duty label x (labels w)
                  ∙ same_row x u label (labels w))
                (users w)
            ∙ any_and (λ x. same_user x u) (u.is_duty && has_label label (labels w) u) (users w),
      )
