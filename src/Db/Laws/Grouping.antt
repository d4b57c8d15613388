-- ===== src/Db/Laws/Grouping.antt =====
-- GetDutyUsersWithLabels of internal/db/repository/user_label_repo.go: the map from users to labels.
use mathlib.Core.List.{append_assoc, append-nil}
use chatops.Base.{
  ◌≡◌, ◌↔◌, sym, Bool, true, false, String, List, [], ◌∷◌, ◌++◌, All, arith, str_eq_iff, ==_iff,
  if◌then◌else◌, Bool-cases, inl, inr, ap, refl,
}
use chatops.Db.Types.{User}
use chatops.Db.Repository.Grouping.{Groups, same_flag, same_user, add_label, group_from, group}

same_flag_iff : (a b : Bool) → (same_flag a b ≡ true) ↔ (a ≡ b)
same_flag_iff true true = ground arith
same_flag_iff true false = ground arith
same_flag_iff false true = ground arith
same_flag_iff false false = ground arith

-- Two users are one key of the map exactly if they are the same in every field.
pub same_user_iff : (u v : User) → (same_user u v ≡ true) ↔ (u ≡ v)
unfolding same_user
same_user_iff u v = ground (
  arith,
  ==_iff u.id v.id,
  str_eq_iff u.login v.login,
  str_eq_iff u.password v.password,
  str_eq_iff u.job_status v.job_status,
  same_flag_iff u.is_duty v.is_duty,
)

-- result[u]
abbrev pub labels_under : User → Groups → List String
labels_under u [] = []
labels_under u ((v, labels) ∷ groups) = if same_user v u then labels else labels_under u groups

-- The labels that the rows give to a user, in their order.
abbrev pub labels_in : User → List (User × String) → List String
labels_in u [] = []
labels_in u ((v, label) ∷ rows) =
    if same_user v u then label ∷ labels_in u rows else labels_in u rows

apart : (x u v : User) → same_user x u ≡ true → same_user x v ≡ false → same_user v u ≡ false
apart x u v here other =
    ground (arith, same_user_iff x v, same_user_iff x u, same_user_iff v u, here, other)

labels_under-add_label :
    (u v : User) (label : String) (groups : Groups)
    → labels_under u (add_label v label groups)
      ≡ (if same_user v u then labels_under u groups ++ label ∷ [] else labels_under u groups)
unfolding add_label
labels_under-add_label u v label [] = ground arith
labels_under-add_label u v label ((x, labels) ∷ groups) = elim (Bool-cases (same_user x v)) [
  | inl same ↦
      let key : same_user v u ≡ same_user x u =
        ap (λ y. same_user y u) (sym ((same_user_iff x v).0 same)) in
      elim (Bool-cases (same_user x u)) [
        | inl here ↦ rw (same, key, here) refl
        | inr there ↦ rw (same, key, there) refl
      ]
  | inr other ↦ elim (Bool-cases (same_user x u)) [
    | inl here ↦
        let key : same_user v u ≡ false = apart x u v here other in rw (other, here, key) refl
    | inr there ↦ rw (other, there) (labels_under-add_label u v label groups)
  ]
]

labels_under-group_from :
    (u : User) (rows : List (User × String)) (groups : Groups)
    → labels_under u (group_from groups rows) ≡ labels_under u groups ++ labels_in u rows
labels_under-group_from u [] groups = sym (append-nil (labels_under u groups))
labels_under-group_from u ((v, label) ∷ rows) groups = ground (
  arith,
  labels_under-group_from u rows (add_label v label groups),
  labels_under-add_label u v label groups,
  append_assoc (labels_under u groups) (label ∷ []) (labels_in u rows),
)

abbrev Lacking : User → Groups → Type 0
Lacking u groups = All (λ g. same_user g.0 u ≡ false) groups

-- No user is the key of two groups.
abbrev pub Apart : Groups → Type 0
Apart [] = Unit
Apart ((u, labels) ∷ groups) = All (λ g. same_user g.0 u ≡ false) groups × Apart groups

Lacking-add_label :
    (u v : User) (label : String) (groups : Groups)
    → same_user v u ≡ false
    → Lacking u groups
    → Lacking u (add_label v label groups)
unfolding add_label
Lacking-add_label u v label [] ne h = (ne, tt)
Lacking-add_label u v label ((x, labels) ∷ groups) ne h = elim (Bool-cases (same_user x v)) [
  | inl same ↦ rw same h
  | inr other ↦ rw other (h.0, Lacking-add_label u v label groups ne h.1)
]

symmetric : (u v : User) → same_user u v ≡ false → same_user v u ≡ false
symmetric u v h = ground (arith, same_user_iff u v, same_user_iff v u, h)

Apart-add_label :
    (v : User) (label : String) (groups : Groups) → Apart groups → Apart (add_label v label groups)
unfolding add_label
Apart-add_label v label [] h = (tt, tt)
Apart-add_label v label ((x, labels) ∷ groups) h = elim (Bool-cases (same_user x v)) [
  | inl same ↦ rw same h
  | inr other ↦ rw other (
    Lacking-add_label x v label groups (symmetric x v other) h.0,
    Apart-add_label v label groups h.1,
  )
]

Apart-group_from :
    (rows : List (User × String)) (groups : Groups) → Apart groups → Apart (group_from groups rows)
Apart-group_from [] groups h = h
Apart-group_from ((v, label) ∷ rows) groups h =
    Apart-group_from rows (add_label v label groups) (Apart-add_label v label groups h)

pub group_lem :
    (rows : List (User × String))
    → ((u : User) → labels_under u (group rows) ≡ labels_in u rows) × Apart (group rows)
unfolding group
group_lem rows = (λ u. labels_under-group_from u rows [], Apart-group_from rows [] tt)
