-- ===== src/Db/Memory.antt =====
-- A database in memory that answers as Db/Sql promises, on which the tests of the repositories run.
use mathlib.Core.List.Perm
use chatops.Base.{
  ℕ, Bool, true, false, ◌&&◌, ◌≡◌, refl, List, [], ◌∷◌, ◌++◌, map, any, select, length,
  if◌then◌else◌, suc, Bool-cases, some, arith, inl, not, inr, subst, ◌||◌, ◌==◌, ap, ◌∙◌,
}
use chatops.Effects.{Result, ok, err, Error}
use chatops.Db.Types.{User, UserLabel, IncidentHistory, Operation}
use chatops.Db.Gorm.{Table, Gorm, equals, number}
use chatops.Db.Sql.{
  Answers, Schema, known, known_order, holds, user_schema, incident_schema, operation_schema, Joins,
  joined_columns, matches, label_schema,
}

pub record Store : Type 0 where
  pub users : List User
  pub labels : List UserLabel
  pub incidents : List IncidentHistory
  pub operations : List Operation

abbrev pub no_column : Error
no_column = "column does not exist"

abbrev pub checked : {A : Type 0} → Bool → A → Result A
checked b x = if b then ok x else err no_column

abbrev pub head : {T : Type 0} → List T → Result T
head [] = err "record not found"
head (x ∷ xs) = ok x

head-select :
    {T : Type 0}
    → (p : T → Bool) (xs : List T) → any p xs ≡ true
    → (x : T) × (head (select p xs) ≡ ok x) × (p x ≡ true)
head-select p [] h = absurd (ground (arith, h))
head-select p (x ∷ xs) h = elim (Bool-cases (p x)) [
  | inl is ↦ (x, ap (λ b. head (if b then x ∷ select p xs else select p xs)) is, is)
  | inr isnt ↦
      let (y, e, py) = head-select p xs (subst (λ b. (b || any p xs) ≡ true) isnt h) in
      (y, ap (λ b. head (if b then x ∷ select p xs else select p xs)) isnt ∙ e, py)
]

head-none :
    {T : Type 0}
    → (p : T → Bool) (xs : List T) → any p xs ≡ false
    → head (select p xs) ≡ err "record not found"
head-none p [] h = refl
head-none p (x ∷ xs) h = elim (Bool-cases (p x)) [
  | inl is ↦ absurd (ground (arith, h, is))
  | inr isnt ↦ rw isnt (head-none p xs (subst (λ b. (b || any p xs) ≡ false) isnt h))
]

module _ {W T : Type 0} (s : Schema T) (rows : W → List T) (put : List T → W → W) where
  abbrev pub table : Table W T
  table = record {
    create = λ x w. let y = s.with_id (suc (length (rows w))) x in (ok y, put (rows w ++ y ∷ []) w);
    first = λ c w. (head (select (λ x. holds c (s.row x)) (rows w)), w);
    find = λ c order w. (
      checked (known s.columns c && known_order s.columns order)
          (select (λ x. holds c (s.row x)) (rows w)),
      w,
    );
    update = λ c column value w.
        if known s.columns c && known_order s.columns (some column)
        then (
          ok tt,
          put (map (λ x. if holds c (s.row x) then s.set column value x else x) (rows w)) w,
        )
        else (err no_column, w);
    delete = λ id w.
        (ok tt, put (select (λ x. not (holds (equals "id" (number id)) (s.row x))) (rows w)) w);
  }

  pub table-Answers : ((xs : List T) (w : W) → rows (put xs w) ≡ xs) → Answers table s rows
  table-Answers law = record {
    find_known = λ c order w h. (_, w, rw h refl, Perm.refl _, refl);
    find_unknown = λ c order w h. (no_column, w, rw h refl, refl);
    first_some = λ c w k h.
        let (x, e, p) = head-select (λ x. holds c (s.row x)) (rows w) h in
        (x, w, ap (λ r. (r, w)) e, p, refl);
    first_none =
        λ c w k h. (_, w, ap (λ r. (r, w)) (head-none (λ x. holds c (s.row x)) (rows w) h), refl);
    update_known = λ c column value w h. (_, rw h refl, law _ w);
    create_lem = λ x w. (_, _, refl, law _ w);
  }

abbrev pub with_users : List User → List UserLabel → List UserLabel
with_users users [] = []
with_users users (l ∷ labels) =
    (elim (head (select (λ u. u.id == l.user_id) users)) [
      | ok u ↦ record l { user = u }
      | err e ↦ l
    ])
    ∷ with_users users labels

-- The database as a part of a larger state.
module _ {W : Type 0} (get : W → Store) (set : Store → W → W) (time : ℕ) where
  abbrev pub memory : Gorm W
  memory = record {
    users = table user_schema (λ w. (get w).users) (λ xs w. set (record (get w) { users = xs }) w);
    labels =
        table label_schema (λ w. (get w).labels) (λ xs w. set (record (get w) { labels = xs }) w);
    incidents =
        table incident_schema (λ w. (get w).incidents)
          (λ xs w. set (record (get w) { incidents = xs }) w);
    operations =
        table operation_schema (λ w. (get w).operations)
          (λ xs w. set (record (get w) { operations = xs }) w);
    find_labels_with_user = λ c w. (
      checked (known label_schema.columns c)
          (with_users (get w).users (select (λ l. holds c (label_schema.row l)) (get w).labels)),
      w,
    );
    find_users_joined = λ c w. (
      checked (known joined_columns c) (map (λ p. p.0) (matches c (get w).users (get w).labels)),
      w,
    );
    scan_users_joined = λ c w. (
      checked (known joined_columns c)
          (map (λ p. (p.0, p.1.label)) (matches c (get w).users (get w).labels)),
      w,
    );
    now = λ w. (time, w);
  }

  pub memory-Joins : Joins memory (λ w. (get w).users) (λ w. (get w).labels)
  memory-Joins = record {
    find_joined = λ c w h. (_, w, rw h refl, Perm.refl _, refl, refl);
    scan_joined = λ c w h. (_, w, rw h refl, Perm.refl _, refl, refl);
  }
