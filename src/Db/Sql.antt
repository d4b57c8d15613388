-- ===== src/Db/Sql.antt =====
-- What SQL and gorm document of the queries in use, while the connection stands: which rows a
-- condition selects, and what the calls do to a table. The columns are those of internal/db/models.
use mathlib.Core.List.{Perm}
use chatops.Base.{
  ℕ, Bool, true, false, ◌&&◌, ◌==◌, ◌≡◌, String, Option, none, some, List, [], ◌∷◌, ◌++◌, map, any,
  select, if◌then◌else◌, ltb, str_eq,
}
use chatops.Go.Maps.{Map, lookup}
use chatops.Effects.{Error, ok, err}
use chatops.Db.Types.{User, UserLabel, IncidentHistory, Operation}
use chatops.Db.Gorm.{Cell, number, words, flag, Condition, always, equals, above, both, Table, Gorm}
use chatops.Db.Repository.Grouping.{same_flag}

abbrev pub same_cell : Cell → Cell → Bool
same_cell (number a) (number b) = a == b
same_cell (words a) (words b) = str_eq a b
same_cell (flag a) (flag b) = same_flag a b
same_cell _ _ = false

abbrev pub later_cell : Cell → Cell → Bool
later_cell (number a) (number b) = ltb b a
later_cell _ _ = false

-- A row as its columns.
abbrev pub Row : Type 0
Row = Map Cell

abbrev pub cell_passes : (Cell → Bool) → Option Cell → Bool
cell_passes test none = false
cell_passes test (some c) = test c

abbrev pub holds : Condition → Row → Bool
holds always r = true
holds (equals column v) r = cell_passes (λ c. same_cell c v) (lookup column r)
holds (above column v) r = cell_passes (λ c. later_cell c v) (lookup column r)
holds (both a b) r = holds a r && holds b r

-- A query that names a column which the table lacks is refused by the database.
abbrev pub known : List String → Condition → Bool
known columns always = true
known columns (equals column v) = any (λ c. str_eq c column) columns
known columns (above column v) = any (λ c. str_eq c column) columns
known columns (both a b) = known columns a && known columns b

abbrev pub known_order : List String → Option String → Bool
known_order columns none = true
known_order columns (some column) = any (λ c. str_eq c column) columns

-- A struct of the program as a table: its columns, and a row of it.
pub record Schema (T : Type 0) : Type 0 where
  pub columns : List String
  pub row : T → Row
  pub set : String → Cell → T → T
  pub with_id : ℕ → T → T

module _ {W T : Type 0} (t : Table W T) (s : Schema T) (rows : W → List T) where
  pub record Answers : Type 0 where
    -- A query on known columns gives the rows that its condition selects, in some order.
    pub find_known :
        (c : Condition) (order : Option String) (w : W)
        → (known s.columns c && known_order s.columns order) ≡ true
        → (found : List T) × (v : W) × (t.find c order w ≡ (ok found, v))
          × Perm found (select (λ x. holds c (s.row x)) (rows w))
          × (rows v ≡ rows w)
    pub find_unknown :
        (c : Condition) (order : Option String) (w : W)
        → (known s.columns c && known_order s.columns order) ≡ false
        → (e : Error) × (v : W) × (t.find c order w ≡ (err e, v)) × (rows v ≡ rows w)
    -- First is an error exactly where the condition selects nothing.
    pub first_some :
        (c : Condition) (w : W)
        → known s.columns c ≡ true
        → any (λ x. holds c (s.row x)) (rows w) ≡ true
        → (found : T) × (v : W) × (t.first c w ≡ (ok found, v))
          × (holds c (s.row found) ≡ true)
          × (rows v ≡ rows w)
    pub first_none :
        (c : Condition) (w : W)
        → known s.columns c ≡ true
        → any (λ x. holds c (s.row x)) (rows w) ≡ false
        → (e : Error) × (v : W) × (t.first c w ≡ (err e, v)) × (rows v ≡ rows w)
    pub update_known :
        (c : Condition) (column : String) (value : Cell) (w : W)
        → (known s.columns c && known_order s.columns (some column)) ≡ true
        → (v : W) × (t.update c column value w ≡ (ok tt, v))
          × (rows v ≡ map (λ x. if holds c (s.row x) then s.set column value x else x) (rows w))
    pub create_lem :
        (x : T) (w : W)
        → (id : ℕ) × (v : W) × (t.create x w ≡ (ok (s.with_id id x), v))
          × (rows v ≡ rows w ++ s.with_id id x ∷ [])

abbrev pub set_user : String → Cell → User → User
set_user column (number n) u = u
set_user column (words t) u =
    if str_eq column "login"
    then record u { login = t }
    else if str_eq column "password"
    then record u { password = t }
    else if str_eq column "job_status"
    then record u { job_status = t }
    else u
set_user column (flag b) u = if str_eq column "is_duty" then record u { is_duty = b } else u

-- models.User
abbrev pub user_schema : Schema User
user_schema = record {
  columns = "id" ∷ "login" ∷ "password" ∷ "is_duty" ∷ "job_status" ∷ [];
  row = λ u.
      ("id", number u.id)
      ∷ ("login", words u.login)
      ∷ ("password", words u.password)
      ∷ ("is_duty", flag u.is_duty)
      ∷ ("job_status", words u.job_status)
      ∷ [];
  set = set_user;
  with_id = λ n u. record u { id = n };
}

abbrev pub set_label : String → Cell → UserLabel → UserLabel
set_label column (words t) l = if str_eq column "label" then record l { label = t } else l
set_label column _ l = l

-- models.UserLabel. A row that is created takes its foreign key from its user.
abbrev pub label_schema : Schema UserLabel
label_schema = record {
  columns = "id" ∷ "user_id" ∷ "label" ∷ [];
  row = λ l. ("id", number l.id) ∷ ("user_id", number l.user_id) ∷ ("label", words l.label) ∷ [];
  set = set_label;
  with_id = λ n l. record l { id = n; user_id = l.user.id };
}

abbrev pub set_incident : String → Cell → IncidentHistory → IncidentHistory
set_incident column (words t) i = if str_eq column "status" then record i { status = t } else i
set_incident column _ i = i

-- models.IncidentHistory
abbrev pub incident_schema : Schema IncidentHistory
incident_schema = record {
  columns = "time" ∷ "id" ∷ "status" ∷ [];
  row = λ i. ("time", number i.time) ∷ ("id", number i.id) ∷ ("status", words i.status) ∷ [];
  set = set_incident;
  with_id = λ n i. record i { id = n };
}

abbrev pub set_operation : String → Cell → Operation → Operation
set_operation column (words t) o = if str_eq column "text" then record o { text = t } else o
set_operation column _ o = o

-- models.Operation
abbrev pub operation_schema : Schema Operation
operation_schema = record {
  columns = "time" ∷ "id" ∷ "text" ∷ [];
  row = λ o. ("time", number o.time) ∷ ("id", number o.id) ∷ ("text", words o.text) ∷ [];
  set = set_operation;
  with_id = λ n o. record o { id = n };
}

-- A row of users joined with a row of user_labels.
abbrev pub joined_row : User × UserLabel → Row
joined_row (u, l) =
    ("users.id", number u.id)
    ∷ ("users.is_duty", flag u.is_duty)
    ∷ ("user_labels.user_id", number l.user_id)
    ∷ ("user_labels.label", words l.label)
    ∷ []

abbrev pub labels_of : User → List UserLabel → List (User × UserLabel)
labels_of u [] = []
labels_of u (l ∷ ls) = if l.user_id == u.id then (u, l) ∷ labels_of u ls else labels_of u ls

-- users JOIN user_labels ON user_labels.user_id = users.id
abbrev pub joined : List User → List UserLabel → List (User × UserLabel)
joined [] ls = []
joined (u ∷ us) ls = labels_of u ls ++ joined us ls

abbrev pub joined_columns : List String
joined_columns = "users.id" ∷ "users.is_duty" ∷ "user_labels.user_id" ∷ "user_labels.label" ∷ []

-- What a condition keeps of the join.
abbrev pub matches : Condition → List User → List UserLabel → List (User × UserLabel)
matches c users labels = select (λ p. holds c (joined_row p)) (joined users labels)

module _ {W : Type 0} (g : Gorm W) (users : W → List User) (labels : W → List UserLabel) where
  pub record Joins : Type 0 where
    pub find_joined :
        (c : Condition) (w : W)
        → known joined_columns c ≡ true
        → (found : List User) × (v : W) × (g.find_users_joined c w ≡ (ok found, v))
          × Perm found (map (λ p. p.0) (matches c (users w) (labels w)))
          × (users v ≡ users w)
          × (labels v ≡ labels w)
    pub scan_joined :
        (c : Condition) (w : W)
        → known joined_columns c ≡ true
        → (found : List (User × String)) × (v : W) × (g.scan_users_joined c w ≡ (ok found, v))
          × Perm found (map (λ p. (p.0, p.1.label)) (matches c (users w) (labels w)))
          × (users v ≡ users w)
          × (labels v ≡ labels w)
