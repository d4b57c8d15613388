-- ===== src/Db/Gorm.antt =====
-- What the repositories call of gorm: the chains Where(…).Order(…).Find(…) and their like, for each
-- table, and the queries that join users with their labels. `W` is the state of the database.
use chatops.Base.{ℕ, Bool, String, Option, List}
use chatops.Effects.{Call}
use chatops.Db.Types.{User, UserLabel, IncidentHistory, Operation}

-- A value of a column.
pub data Cell : Type 0 where
  number : ℕ → Cell
  words : String → Cell
  flag : Bool → Cell

-- The text and the arguments of Where: "c = ?", "c > ?", and two of them with AND.
pub data Condition : Type 0 where
  always : Condition
  equals : String → Cell → Condition
  above : String → Cell → Condition
  both : Condition → Condition → Condition

pub record Table (W T : Type 0) : Type 0 where
  -- Create(&t), which gives the row back with its key
  pub create : T → Call W T
  pub first : Condition → Call W T
  -- Find, and the column of Order("c desc")
  pub find : Condition → Option String → Call W (List T)
  pub update : Condition → String → Cell → Call W (Unit {0})
  pub delete : ℕ → Call W (Unit {0})

pub record Gorm (W : Type 0) : Type 0 where
  pub users : Table W User
  pub labels : Table W UserLabel
  pub incidents : Table W IncidentHistory
  pub operations : Table W Operation
  -- Preload("User").Where(…).Find(&labels)
  pub find_labels_with_user : Condition → Call W (List UserLabel)
  -- JOIN user_labels ON user_labels.user_id = users.id: the users, and the users with the labels
  pub find_users_joined : Condition → Call W (List User)
  pub scan_users_joined : Condition → Call W (List (User × String))
  pub now : W → ℕ × W
