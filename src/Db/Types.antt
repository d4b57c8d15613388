-- ===== src/Db/Types.antt =====
-- The models of internal/db/models. An instant is a number of nanoseconds; a uint is a number.
use chatops.Base.{ℕ, Bool, String}

pub record User : Type 0 where
  pub id : ℕ
  pub login : String
  pub password : String
  pub is_duty : Bool
  pub job_status : String

-- The foreign key user_id, and the user that Preload fills in.
pub record UserLabel : Type 0 where
  pub id : ℕ
  pub user_id : ℕ
  pub user : User
  pub label : String

pub record IncidentHistory : Type 0 where
  pub time : ℕ
  pub id : ℕ
  pub status : String

pub record Operation : Type 0 where
  pub time : ℕ
  pub id : ℕ
  pub text : String
