-- ===== src/Db/Config.antt =====
-- The connection of internal/db/config/db.go, the migration of internal/db/migrations/auto.go, and
-- the program internal/db/main.go.
pub mod Laws
use Prim.Native.String.{◌++◌}
use chatops.Base.{String, Option, none, some, List, [], ◌∷◌, if◌then◌else◌, str_eq}
use chatops.Effects.{Error, Result, ok, err, Call}
use chatops.Db.Gorm.{Gorm}

-- os.Getenv; gorm.Open on the text of postgres.Open; and db.AutoMigrate of the four models.
pub record Postgres (W : Type 0) : Type 0 where
  pub get_env : String → String
  pub open_gorm : String → Result (Gorm W)
  pub migrate : Gorm W → Call W (Unit {0})

-- A variable of the environment, or a text in its place where it is empty.
unfoldable pub env_or : (String → String) → String → String → String
env_or get_env name default = if str_eq (get_env name) "" then default else get_env name

unfoldable pub data_source : (String → String) → String
unfolding env_or
data_source get_env =
    "host="
    ++ env_or get_env "DB_HOST" "localhost"
    ++ " user="
    ++ env_or get_env "POSTGRES_USER" "user1"
    ++ " password="
    ++ env_or get_env "POSTGRES_PASSWORD" "pass1"
    ++ " dbname="
    ++ env_or get_env "POSTGRES_DB" "chatops"
    ++ " port="
    ++ env_or get_env "DB_PORT" "5433"
    ++ " sslmode=disable"

module _ {W : Type 0} (p : Postgres W) where
  abbrev opened : Option (Gorm W) → Result (Gorm W) → Result (Unit {0}) × Option (Gorm W)
  opened db (err e) = (err ("failed to connect DB: " ++ e), db)
  opened db (ok g) = (ok tt, some g)

  -- InitDB, on the variable config.DB, which holds nil at first.
  unfoldable pub init_db : Option (Gorm W) → Result (Unit {0}) × Option (Gorm W)
  unfolding data_source
  init_db db = opened db (p.open_gorm (data_source p.get_env))

  abbrev migrated :
      Result (Unit {0}) × Option (Gorm W) → W → Result (Unit {0}) × (Option (Gorm W) × W)
  migrated (err e, db) w = (err e, (db, w))
  migrated (ok done, none) w = (ok tt, (none, w))
  migrated (ok done, some g) w = let (r, v) = p.migrate g w in (r, (some g, v))

  -- AutoMigrate. The nil database cannot stand behind an InitDB without error.
  unfoldable pub auto_migrate : Option (Gorm W) → W → Result (Unit {0}) × (Option (Gorm W) × W)
  unfolding init_db
  auto_migrate db w = migrated (init_db db) w

  abbrev reported : Result (Unit {0}) × (Option (Gorm W) × W) → Result String × W
  reported (err e, (db, w)) = (err ("Failed to migrate database:" ++ e), w)
  reported (ok done, (db, w)) = (ok "Database initialized successfully", w)

  -- main of internal/db/main.go: log.Fatal, or a line in the log.
  unfoldable pub create_tables : Call W String
  unfolding auto_migrate
  create_tables w = reported (auto_migrate none w)
