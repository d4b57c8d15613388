-- ===== src/Db/Config/Laws.antt =====
-- When the tables of internal/db are there.
use Prim.Native.String.{◌++◌}
use chatops.Base.{◌≡◌, refl, Option, some}
use chatops.Effects.{ok, err, Error}
use chatops.Db.Gorm.{Gorm}
use chatops.Db.Config.{Postgres, data_source, init_db, auto_migrate}

-- The error of InitDB.
abbrev pub wrapped : Error → Error
wrapped e = "failed to connect DB: " ++ e

module _ {W : Type 0} (p : Postgres W) where
  -- x
  pub auto_migrate_lem :
      (db : Option (Gorm W)) (w : W)
      → ((e : Error)
          → p.open_gorm (data_source p.get_env) ≡ err e
          → auto_migrate p db w ≡ (err (wrapped e), (db, w)))
        × ((g : Gorm W)
            → p.open_gorm (data_source p.get_env) ≡ ok g
            → auto_migrate p db w ≡ ((p.migrate g w).0, (some g, (p.migrate g w).1)))
  unfolding auto_migrate init_db
  auto_migrate_lem db w = (λ e h. rw h refl, λ g h. rw h refl)
