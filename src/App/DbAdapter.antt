-- ===== src/App/DbAdapter.antt =====
-- db_adapter.go of internal/app: the duty finder of the alerter that asks the database.
pub mod Laws
use chatops.Base.{String, List}
use chatops.Effects.{Call}
use chatops.Monitoring.Types.{Alert}
use chatops.Db.Types.{User}
use chatops.Db.Gorm.{Gorm}
use chatops.App.Alerter.{Alerter, DutyUsers, answer_of}
use chatops.Db.Repository as Repository

module _ {W : Type 0} (g : Gorm W) where
  -- DBAdapter.GetDutyUsersByLabel
  unfoldable pub get_duty_users_by_label : String → W → DutyUsers × W
  unfolding Repository.get_duty_users_by_label
  get_duty_users_by_label label w =
      let (r, v) = Repository.get_duty_users_by_label g label w in (answer_of r, v)

  -- An alerter with such a finder.
  abbrev pub with_database : Call W (List Alert) → Alerter W
  with_database get_active_alerts = record {
    get_active_alerts = get_active_alerts;
    get_duty_users_by_label = get_duty_users_by_label;
  }
