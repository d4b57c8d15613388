-- ===== src/Bot/Handlers/Others.antt =====
-- db_handlers.go and ai_handler.go of internal/bot/handlers.
pub mod Laws
use Prim.Native.String.{◌++◌}
use chatops.Base.{String, List, [], ◌∷◌, ℕ, All, Char, pos, Bool}
use chatops.Effects.{Call, Eff, Result, Outcome, fail, err, ok}
use chatops.Bot.YandexGpt.{Gpt, send_message}
use chatops.Go.Numbers.{format_int}
use chatops.Bot.Handlers.Chat.{Chat, Talk, say}
use chatops.Go.Strings.{split_n}
use chatops.Db.Types.{IncidentHistory, Operation}
use chatops.Db.Repository.{authenticate_user}
use chatops.Db.Gorm.{Gorm}

-- config.DB.Find over the two tables, and the text that %v prints of an instant.
pub record Tables (W : Type 0) : Type 0 where
  pub find_incidents : Call W (List IncidentHistory)
  pub find_operations : Call W (List Operation)
  pub format_time : ℕ → String

unfoldable pub incident_lines : List IncidentHistory → String
incident_lines [] = ""
incident_lines (i ∷ incidents) =
    "ID: " ++ format_int (pos i.id) ++ ", Status: " ++ i.status ++ "\n" ++ incident_lines incidents

unfoldable pub operation_lines : (ℕ → String) → List Operation → String
operation_lines format_time [] = ""
operation_lines format_time (o ∷ operations) =
    "ID: "
    ++ format_int (pos o.id)
    ++ ", Text: "
    ++ o.text
    ++ ", Time: "
    ++ format_time o.time
    ++ "\n"
    ++ operation_lines format_time operations

-- ProofLoginPaswordHandler, with the state that the query leaves.
unfoldable pub proof_login_pasword_handler : {W : Type 0} → Gorm W → String → String → W → Bool × W
unfolding authenticate_user
proof_login_pasword_handler g login password w = authenticate_user g login password w

module _ {W S : Type 0} (tables : Tables W) (gpt : Gpt W) (chat : Chat S) where
  -- c.Send(ans), whose error is dropped, and return errors.New(ans)
  abbrev pub fail_with : String → Eff (Talk W S) (Unit {0})
  fail_with ans t = (fail ans, record t { chat = (chat.send ans t.chat).1 })

  abbrev pub told_incidents : Result (List IncidentHistory) × W → S → Outcome (Unit {0}) × Talk W S
  told_incidents (err e, w) s =
      fail_with ("Ошибка получения инцидентов: " ++ e) (record { world = w; chat = s })
  told_incidents (ok incidents, w) s =
      say chat ("История инцидентов:\n" ++ incident_lines incidents)
        (record { world = w; chat = s })

  unfoldable pub history_handler : Eff (Talk W S) (Unit {0})
  unfolding incident_lines
  history_handler t = told_incidents (tables.find_incidents t.world) t.chat

  abbrev pub told_operations : Result (List Operation) × W → S → Outcome (Unit {0}) × Talk W S
  told_operations (err e, w) s =
      fail_with ("Ошибка получения операций: " ++ e) (record { world = w; chat = s })
  told_operations (ok operations, w) s =
      say chat ("Операции:\n" ++ operation_lines tables.format_time operations)
        (record { world = w; chat = s })

  unfoldable pub operations_handler : Eff (Talk W S) (Unit {0})
  unfolding operation_lines
  operations_handler t = told_operations (tables.find_operations t.world) t.chat

  abbrev pub told_answer : Result String × W → S → Outcome (Unit {0}) × Talk W S
  told_answer (err e, w) s =
      say chat ("Ошибка при обращении к ИИ: " ++ e) (record { world = w; chat = s })
  told_answer (ok answer, w) s = say chat ("Ответ ИИ:\n" ++ answer) (record { world = w; chat = s })

  abbrev pub ai_help_parts : List String → Eff (Talk W S) (Unit {0})
  ai_help_parts (_ ∷ question ∷ []) t = told_answer (send_message gpt question t.world) t.chat
  ai_help_parts _ t = say chat "Пожалуйста, укажите текст запроса после /ai_help" t

  unfoldable pub ai_help_handler : String → Eff (Talk W S) (Unit {0})
  unfolding split_n send_message
  ai_help_handler message = ai_help_parts (split_n 2 " " message)
