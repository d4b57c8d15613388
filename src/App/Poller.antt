-- ===== src/App/Poller.antt =====
-- poller_alert.go of internal/app. What the select of the loop takes next, a tick or the end of the
-- context, is given as a list: where both are there, Go takes either.
pub mod Laws
use Prim.Native.String.{◌++◌}
use chatops.Base.{String, List, [], ◌∷◌, Option, All, some, none}
use chatops.Effects.{Result, Call, err, ok}
use chatops.Monitoring.Types.{Alert}
use chatops.Go.Maps.{lookup, get}

abbrev described : Option String → String
described none = ""
described (some desc) = "  _" ++ desc ++ "_\n"

abbrev severe : Option String → String
severe none = ""
severe (some severity) = "  Severity: `" ++ severity ++ "`\n"

unfoldable pub check_lines : List Alert → String
unfolding lookup get
check_lines [] = ""
check_lines (a ∷ alerts) =
    "> *"
    ++ get "alertname" a.labels
    ++ "*\n"
    ++ described (lookup "description" a.annotations)
    ++ severe (lookup "severity" a.labels)
    ++ "\n"
    ++ check_lines alerts

abbrev check_part : List Alert → String
check_part [] = "✅ *Нет активных алертов*\n"
check_part (a ∷ alerts) = "🔥 *Активные алерты:*\n" ++ check_lines (a ∷ alerts)

-- What one check writes to the log: its message, or its error.
abbrev pub checked : Result (List Alert) → String
checked (err e) = "Error checking alerts: " ++ e
checked (ok alerts) = "🔍 *Проверка алертов:*\n\n" ++ check_part alerts

-- A case of the select.
pub data Signal : Type 0 where
  tick cancelled : Signal

abbrev pub stopping : String
stopping = "Alert poller stopping..."

module _ {W : Type 0} (get_active_alerts : Call W (List Alert)) where
  -- checkAlerts, with the log line of its caller
  unfoldable pub check_alerts : W → String × W
  unfolding check_lines
  check_alerts w = let (r, v) = get_active_alerts w in (checked r, v)

  -- The loop, until the context ends or the list does: the lines that it logs.
  unfoldable pub serve : List Signal → W → List String × W
  unfolding check_alerts
  serve [] w = ([], w)
  serve (cancelled ∷ signals) w = (stopping ∷ [], w)
  serve (tick ∷ signals) w =
      let (line, v) = check_alerts w in let (lines, u) = serve signals v in (line ∷ lines, u)

  -- The goroutine of Start: a first check at once, and the loop.
  unfoldable pub start_poller : List Signal → W → List String × W
  unfolding check_alerts serve
  start_poller signals w =
      let (line, v) = check_alerts w in let (lines, u) = serve signals v in (line ∷ lines, u)
