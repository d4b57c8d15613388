-- ===== src/App/Poller/Laws.antt =====
-- How long the poller goes on.
use chatops.Base.{[], ◌∷◌, ◌++◌, List, ℕ, suc, length, ◌≡◌, ap, refl}
use chatops.Effects.{Call}
use chatops.Monitoring.Types.{Alert}
use chatops.App.Poller.{Signal, start_poller, serve, cancelled, tick, String, check_alerts}

-- The lines that the loop owes for its signals: one for each up to the end of the context.
abbrev pub owed : List Signal → ℕ
owed [] = 0
owed (cancelled ∷ signals) = 1
owed (tick ∷ signals) = suc (owed signals)

module _ {W : Type 0} (get_active_alerts : Call W (List Alert)) where
  serve-owed :
      (signals : List Signal) (w : W) → length (serve get_active_alerts signals w).0 ≡ owed signals
  unfolding serve
  serve-owed [] w = refl
  serve-owed (cancelled ∷ signals) w = refl
  serve-owed (tick ∷ signals) w = ap suc (serve-owed signals (check_alerts get_active_alerts w).1)

  serve_stopped :
      (before after : List Signal) (w : W)
      → serve get_active_alerts (before ++ cancelled ∷ after) w
        ≡ serve get_active_alerts (before ++ cancelled ∷ []) w
  unfolding serve
  serve_stopped [] after w = refl
  serve_stopped (cancelled ∷ before) after w = refl
  serve_stopped (tick ∷ before) after w =
      ap (λ (p : List String × W). ((check_alerts get_active_alerts w).0 ∷ p.0, p.1))
        (serve_stopped before after (check_alerts get_active_alerts w).1)

  -- Whatever Alertmanager answers, a started poller writes one line at once and then one line for
  -- each signal up to the end of its context, that included; and it takes no notice of what comes
  -- after the end of the context.
  pub start_poller_lem :
      (signals before after : List Signal) (w : W)
      → (length (start_poller get_active_alerts signals w).0 ≡ suc (owed signals))
        × (start_poller get_active_alerts (before ++ cancelled ∷ after) w
            ≡ start_poller get_active_alerts (before ++ cancelled ∷ []) w)
  unfolding start_poller
  start_poller_lem signals before after w = (
    ap suc (serve-owed signals (check_alerts get_active_alerts w).1),
    ap (λ (p : List String × W). ((check_alerts get_active_alerts w).0 ∷ p.0, p.1))
        (serve_stopped before after (check_alerts get_active_alerts w).1),
  )
