-- ===== src/Bot/Handlers/Metrics/Laws.antt =====
-- StatusHandler and the scheduler.
use chatops.Bot.Handlers.Metrics.{
  status_handler, Job, status_parts, told_status, or_default, split, Ranges,
}
use mathlib.Core.List.{Permᴰ}
use chatops.Base.{[], ◌∷◌, ℕ, Bool, List, String, ◌≡◌, ap, refl}
use chatops.Monitoring.Client.{Http, Client}
use chatops.Monitoring.Types.{Floats}
use chatops.Bot.Handlers.Chat.{Chat, Talk}
use chatops.Monitoring.Dashboard.Order.{get_status_dashboard-perm}

module _ {W Q F S : Type 0} (http : Http W Q) (floats : Floats F) (c : Client)
    (with_timeout : ℕ → W → W) (timed_out : W → Bool) (chat : Chat S) where
  -- StatusHandler sends the same message, and ends the same way, in whatever order the goroutines
  -- of GetStatusDashboard take the mutex.
  pub status_handler-perm :
      (ranges : Ranges F) (meets : Job → W) (order order' : List Job) (finished : W)
      (message : String) (t : Talk W S)
      → Permᴰ order order'
      → status_handler http floats c with_timeout timed_out chat ranges meets order finished message
          t
        ≡ status_handler http floats c with_timeout timed_out chat ranges meets order' finished
            message t
  unfolding status_handler
  status_handler-perm ranges meets order order' finished message t p = by_parts (split " " message)
    where
      by_parts :
          (parts : List String)
          → status_parts http floats c with_timeout timed_out chat ranges meets order finished parts
              t
            ≡ status_parts http floats c with_timeout timed_out chat ranges meets order' finished
                parts t
      by_parts [] = refl
      by_parts (_ ∷ []) = refl
      by_parts (_ ∷ job ∷ rest) =
          ap (λ d. told_status http floats c with_timeout timed_out chat finished d t.chat)
            (get_status_dashboard-perm http floats c ranges meets order order' (or_default rest) job
              (with_timeout 20 t.world) p)
